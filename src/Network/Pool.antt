-- ===== src/Network/Pool.antt =====
-- internal/firecracker/microvm/network_pool.go: newNetworkPool, one pass of acquire and of
-- acquireSpecific, and release. A method holds the pool's lock for each pass.
pub mod Acquire
use Prim.Native.String.{◌++◌}
use mathlib.Core.List.{◌++◌ as append}
use lecrev.Prelude.{
  ℕ, zero, suc, ◌+◌, ◌%◌, String, Bool, true, false, ◌||◌, Option, none, some, List, [], ◌∷◌,
  length, str_eq, if◌then◌else◌,
}
use lecrev.Prelude.Text.{trim_space}
use lecrev.Maps.{Assoc, get, put}
use lecrev.Errors.{Result, ok, err, other}

pub record NetworkConfig : Type 0 where
  pub tap_device : String
  pub guest_mac : String
  pub guest_ip : String
  pub gateway_ip : String
  pub netmask : String

pub record NetworkPool : Type 0 where
  pub order : List String
  pub cfgs : Assoc NetworkConfig
  pub in_use : Assoc Bool
  pub next : ℕ

abbrev is_blank : String → Bool
is_blank s = str_eq (trim_space s) ""

abbrev add_config : NetworkPool → NetworkConfig → NetworkPool
add_config pool cfg =
    let tap = trim_space cfg.tap_device in
    record pool {
      order = append pool.order (tap ∷ []);
      cfgs = put pool.cfgs tap cfg;
      in_use = put pool.in_use tap false;
    }

unfoldable pub fill_pool : List NetworkConfig → NetworkPool → Result NetworkPool
fill_pool [] pool = ok pool
fill_pool (cfg ∷ cfgs) pool =
    let rest = fill_pool cfgs (add_config pool cfg) in
    if is_blank cfg.tap_device
    then err (other "network pool entry missing tap device")
    else if is_blank cfg.guest_ip || (is_blank cfg.gateway_ip || is_blank cfg.netmask)
    then err (other ("network pool entry " ++ (cfg.tap_device ++ " missing guest network tuple")))
    else rest

abbrev pub empty_pool : NetworkPool
empty_pool = record { order = []; cfgs = []; in_use = []; next = 0 }

abbrev as_pool : Result NetworkPool → Result (Option NetworkPool)
as_pool (ok pool) = ok (some pool)
as_pool (err e) = err e

-- newNetworkPool: no pool without a configuration.
unfoldable pub new_network_pool : List NetworkConfig → Result (Option NetworkPool)
unfolding fill_pool
new_network_pool [] = ok none
new_network_pool (cfg ∷ cfgs) = as_pool (fill_pool (cfg ∷ cfgs) empty_pool)

unfoldable pub device_at : List String → ℕ → String
device_at [] i = ""
device_at (d ∷ ds) zero = d
device_at (d ∷ ds) (suc i) = device_at ds i

-- p.inUse[tap]: false for a device that is not there.
abbrev pub used : Assoc Bool → String → Bool
used m tap = elim (get m tap) [ none ↦ false | some b ↦ b ]

abbrev pub no_config : NetworkConfig
no_config = record { tap_device = ""; guest_mac = ""; guest_ip = ""; gateway_ip = ""; netmask = "" }

abbrev pub config_of : NetworkPool → String → NetworkConfig
config_of pool tap = elim (get pool.cfgs tap) [ none ↦ no_config | some cfg ↦ cfg ]

-- `p.inUse[tap] = true; p.next = (index + 1) % len(p.order)`.
abbrev take_at : NetworkPool → ℕ → Option (NetworkConfig × NetworkPool)
take_at pool index =
    let tap = device_at pool.order index in
    some (
      config_of pool tap,
      record pool { in_use = put pool.in_use tap true; next = (index + 1) % length pool.order },
    )

-- The loop over the offsets: `rounds` are left.
unfoldable pub acquire_loop : ℕ → ℕ → NetworkPool → Option (NetworkConfig × NetworkPool)
unfolding device_at
acquire_loop zero offset pool = none
acquire_loop (suc rounds) offset pool =
    let index = (pool.next + offset) % length pool.order in
    let rest = acquire_loop rounds (suc offset) pool in
    if used pool.in_use (device_at pool.order index) then rest else take_at pool index

unfoldable pub acquire_next_locked : NetworkPool → Option (NetworkConfig × NetworkPool)
unfolding acquire_loop
acquire_next_locked pool = acquire_loop (length pool.order) 0 pool

-- One pass of acquireSpecific: none while the device is taken, and the pass is made again.
abbrev specific_at :
    Option NetworkConfig → String → NetworkPool → Result (Option (NetworkConfig × NetworkPool))
specific_at none tap pool = err (other ("unknown tap device " ++ tap))
specific_at (some cfg) tap pool =
    if used pool.in_use tap
    then ok none
    else ok (some (cfg, record pool { in_use = put pool.in_use tap true }))

unfoldable pub acquire_specific :
    String → Option NetworkPool → Result (Option (NetworkConfig × NetworkPool))
acquire_specific device none = err (other "full-network execution requires a configured tap pool")
acquire_specific device (some pool) =
    let tap = trim_space device in
    if str_eq tap ""
    then err (other "tap device is required")
    else specific_at (get pool.cfgs tap) tap pool

abbrev release_at : Option Bool → String → NetworkPool → NetworkPool
release_at none tap pool = pool
release_at (some b) tap pool = record pool { in_use = put pool.in_use tap false }

-- (*networkPool).release.
unfoldable pub release : String → NetworkPool → NetworkPool
release tap pool = if str_eq tap "" then pool else release_at (get pool.in_use tap) tap pool

-- struct networkLease: its sync.Once has run or not.
pub record NetworkLease : Type 0 where
  pub cfg : NetworkConfig
  pub released : Bool

-- (*networkLease).Release.
unfoldable pub release_lease : NetworkLease → NetworkPool → NetworkLease × NetworkPool
unfolding release
release_lease lease pool =
    if lease.released
    then (lease, pool)
    else (record lease { released = true }, release (trim_space lease.cfg.tap_device) pool)
