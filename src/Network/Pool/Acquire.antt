-- ===== src/Network/Pool/Acquire.antt =====
-- Acquiring a device from the pool: it was free, and none is overlooked.
use native.Mathlib.Nat.{mod-eq_of_lt, add-mul-mod_self_right}
use lecrev.Prelude.{
  ℕ, zero, suc, ◌+◌, ◌-◌, ◌%◌, ◌<◌, ◌≤◌, String, ◌≡◌, true, false, none, some, inl, inr, arith,
  length, str_eq, Bool, Bool-cases, leb, if◌then◌else◌, ◌==◌, ap, subst, ◌∙◌,
}
use lecrev.Prelude.Text.{trim_space}
use lecrev.Maps.{get, put, get-put}
use lecrev.Network.Pool.{
  NetworkPool, NetworkConfig, acquire_loop, acquire_next_locked, config_of, device_at, NetworkLease,
  release, release_lease, used,
}

-- The pool in which the device at an index of the order was taken.
abbrev pub taken_at : NetworkPool → ℕ → NetworkPool
taken_at pool i = record pool {
  in_use = put pool.in_use (device_at pool.order i) true;
  next = (i + 1) % length pool.order;
}

loop_some :
    (rounds offset : ℕ) (pool : NetworkPool) {cfg : NetworkConfig} {pool' : NetworkPool}
    → acquire_loop rounds offset pool ≡ some (cfg, pool')
    → (i : ℕ) × (used pool.in_use (device_at pool.order i) ≡ false)
      × (cfg ≡ config_of pool (device_at pool.order i))
      × (pool' ≡ taken_at pool i)
unfolding acquire_loop
loop_some zero offset pool e = cc e
loop_some (suc rounds) offset pool {cfg} {pool'} e =
    let i = (pool.next + offset) % length pool.order in
    elim (Bool-cases (used pool.in_use (device_at pool.order i))) [
      | inl t ↦ loop_some rounds (suc offset) pool (ground (arith, t))
      | inr t ↦ (i, t, ground (arith, t), ground (arith, t))
    ]

loop_none :
    (rounds offset j : ℕ) (pool : NetworkPool)
    → acquire_loop rounds offset pool ≡ none
    → offset ≤ j
    → j < offset + rounds
    → used pool.in_use (device_at pool.order ((pool.next + j) % length pool.order)) ≡ true
unfolding acquire_loop
loop_none zero offset j pool e l h = absurd (omega arith)
loop_none (suc rounds) offset j pool e l h = elim (Bool-cases (offset == j)) [
  | inl t ↦ first (ground arith)
  | inr t ↦ loop_none rounds (suc offset) j pool (ground arith) (ground arith) (omega arith)
]
  where
    first :
        offset ≡ j
        → used pool.in_use (device_at pool.order ((pool.next + j) % length pool.order)) ≡ true
    first t =
        subst
          (λ k.
            used pool.in_use (device_at pool.order ((pool.next + k) % length pool.order)) ≡ true)
          t (ground arith)

-- A device that is acquired was free and is taken afterwards; the others stay as they were, the
-- configuration is the device's, and the next search begins behind it.
acquire-free :
    (pool : NetworkPool) (other : String) {cfg : NetworkConfig} {pool' : NetworkPool}
    → acquire_next_locked pool ≡ some (cfg, pool')
    → (i : ℕ) × (let tap = device_at pool.order i in
        (used pool.in_use tap ≡ false)
        × (cfg ≡ config_of pool tap)
        × (used pool'.in_use other ≡ (if str_eq tap other then true else used pool.in_use other))
        × (pool'.next ≡ (i + 1) % length pool.order))
unfolding acquire_next_locked
acquire-free pool other {cfg} {pool'} e =
    let (i, u, c, p) = loop_some (length pool.order) 0 pool e in
    let tap = device_at pool.order i in
    (i, (u, c, ground (arith, p, get-put pool.in_use tap other true), ground (arith, p)))

-- A lease on a device of the pool that is released frees its device and no other; a second release
-- of the same lease, after whatever happened to the pool in between, frees nothing.
pub release_lease_once :
    (lease : NetworkLease) (pool later : NetworkPool) (other : String) (b : Bool)
    → lease.released ≡ false
    → str_eq (trim_space lease.cfg.tap_device) "" ≡ false
    → get pool.in_use (trim_space lease.cfg.tap_device) ≡ some b
    → let (released, pool') = release_lease lease pool in
      (used pool'.in_use other ≡ (
        if str_eq (trim_space lease.cfg.tap_device) other then false else used pool.in_use other))
      × (release_lease released later ≡ (released, later))
unfolding release_lease release
release_lease_once lease pool later other b h k g = (
  ground (arith, h, k, g, get-put pool.in_use (trim_space lease.cfg.tap_device) other false),
  ground (arith, h, k, g),
)

-- The steps from the next device to a given one, round the order.
steps : ℕ → ℕ → ℕ → ℕ
steps next i n = if leb next i then i - next else i + n - next

steps-mod :
    (next i n : ℕ) → next < n → i < n → (steps next i n < n) × ((next + steps next i n) % n ≡ i)
unfolding steps
steps-mod next i n p q = elim (Bool-cases (leb next i)) [
  | inl t ↦ (ground arith, ap (λ k. k % n) (ground arith) ∙ mod-eq_of_lt q)
  | inr t ↦
      (ground arith, ap (λ k. k % n) (ground arith) ∙ add-mul-mod_self_right i 1 n ∙ mod-eq_of_lt q)
]

-- If the position at which the search begins is within the order and no device is acquired, all
-- devices of the order are taken.
acquire-none :
    (pool : NetworkPool) (i : ℕ)
    → pool.next < length pool.order
    → i < length pool.order
    → acquire_next_locked pool ≡ none
    → used pool.in_use (device_at pool.order i) ≡ true
unfolding acquire_next_locked
acquire-none pool i p q e =
    let n = length pool.order in
    let s = steps-mod pool.next i n p q in
    subst (λ k. used pool.in_use (device_at pool.order k) ≡ true) s.1
      (loop_none n 0 (steps pool.next i n) pool e (omega arith) (omega (arith, s.0)))
