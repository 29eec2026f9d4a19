-- ===== src/Coordinator/Capacity.antt =====
-- internal/coordinator/service.go: the pure helpers over a host's capacity, and Stats.
use lecrev.Prelude.{
  String, Bool, false, not, ◌||◌, Option, none, some, List, [], ◌∷◌, str_eq, ltb, ◌==◌,
  if◌then◌else◌,
}
use mathlib.Core.List.{map, ◌++◌}
use lecrev.Prelude.Int.{ℤ, pos, ◌+ℤ◌, ltb_ℤ}
use lecrev.Prelude.Text.{str_ltb}
use lecrev.Maps.{Assoc, get, put, values}
use lecrev.Sorting.{sort_stable}
use lecrev.Domain.{Time, Host, Region, RegionStats, StartMode, WarmPool, host_is_active}
use lecrev.Coordinator.Service.{Session, Coordinator}

-- `x > 0` on a signed count.
abbrev pub positive : ℤ → Bool
positive a = ltb_ℤ (pos 0) a

abbrev pub count_or_zero : Option ℤ → ℤ
count_or_zero none = pos 0
count_or_zero (some n) = n

-- m[k] on a map of counts: zero for a key that is not there.
abbrev pub count_of : Assoc ℤ → String → ℤ
count_of m k = count_or_zero (get m k)

-- func warmMap: later metrics of one function overwrite earlier ones.
unfoldable pub warm_map_from : List (String × ℤ) → Assoc ℤ → Assoc ℤ
warm_map_from [] m = m
warm_map_from ((id, available) ∷ metrics) m = warm_map_from metrics (put m id available)

abbrev pub warm_map : List (String × ℤ) → Assoc ℤ
warm_map metrics = warm_map_from metrics []

-- func startTimeOr.
abbrev pub start_time_or : Time → Time → Time
start_time_or fallback started_at = if started_at == 0 then fallback else started_at

-- func classifyStartMode.
unfoldable pub classify_start_mode : Host → String → StartMode
classify_start_mode host function_version_id =
    if positive (count_of host.function_warm function_version_id)
    then StartMode.function_warm
    else if positive host.blank_warm
    then StartMode.blank_warm
    else StartMode.cold

unfoldable pub sum_counts : Assoc ℤ → ℤ
sum_counts [] = pos 0
sum_counts ((id, n) ∷ m) = n +ℤ sum_counts m

unfoldable pub warm_ids : Assoc ℤ → List String
warm_ids [] = []
warm_ids ((id, n) ∷ m) = let rest = warm_ids m in if positive n then id ∷ rest else rest

abbrev blank_pool : Host → Time → WarmPool
blank_pool host updated_at = record {
  region = host.region;
  host_id = host.id;
  function_version_id = "";
  blank_warm = host.blank_warm;
  function_warm = pos 0;
  updated_at = updated_at;
}

abbrev function_pool : Host → Time → String → WarmPool
function_pool host updated_at id = record {
  region = host.region;
  host_id = host.id;
  function_version_id = id;
  blank_warm = pos 0;
  function_warm = count_of host.function_warm id;
  updated_at = updated_at;
}

-- func warmPoolsForHost.
unfoldable pub warm_pools_for_host : Host → Time → List WarmPool
unfolding warm_ids
warm_pools_for_host host updated_at =
    if not (host_is_active host.state)
    then []
    else (if positive host.blank_warm then blank_pool host updated_at ∷ [] else [])
      ++ map (function_pool host updated_at) (sort_stable str_ltb (warm_ids host.function_warm))

abbrev pub no_stats : RegionStats
no_stats = record {
  available_hosts = pos 0;
  available_full_network_slots = pos 0;
  blank_warm = pos 0;
  function_warm = pos 0;
}

-- One active host's share of a region's totals.
abbrev pub add_host : Host → RegionStats → RegionStats
add_host host stats = record {
  available_hosts =
      if positive host.available_slots
      then pos 1 +ℤ stats.available_hosts
      else stats.available_hosts;
  available_full_network_slots =
      host.available_full_network_slots +ℤ stats.available_full_network_slots;
  blank_warm = host.blank_warm +ℤ stats.blank_warm;
  function_warm = sum_counts host.function_warm +ℤ stats.function_warm;
}

unfoldable pub total_stats : List Session → RegionStats
unfolding sum_counts
total_stats [] = no_stats
total_stats (s ∷ sessions) =
    let rest = total_stats sessions in
    if host_is_active s.host.state then add_host s.host rest else rest

-- func (s *Service) Stats.
unfoldable pub stats : Coordinator → RegionStats
unfolding total_stats
stats c = total_stats (values c.hosts)

unfoldable pub in_region : String → List Session → List Session
in_region region [] = []
in_region region (s ∷ sessions) =
    let rest = in_region region sessions in if str_eq s.host.region region then s ∷ rest else rest

unfoldable pub latest_heartbeat : List Session → Time
latest_heartbeat [] = 0
latest_heartbeat (s ∷ sessions) =
    let rest = latest_heartbeat sessions in
    if ltb rest s.host.last_heartbeat then s.host.last_heartbeat else rest

unfoldable pub any_active : List Session → Bool
any_active [] = false
any_active (s ∷ sessions) = host_is_active s.host.state || any_active sessions

-- The snapshot that persistRegionLocked writes.
unfoldable pub region_snapshot : Coordinator → Time → Region
unfolding in_region latest_heartbeat any_active total_stats
region_snapshot c now =
    let sessions = in_region c.region (values c.hosts) in
    let totals = total_stats sessions in
    let heartbeat = latest_heartbeat sessions in
    let connected = any_active sessions in
    record {
      name = c.region;
      state = if connected then "active" else "degraded";
      available_hosts = totals.available_hosts;
      available_full_network_slots = totals.available_full_network_slots;
      blank_warm = totals.blank_warm;
      function_warm = totals.function_warm;
      last_heartbeat_at = if heartbeat == 0 then now else heartbeat;
      last_error = if connected then "" else "no active hosts connected";
    }
