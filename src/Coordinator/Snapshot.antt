-- ===== src/Coordinator/Snapshot.antt =====
-- The region snapshot of persistRegion against Stats.
use lecrev.Prelude.{String, ◌≡◌, refl, true, List, [], ◌∷◌, All, arith, str_eq, if◌then◌else◌}
use lecrev.Maps.{values}
use lecrev.Domain.{Time}
use lecrev.Coordinator.Service.{Coordinator, Session}
use lecrev.Coordinator.Capacity.{any_active, in_region, region_snapshot, stats}

select-region :
    (region : String) (sessions : List Session)
    → All (λ s. str_eq s.host.region region ≡ true) sessions
    → in_region region sessions ≡ sessions
unfolding in_region
select-region region [] h = refl
select-region region (s ∷ sessions) h = ground (arith, h.0, select-region region sessions h.1)

-- Where all connected hosts are in the coordinator's region, the snapshot that it stores carries
-- the numbers that Stats gives to the scheduler, and the region is degraded exactly where no host
-- is active.
snapshot-stats :
    (c : Coordinator) (now : Time)
    → All (λ s. str_eq s.host.region c.region ≡ true) (values c.hosts)
    → let r = region_snapshot c now in
      let totals = stats c in
      (r.available_hosts ≡ totals.available_hosts)
      × (r.available_full_network_slots ≡ totals.available_full_network_slots)
      × (r.blank_warm ≡ totals.blank_warm)
      × (r.function_warm ≡ totals.function_warm)
      × (r.state ≡ (if any_active (values c.hosts) then "active" else "degraded"))
unfolding region_snapshot stats
snapshot-stats c now h = let e = select-region c.region (values c.hosts) h in ground (arith, e)
