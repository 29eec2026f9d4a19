-- ===== src/Coordinator/Hosts/Loss.antt =====
-- What is left of a host whose stream ended.
use lecrev.Prelude.{String, ◌≡◌, none, some, arith, eq_refl, str_eq, if◌then◌else◌}
use lecrev.Maps.{get, get-put, get-remove}
use lecrev.Errors.{ok}
use lecrev.Domain.{Time}
use lecrev.Store.Hosts.{replace_warm_pools_for_host}
use lecrev.Store.Backend.{World, memory}
use lecrev.Coordinator.Service.{Session}
use lecrev.Coordinator.Node.{Node, mirror_quietly, persist_region}
use lecrev.Coordinator.Hosts.{down_host, mark_host_down}

-- A host that is marked down has no session any more, so that nothing is placed on it; the other
-- sessions stay, and the stored host is down and offers nothing.
mark_down-gone :
    {W : Type 0} (id other : String) (now : Time) (n : Node (World W)) (session : Session)
    → get n.self.hosts id ≡ some session
    → let r = mark_host_down memory id now n in
      (r.0 ≡ ok tt)
      × (get r.1.self.hosts other ≡ (if str_eq id other then none else get n.self.hosts other))
      × (get r.1.shared.store.hosts session.host.id ≡ some (down_host session.host))
unfolding mark_host_down mirror_quietly persist_region memory replace_warm_pools_for_host
mark_down-gone id other now n session h = ground (
  arith,
  h,
  get-remove n.self.hosts id other,
  get-put n.shared.store.hosts session.host.id session.host.id (down_host session.host),
  eq_refl session.host.id,
)
