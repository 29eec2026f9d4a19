-- ===== src/Coordinator/Node.antt =====
-- The coordinator beside the store that it shares with the other components, and the steps that
-- its methods are made of: reads and writes of its own sessions, and calls of the store.
use lecrev.Prelude.{String, Option, List, []}
use lecrev.Maps.{get, put, remove}
use lecrev.Errors.{ok, Exec, outcome, ◌>>=◌, ◌>>◌, pure}
use lecrev.Domain.{Time, Host, WarmPool}
use lecrev.Store.Backend.{Backend}
use lecrev.Coordinator.Service.{Coordinator, Session, Waiter, AssignmentUpdate}
use lecrev.Coordinator.Capacity.{region_snapshot}

pub record Node (S : Type 0) : Type 0 where
  pub self : Coordinator
  pub shared : S

module _ {S : Type 0} where
  abbrev pub on_shared {ℓ} : {A : Type ℓ} → Exec S A → Exec (Node S) A
  on_shared m n = let (r, s) = m n.shared in (r, record n { shared = s })

  -- `session, ok := s.hosts[id]`.
  abbrev pub session_of : String → Exec (Node S) (Option Session)
  session_of id n = (ok (get n.self.hosts id), n)

  abbrev pub set_session : String → Session → Exec (Node S) (Unit {0})
  set_session id session n =
      (ok tt, record n { self = record n.self { hosts = put n.self.hosts id session } })

  abbrev pub drop_session : String → Exec (Node S) (Unit {0})
  drop_session id n = (ok tt, record n { self = record n.self { hosts = remove n.self.hosts id } })

  abbrev pub set_waiter : String → Waiter → Exec (Node S) (Unit {0})
  set_waiter id w n =
      (ok tt, record n { self = record n.self { direct_invokes = put n.self.direct_invokes id w } })

  abbrev pub drop_waiter : String → Exec (Node S) (Unit {0})
  drop_waiter id n = (
    ok tt,
    record n { self = record n.self { direct_invokes = remove n.self.direct_invokes id } },
  )

  -- A direct invocation's channel, made empty, and written.
  abbrev pub set_channel : String → List AssignmentUpdate → Exec (Node S) (Unit {0})
  set_channel id updates n =
      (ok tt, record n { self = record n.self { channels = put n.self.channels id updates } })

  abbrev pub set_blocked : String → List AssignmentUpdate → Exec (Node S) (Unit {0})
  set_blocked id updates n =
      (ok tt, record n { self = record n.self { blocked = put n.self.blocked id updates } })

  -- What waits for the earlier channel of the same attempt does not wait for this one.
  abbrev pub open_channel : String → Exec (Node S) (Unit {0})
  open_channel id n = (
    ok tt,
    record n {
      self = record n.self {
        channels = put n.self.channels id [];
        blocked = put n.self.blocked id [];
      };
    },
  )

module _ {S : Type 0} (db : Backend S) where
  -- persistRegion, persistRegionLocked.
  unfoldable pub persist_region : Time → Exec (Node S) (Unit {0})
  unfolding region_snapshot
  persist_region now n = on_shared (db.put_region (region_snapshot n.self now)) n

  -- The host, its warm pools and the region, each written though another failed: the writes whose
  -- errors the code drops.
  unfoldable pub mirror_quietly : Host → List WarmPool → Time → Exec (Node S) (Unit {0})
  unfolding persist_region
  mirror_quietly host pools now = do
    _ ← outcome (on_shared (db.update_host host))
    _ ← outcome (on_shared (db.replace_warm_pools_for_host host.region host.id pools))
    _ ← outcome (persist_region now)
    pure tt

  -- The same writes where the first error ends them.
  unfoldable pub mirror : Host → List WarmPool → Time → Exec (Node S) (Unit {0})
  unfolding persist_region
  mirror host pools now = do
    on_shared (db.update_host host)
    on_shared (db.replace_warm_pools_for_host host.region host.id pools)
    persist_region now
