-- ===== src/Coordinator/Reserve.antt =====
-- internal/coordinator/service.go: pickHost and pickWarmHost, which reserve a slot on a host, and
-- the methods that give a reservation back.
pub mod Slots
pub mod Pick
use Prim.Native.String.{◌++◌}
use lecrev.Prelude.{
  String, Bool, true, false, not, ◌&&◌, ◌||◌, Option, none, some, List, [], ◌∷◌, select,
  if◌then◌else◌,
}
use lecrev.Prelude.Int.{ℤ, pos, ◌+ℤ◌, ◌-ℤ◌, ◌*ℤ◌, ltb_ℤ}
use lecrev.Maps.{Assoc, put}
use lecrev.Sorting.{sort_stable}
use lecrev.Errors.{Exec, outcome, pure, raise, ◌>>=◌, ◌>>◌, other, no_active_hosts}
use lecrev.Domain.{
  Time, Assignment, Host, NetworkPolicy, StartMode, host_is_active, wants_full_network,
}
use lecrev.Store.Backend.{Backend}
use lecrev.Coordinator.Service.{Session}
use lecrev.Coordinator.Capacity.{positive, count_of, classify_start_mode, warm_pools_for_host}
use lecrev.Coordinator.Node.{
  Node, on_shared, session_of, set_session, persist_region, mirror_quietly,
}

-- A host that may take one more execution under the policy.
abbrev pub can_take : NetworkPolicy → Host → Bool
can_take policy host =
    host_is_active host.state
    && positive host.available_slots
    && (not (wants_full_network policy) || positive host.available_full_network_slots)

unfoldable pub score : String → Host → ℤ
score function_version_id host =
    count_of host.function_warm function_version_id *ℤ pos 1000
    +ℤ host.blank_warm *ℤ pos 100
    +ℤ host.available_slots

unfoldable pub warm_score : Host → ℤ
warm_score host = host.blank_warm *ℤ pos 100 +ℤ host.available_slots

-- The hosts that can take the execution, the highest score first.
unfoldable pub host_candidates :
    (Host → ℤ) → NetworkPolicy → Assoc Session → List (String × Session)
host_candidates rate policy hosts =
    sort_stable (λ a b. ltb_ℤ (rate b.1.host) (rate a.1.host))
      (select (λ e. can_take policy e.1.host) hosts)

abbrev pub take_full : NetworkPolicy → ℤ → ℤ
take_full policy n = if wants_full_network policy then n -ℤ pos 1 else n

abbrev pub give_full : NetworkPolicy → ℤ → ℤ
give_full policy n = if wants_full_network policy then n +ℤ pos 1 else n

abbrev take_slot : NetworkPolicy → Host → Host
take_slot policy host = record host {
  available_slots = host.available_slots -ℤ pos 1;
  available_full_network_slots = take_full policy host.available_full_network_slots;
}

abbrev give_slot : NetworkPolicy → Host → Host
give_slot policy host = record host {
  available_slots = host.available_slots +ℤ pos 1;
  available_full_network_slots = give_full policy host.available_full_network_slots;
}

abbrev take_warm : StartMode → String → Host → Host
take_warm StartMode.function_warm id host =
    if positive (count_of host.function_warm id)
    then record host {
      function_warm = put host.function_warm id (count_of host.function_warm id -ℤ pos 1);
    }
    else host
take_warm StartMode.blank_warm id host =
    if positive host.blank_warm then record host { blank_warm = host.blank_warm -ℤ pos 1 } else host
take_warm _ id host = host

abbrev give_warm : StartMode → String → Host → Host
give_warm StartMode.function_warm id host = record host {
  function_warm = put host.function_warm id (count_of host.function_warm id +ℤ pos 1);
}
give_warm StartMode.blank_warm id host = record host { blank_warm = host.blank_warm +ℤ pos 1 }
give_warm _ id host = host

-- What pickHost takes from the chosen host.
unfoldable pub reserve : NetworkPolicy → StartMode → String → Host → Host
reserve policy mode id host = take_warm mode id (take_slot policy host)

-- What restoreHostReservation gives back.
unfoldable pub restore : NetworkPolicy → StartMode → String → Host → Host
restore policy mode id host = give_warm mode id (give_slot policy host)

module _ {S : Type 0} (db : Backend S) where
  abbrev set_host : String → Session → Host → Time → Exec (Node S) (Unit {0})
  set_host id session host now = do
    set_session id (record session { host = host })
    mirror_quietly db host (warm_pools_for_host host now) now

  abbrev reserve_first :
      String
      → NetworkPolicy
      → String
      → Time
      → List (String × Session)
      → Exec (Node S) (String × StartMode)
  reserve_first region policy function_version_id now [] = raise (no_active_hosts region)
  reserve_first region policy function_version_id now ((id, session) ∷ rest) =
      let mode = classify_start_mode session.host function_version_id in
      do
        set_host id session (reserve policy mode function_version_id session.host) now
        pure (id, mode)

  -- func (s *Service) pickHost: the host's id and the start mode; the session is the one under the id.
  unfoldable pub pick_host : Assignment → Time → Exec (Node S) (String × StartMode)
  unfolding host_candidates reserve mirror_quietly
  pick_host a now n =
      reserve_first n.self.region a.network_policy a.function_version_id now
        (host_candidates (score a.function_version_id) a.network_policy n.self.hosts) n

  -- The first active host that holds the function warm.
  unfoldable pub warm_host : String → Assoc Session → Option String
  warm_host function_version_id [] = none
  warm_host function_version_id ((id, session) ∷ hosts) =
      if host_is_active session.host.state
        && positive (count_of session.host.function_warm function_version_id)
      then some id
      else warm_host function_version_id hosts

  abbrev reserve_preparation :
      String → NetworkPolicy → Time → List (String × Session) → Exec (Node S) (String × Bool)
  reserve_preparation region policy now [] =
      raise
        (other ("no active hosts available in region " ++ (region ++ " for function warm prep")))
  reserve_preparation region policy now ((id, session) ∷ rest) = do
    set_host id session (take_slot policy session.host) now
    pure (id, false)

  -- func (s *Service) pickWarmHost: the host's id, and whether it is warm already.
  unfoldable pub pick_warm_host : String → NetworkPolicy → Time → Exec (Node S) (String × Bool)
  unfolding host_candidates warm_host mirror_quietly
  pick_warm_host function_version_id policy now n =
      elim (warm_host function_version_id n.self.hosts) [
        | some id ↦ pure (id, true) n
        | none ↦
            reserve_preparation n.self.region policy now
              (host_candidates warm_score policy n.self.hosts) n
      ]

  abbrev restored :
      String → NetworkPolicy → StartMode → String → Time → Option Session → Exec (Node S) (Unit {0})
  restored id policy mode function_version_id now none = pure tt
  restored id policy mode function_version_id now (some session) =
      set_host id session (restore policy mode function_version_id session.host) now

  unfoldable pub restore_host_reservation :
      String → String → StartMode → NetworkPolicy → Time → Exec (Node S) (Unit {0})
  unfolding restore mirror_quietly
  restore_host_reservation id function_version_id mode policy now = do
    session ← session_of id
    restored id policy mode function_version_id now session

  abbrev preparation_restored :
      String → NetworkPolicy → Time → Option Session → Exec (Node S) (Unit {0})
  preparation_restored id policy now none = pure tt
  preparation_restored id policy now (some session) =
      set_host id session (give_slot policy session.host) now

  unfoldable pub restore_preparation_reservation :
      String → NetworkPolicy → Time → Exec (Node S) (Unit {0})
  unfolding mirror_quietly
  restore_preparation_reservation id policy now = do
    session ← session_of id
    preparation_restored id policy now session

  abbrev released : String → NetworkPolicy → Time → Option Session → Exec (Node S) (Unit {0})
  released id policy now none = pure tt
  released id policy now (some session) =
      let host =
        if host_is_active session.host.state then give_slot policy session.host else session.host in
      do
        set_session id (record session { host = host })
        _ ← outcome (on_shared (db.update_host host))
        _ ← outcome (persist_region db now)
        pure tt

  unfoldable pub release_host_slot : String → NetworkPolicy → Time → Exec (Node S) (Unit {0})
  unfolding persist_region
  release_host_slot id policy now = do session ← session_of id; released id policy now session
