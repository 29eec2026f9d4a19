-- ===== src/Coordinator/Assign/Leak.antt =====
-- An assignment that fails on its attempt record keeps the slot it reserved.
use lecrev.Prelude.{String, ◌≡◌, refl, Bool, none, some, In, arith, eq_refl, if◌then◌else◌}
use lecrev.Maps.{get}
use lecrev.Errors.{ok, err, not_found}
use lecrev.Prelude.Int.{pos, ◌-ℤ◌}
use lecrev.Domain.{Assignment, StartMode, Time, wants_full_network}
use lecrev.Store.Backend.{World, memory}
use lecrev.Coordinator.{Session}
use lecrev.Coordinator.Node.{Node}
use lecrev.Coordinator.Reserve.{reserve, pick_host}
use lecrev.Coordinator.Reserve.Pick.{pick_host-best}
use lecrev.Coordinator.Assign.{assign_execution}

-- If a host is picked and the store has no record of the attempt, the assignment fails, and the
-- host is left with one slot less than it had before the call, and with one slot of the full
-- network less if the assignment wants that network.
pub assign_leaks :
    {W : Type 0} (a : Assignment) (ctx_done : Bool) (now : Time) (n : Node (World W)) {id : String}
    {mode : StartMode} {n' : Node (World W)}
    → pick_host memory a now n ≡ (ok (id, mode), n')
    → get n'.shared.store.attempts a.attempt_id ≡ none
    → let r = assign_execution memory a ctx_done now n in
      (r.0 ≡ err (not_found "attempt" a.attempt_id))
      × ((before : Session) × (after : Session) × In (id, before) n.self.hosts
          × (get r.1.self.hosts id ≡ some after)
          × (after.host.available_slots ≡ before.host.available_slots -ℤ pos 1)
          × (after.host.available_full_network_slots ≡ (
              if wants_full_network a.network_policy
              then before.host.available_full_network_slots -ℤ pos 1
              else before.host.available_full_network_slots)))
unfolding assign_execution memory reserve
assign_leaks a ctx_done now n {id} {mode} {n'} e h =
    let (session, i, t, b, m, s) = pick_host-best memory a now n id e in
    let after : Session = record session {
      host = reserve a.network_policy mode a.function_version_id session.host;
    } in
    (
      ground (arith, e, h),
      (
        session,
        after,
        i,
        ground (arith, e, h, s, eq_refl id),
        taken mode session,
        taken_full mode session,
      ),
    )
  where
    taken :
        (m : StartMode) (s : Session)
        → (reserve a.network_policy m a.function_version_id s.host).available_slots
          ≡ s.host.available_slots -ℤ pos 1
    taken StartMode.function_warm s = ground arith
    taken StartMode.blank_warm s = ground arith
    taken StartMode.cold s = refl
    taken StartMode.unset s = refl

    taken_full :
        (m : StartMode) (s : Session)
        → (reserve a.network_policy m a.function_version_id s.host).available_full_network_slots ≡ (
            if wants_full_network a.network_policy
            then s.host.available_full_network_slots -ℤ pos 1
            else s.host.available_full_network_slots)
    taken_full StartMode.function_warm s = ground arith
    taken_full StartMode.blank_warm s = ground arith
    taken_full StartMode.cold s = refl
    taken_full StartMode.unset s = refl
