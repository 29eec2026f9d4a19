-- ===== src/Tests/Coordinator.antt =====
-- The theorems of the coordinator at concrete inputs.
use lecrev.Prelude.{
  ◌≡◌, ◌↔◌, ◌+◌, ◌≤◌, suc, length, arith, refl, true, false, none, some, [], ◌∷◌, All, In, str_eq,
  ltb, if◌then◌else◌,
}
use lecrev.Prelude.Int.{pos, ◌-ℤ◌, ◌+ℤ◌, ◌*ℤ◌}
use lecrev.Maps.{get, put, values}
use lecrev.Sorting.{sort_stable}
use lecrev.Errors.{ok, err, no_active_hosts, not_found}
use lecrev.Domain.{Assignment, ExecutionJob, JobState, NetworkPolicy, StartMode, wants_full_network}
use lecrev.Store.Backend.{memory}
use lecrev.Scheduler.Dispatch.{new_attempt}
use lecrev.Scheduler.Admission.{retry_execution}
use lecrev.Scheduler.Admission.Quota.{with_memory}
use lecrev.Coordinator.{AssignmentState, Session, classify_start_mode, count_of}
use lecrev.Coordinator.Node.{Node}
use lecrev.Coordinator.Reserve.{can_take, reserve, restore, pick_host, score}
use lecrev.Coordinator.Reserve.Slots.{restore-reserve}
use lecrev.Coordinator.Reserve.Pick.{NoBetter, pick_host-best, pick_host-none}
use lecrev.Coordinator.Assign.{assign_execution}
use lecrev.Coordinator.Assign.Leak.{assign_leaks}
use lecrev.Coordinator.Updates.{handle_assignment_update, is_terminal, apply_update}
use lecrev.Coordinator.Wait.{Rounds, await_update}
use lecrev.Coordinator.Wait.Delivered.{Delivers, direct-final, buffered, waiting}
use lecrev.Coordinator.Updates.Budget.{retry-within-budget}
use lecrev.Tests.Data.{
  coordinator, session, World0, assignment, busy, host, job, node, svc, update, version, world,
}

restore-reserve_example :
    let mode = classify_start_mode (host "h1" (pos 1)) "fv" in
    let back =
      restore NetworkPolicy.full mode "fv"
        (reserve NetworkPolicy.full mode "fv" (host "h1" (pos 1))) in
    (back.available_slots ≡ pos 1)
    × (back.available_full_network_slots ≡ pos 0)
    × (back.blank_warm ≡ pos 1)
    × (count_of back.function_warm "fv" ≡ count_of (("fv", pos 1) ∷ []) "fv")
restore-reserve_example = restore-reserve NetworkPolicy.full "fv" (host "h1" (pos 1)) "fv"

abbrev picked : Node World0
picked = (pick_host memory assignment 500 node).1

picks : pick_host memory assignment 500 node ≡ (ok ("h2", StartMode.function_warm), picked)
unfolding pick_host classify_start_mode memory get put sort_stable score ◌+ℤ◌ ◌*ℤ◌
picks = refl

pick_host-best_example :
    (s : Session) × In ("h2", s) node.self.hosts
    × (can_take NetworkPolicy.no_network s.host ≡ true)
    × NoBetter (score "fv") NetworkPolicy.no_network s.host node.self.hosts
    × (StartMode.function_warm ≡ classify_start_mode s.host "fv")
    × (get picked.self.hosts "h1" ≡ (
        if str_eq "h2" "h1"
        then some (record s {
          host = reserve NetworkPolicy.no_network StartMode.function_warm "fv" s.host;
        })
        else get node.self.hosts "h1"))
pick_host-best_example = pick_host-best memory assignment 500 node "h1" picks

pick_host-none_example :
    (pick_host memory assignment 500 node ≡ (err (no_active_hosts "ap-south-1"), node))
    ↔ All (λ e. can_take NetworkPolicy.no_network e.1.host ≡ false) node.self.hosts
pick_host-none_example = pick_host-none memory assignment 500 node

no_attempt : get picked.shared.store.attempts "a2" ≡ none
unfolding pick_host memory get put sort_stable score ◌+ℤ◌ ◌*ℤ◌
no_attempt = refl

assign_leaks_example :
    let r = assign_execution memory assignment false 500 node in
    (r.0 ≡ err (not_found "attempt" "a2"))
    × ((before : Session) × (after : Session) × In ("h2", before) node.self.hosts
        × (get r.1.self.hosts "h2" ≡ some after)
        × (after.host.available_slots ≡ before.host.available_slots -ℤ pos 1)
        × (after.host.available_full_network_slots ≡ (
            if wants_full_network NetworkPolicy.no_network
            then before.host.available_full_network_slots -ℤ pos 1
            else before.host.available_full_network_slots)))
assign_leaks_example = assign_leaks assignment false 500 node picks no_attempt

waits : get node.self.direct_invokes "a1" ≡ some (record { canceled = false })
unfolding get
waits = refl

abbrev direct : Assignment
direct = record assignment { attempt_id = "a1" }

none_waiting : waiting node direct ≡ []
unfolding get
none_waiting = refl

none_buffered : All (λ u. is_terminal u.state ≡ false) (buffered node direct)
unfolding get
none_buffered = tt

short : suc (length (buffered node direct)) ≤ 1
unfolding get
short = omega arith

abbrev rounds : Rounds
rounds = record { ends = λ k. false; on_event = λ k b. none; now = λ k. 700 + k }

direct-final_example :
    let after =
      (handle_assignment_update memory (update "a1" "d" AssignmentState.failed) 500 node).1 in
    (get after.self.direct_invokes "a1" ≡ none)
    × Delivers
        (update "a1" "d" AssignmentState.failed)
        (await_update memory rounds direct StartMode.cold 400 1 0 400 after).0
direct-final_example =
    direct-final memory rounds direct StartMode.cold 400 (λ k. refl) (λ k b. refl)
      (update "a1" "d" AssignmentState.failed) 500 node (record { canceled = false }) 1 0 400 refl
      waits refl refl none_waiting none_buffered short

abbrev attempted : Node World0
attempted = record node {
  shared = record world {
    store = record busy {
      attempts = ("a2", new_attempt (job "a" JobState.running 300) version "r" "a2" 400) ∷ [];
    };
  };
}

abbrev failed : Node World0
failed = (apply_update memory (update "a2" "a" AssignmentState.failed) 500 attempted).1

starts_retry :
    apply_update memory (update "a2" "a" AssignmentState.failed) 500 attempted
    ≡ (ok (some "a"), failed)
unfolding apply_update memory get put
starts_retry = refl

retry-within-budget_example :
    (j : ExecutionJob) × (get failed.shared.store.execution_jobs "a" ≡ some j)
    × (j.state ≡ JobState.retrying)
    × (ltb j.max_retries j.attempt_count ≡ false)
    × ((retry_execution (with_memory svc) "a" 600 failed.shared).0
        ≡ ok (record j { error = ""; target_region = ""; updated_at = 600 }))
retry-within-budget_example =
    retry-within-budget svc (update "a2" "a" AssignmentState.failed) 500 600 attempted starts_retry

hosts_here : All (λ s. str_eq s.host.region "ap-south-1" ≡ true) (values coordinator.hosts)
unfolding values
hosts_here = (refl, (refl, tt))

has_h1 : get node.self.hosts "h1" ≡ some (session "h1" (pos 1))
unfolding get
has_h1 = refl
