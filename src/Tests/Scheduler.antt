-- ===== src/Tests/Scheduler.antt =====
-- The theorems of the scheduler at concrete inputs.
use lecrev.Prelude.{◌≡◌, ◌≢◌, refl, ◌≤◌, true, false, none, some, [], ◌∷◌, arith}
use lecrev.Maps.{get, count_if, put, values}
use lecrev.Sorting.{IsSorted, sort_stable}
use lecrev.Errors.{ok}
use lecrev.Domain.{ExecutionJob, JobState}
use lecrev.Store.Backend.{memory}
use lecrev.Scheduler.{Service}
use lecrev.Scheduler.Admission.{
  enqueue_execution, enforce_execution_quota, dispatch_execution_idempotent, queued_job,
}
use lecrev.Scheduler.Admission.Quota.{with_memory, active_count, enqueue-quota}
use lecrev.Scheduler.Admission.Replay.{dispatch_twice}
use lecrev.Scheduler.Rank.{Candidate, rank_dispatchers, ranks_before}
use lecrev.Scheduler.Rank.Order.{rank_dispatchers-IsSorted}
use lecrev.Scheduler.Dispatch.{dispatch_job_attempt, schedule_next}
use lecrev.Scheduler.Dispatch.Round.{HasLeft, round_settles, waiting_states}
use lecrev.Store.{Store}
use lecrev.Store.Jobs.{claim_before, claim_loop, claim_next_execution_job}
use lecrev.Scheduler.Dispatch.Outcome.{Settled, dispatch-Settled}
use lecrev.Coordinator.{no_stats}
use lecrev.Tests.Data.{busy, World0, world, svc, env, queued, version, job, welcoming}

abbrev enqueued : World0
enqueued = (enqueue_execution (with_memory svc) version [] 500 "j1" world).1

admits : enqueue_execution (with_memory svc) version [] 500 "j1" world ≡ (ok queued, enqueued)
unfolding enqueue_execution enforce_execution_quota memory count_if
admits = refl

enqueue-quota_example :
    (queued ≡ queued_job version [] 500 "j1")
    × (get enqueued.store.execution_jobs "j1" ≡ some queued)
    × (active_count "demo" enqueued ≤ 4)
enqueue-quota_example = enqueue-quota svc version [] 500 "j1" world refl admits

-- The same service with room for three executions, all of them taken.
abbrev full : Service World0
full = record svc { max_active_execution_jobs_per_project = 3 }

three : 3 ≤ active_count "demo" world
unfolding count_if
three = omega arith

abbrev dispatched : World0
dispatched = (dispatch_execution_idempotent (with_memory svc) "fv" [] "key" env world).1

abbrev keyed : ExecutionJob
keyed = queued_job version [] 501 "u0"

first_dispatch :
    dispatch_execution_idempotent (with_memory svc) "fv" [] "key" env world ≡ (ok keyed, dispatched)
unfolding dispatch_execution_idempotent enqueue_execution enforce_execution_quota memory count_if
    get put
first_dispatch = refl

dispatch_twice_example :
    dispatch_execution_idempotent (with_memory svc) "fv" [] "key" env dispatched
    ≡ (ok keyed, dispatched)
dispatch_twice_example = dispatch_twice svc "fv" "key" [] env env world refl refl first_dispatch

dispatch-Settled_example :
    let r =
      dispatch_job_attempt (with_memory svc) version (job "a" JobState.scheduling 300) env world in
    Settled (job "a" JobState.scheduling 300) r.0 r.1
dispatch-Settled_example = dispatch-Settled svc version (job "a" JobState.scheduling 300) env world

-- The version's one region, assessed without a snapshot of it.
abbrev only : Candidate World0
only = record {
  region = "ap-south-1";
  dispatcher = welcoming;
  stats = no_stats;
  backlog = 0;
  healthy = true;
  artifact_local = false;
  last_heartbeat = 0;
}

ranks : rank_dispatchers (with_memory svc) version env.rank_now world ≡ (ok (only ∷ []), world)
unfolding rank_dispatchers memory count_if get sort_stable
ranks = refl

rank_dispatchers-IsSorted_example : ((only ∷ []) ≢ []) × IsSorted ranks_before (only ∷ [])
rank_dispatchers-IsSorted_example =
    rank_dispatchers-IsSorted (with_memory svc) version env.rank_now world ranks

-- The job that a round claims, and the store after the claim.
abbrev claimed : ExecutionJob
claimed = record (job "b" JobState.retrying 200) { state = JobState.scheduling; updated_at = 400 }

abbrev after_claim : Store
after_claim = record busy { execution_jobs = put busy.execution_jobs "b" claimed }

claims :
    claim_next_execution_job waiting_states JobState.scheduling 400 world.store
    ≡ (ok claimed, after_claim)
unfolding claim_next_execution_job claim_loop claim_before values put
claims = refl

finds_version : get after_claim.functions "fv" ≡ some version
unfolding get
finds_version = refl

lacks_artifact : get after_claim.artifacts "sha" ≡ none
unfolding get
lacks_artifact = refl

round_settles_example :
    (after : ExecutionJob) × (get
        (schedule_next (with_memory svc) 400 401 env world).1.store.execution_jobs
        "b"
      ≡ some after)
    × HasLeft after.state
round_settles_example = round_settles svc 400 401 env world claimed after_claim claims
