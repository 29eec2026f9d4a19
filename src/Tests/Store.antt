-- ===== src/Tests/Store.antt =====
-- The theorems of the store at concrete inputs.
use mathlib.Core.Option
use lecrev.Prelude.{◌≡◌, ◌≢◌, refl, true, some, List, [], ◌∷◌, arith, In, eq_iff}
use lecrev.Maps.Keyed.{IsKeyed}
use lecrev.Maps.{get, put, values, count_if}
use lecrev.Errors.{ok}
use lecrev.Domain.{ExecutionJob, JobState, IdempotencyRecord, Project, allows}
use lecrev.Store.{Store, empty}
use lecrev.Store.Jobs.{
  claim_next_execution_job, claim_loop, claim_before, requeue_stale_execution_jobs,
}
use lecrev.Store.Jobs.Claim.{claim_next-least, claimed_job, NoneBefore}
use lecrev.Store.Jobs.Claim.Order.{SameJobs, claim_next_order}
use lecrev.Store.Jobs.Requeue.{is_due, due_job, requeue_stale_lem}
use lecrev.Store.Idempotency.{create_idempotency_record}
use lecrev.Store.Idempotency.Laws.{key_of}
use lecrev.Store.Projects.{ensure_project}
use lecrev.Store.Invariant.{
  IsWellKeyed, run, reachable-IsWellKeyed, puts_execution_job, claims_next_execution_job,
}
use lecrev.Tests.Data.{job, busy}

abbrev waiting : List JobState
waiting = JobState.queued ∷ JobState.retrying ∷ []

abbrev oldest : ExecutionJob
oldest = claimed_job (job "b" JobState.retrying 200) JobState.scheduling 400

abbrev busy_after : Store
busy_after = record busy { execution_jobs = put busy.execution_jobs "b" oldest }

claims_oldest :
    claim_next_execution_job waiting JobState.scheduling 400 busy ≡ (ok oldest, busy_after)
unfolding claim_next_execution_job claim_loop claim_before values put
claims_oldest = refl

claim_next-least_example :
    (c : ExecutionJob) × In c (values busy.execution_jobs)
    × (allows waiting c.state ≡ true)
    × NoneBefore waiting c (values busy.execution_jobs)
    × (oldest ≡ claimed_job c JobState.scheduling 400)
    × (busy_after ≡ record busy {
      execution_jobs = put busy.execution_jobs c.id (claimed_job c JobState.scheduling 400);
    })
claim_next-least_example = claim_next-least waiting JobState.scheduling 400 busy claims_oldest

busy-IsKeyed : IsKeyed (λ j. j.id) busy.execution_jobs
unfolding get
busy-IsKeyed = (refl, refl, (refl, refl, (refl, refl, tt)))

-- The same jobs, met in another order.
abbrev shuffled : Store
shuffled = record empty {
  execution_jobs =
      ("c", job "c" JobState.running 100)
      ∷ ("b", job "b" JobState.retrying 200)
      ∷ ("a", job "a" JobState.queued 300)
      ∷ [];
}

same_jobs : SameJobs busy.execution_jobs shuffled.execution_jobs
unfolding values
same_jobs j = (λ h. ground arith, λ h. ground arith)

claim_next_order_example :
    (claim_next_execution_job waiting JobState.scheduling 400 busy).0
    ≡ (claim_next_execution_job waiting JobState.scheduling 400 shuffled).0
claim_next_order_example =
    claim_next_order waiting JobState.scheduling 400 busy shuffled busy-IsKeyed same_jobs

requeue_stale_lem_example :
    let r = requeue_stale_execution_jobs JobState.running JobState.queued 200 400 "late" busy in
    (r.0 ≡ ok (count_if (is_due JobState.running 200) busy.execution_jobs))
    × (get r.1.execution_jobs "c"
        ≡ Option.map
            (due_job JobState.running JobState.queued 200 400 "late")
            (get busy.execution_jobs "c"))
requeue_stale_lem_example =
    requeue_stale_lem JobState.running JobState.queued 200 400 "late" busy "c"

abbrev with_record : IdempotencyRecord → Store
with_record r = record busy { idempotency = (key_of r, r) ∷ [] }

create_record : (r : IdempotencyRecord) → create_idempotency_record r busy ≡ (ok tt, with_record r)
unfolding create_idempotency_record get put
create_record r = refl

abbrev demo : Project
demo = record { id = "demo"; tenant_id = "acme"; name = "Demo"; created_at = 100 }

ensures_demo : ensure_project "demo" "acme" "Demo" 200 busy ≡ (ok demo, busy)
unfolding ensure_project get
ensures_demo = refl

finds_demo : get busy.projects "demo" ≡ some demo
unfolding get
finds_demo = refl

other_tenant : demo.tenant_id ≢ "umbrella"
other_tenant e = ground (arith, eq_iff "acme" "umbrella")

reachable-IsWellKeyed_example : IsWellKeyed (
    run
      (puts_execution_job (job "a" JobState.queued 300)
        ∷ claims_next_execution_job waiting JobState.scheduling 400
        ∷ [])
      empty)
reachable-IsWellKeyed_example = reachable-IsWellKeyed (
    puts_execution_job (job "a" JobState.queued 300)
    ∷ claims_next_execution_job waiting JobState.scheduling 400
    ∷ [])
