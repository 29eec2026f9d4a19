-- ===== src/Store/Jobs.antt =====
-- internal/store/memory/store.go: execution jobs, the queue of the scheduler among them.
pub mod Claim
pub mod Requeue
use lecrev.Prelude.{
  ℕ, suc, String, Bool, true, false, not, ◌&&◌, ◌||◌, Option, none, some, List, [], ◌∷◌, select,
  str_eq, ltb, ◌==◌, if◌then◌else◌,
}
use lecrev.Prelude.Text.{str_ltb, trim_space}
use lecrev.Maps.{Assoc, get, put, values, count_if}
use lecrev.Sorting.{sort_stable}
use lecrev.Errors.{Result, Exec, ok, err, nothing_found}
use lecrev.Domain.{Time, ExecutionJob, JobState, job_state_eq, allows, job_finished}
use lecrev.Store.State.{Store, found}
use lecrev.Store.Projects.{newest_first}

unfoldable pub put_execution_job : ExecutionJob → Exec Store (Unit {0})
put_execution_job job s = (ok tt, record s { execution_jobs = put s.execution_jobs job.id job })

unfoldable pub update_execution_job : ExecutionJob → Exec Store (Unit {0})
update_execution_job job s = (ok tt, record s { execution_jobs = put s.execution_jobs job.id job })

unfoldable pub get_execution_job : String → Exec Store ExecutionJob
get_execution_job id s = (found "job" id (get s.execution_jobs id), s)

unfoldable pub list_execution_jobs_by_project : String → Exec Store (List ExecutionJob)
list_execution_jobs_by_project project_id s = (
  ok (
      sort_stable (λ v w. newest_first v.created_at v.id w.created_at w.id)
        (select (λ job. str_eq job.project_id project_id) (values s.execution_jobs))),
  s,
)

abbrev pub in_project_states : String → List JobState → ExecutionJob → Bool
in_project_states project_id states job =
    str_eq job.project_id project_id && allows states job.state

unfoldable pub count_execution_jobs_by_project_states : String → List JobState → Exec Store ℕ
count_execution_jobs_by_project_states project_id states s =
    (ok (count_if (in_project_states project_id states) s.execution_jobs), s)

unfoldable pub count_execution_jobs_by_states : List JobState → Exec Store ℕ
count_execution_jobs_by_states states s =
    (ok (count_if (λ job. allows states job.state) s.execution_jobs), s)

-- The order in which waiting jobs are claimed: by the last update, the creation and the id.
unfoldable pub claim_before : ExecutionJob → ExecutionJob → Bool
claim_before c d =
    ltb c.updated_at d.updated_at
    || (c.updated_at == d.updated_at && ltb c.created_at d.created_at)
    || (c.updated_at == d.updated_at && c.created_at == d.created_at && str_ltb c.id d.id)

-- Whether the candidate replaces what the loop has chosen so far.
abbrev pub replaces : ExecutionJob → Option ExecutionJob → Bool
replaces candidate none = true
replaces candidate (some chosen) = claim_before candidate chosen

unfoldable pub claim_loop :
    List JobState → List ExecutionJob → Option ExecutionJob → Option ExecutionJob
claim_loop allowed [] chosen = chosen
claim_loop allowed (job ∷ jobs) chosen =
    claim_loop allowed jobs
      (if allows allowed job.state && replaces job chosen then some job else chosen)

claim_chosen : JobState → Time → Store → Option ExecutionJob → Result ExecutionJob × Store
claim_chosen to_state now s none = (err nothing_found, s)
claim_chosen to_state now s (some chosen) =
    let job : ExecutionJob = record chosen { state = to_state; updated_at = now } in
    (ok job, record s { execution_jobs = put s.execution_jobs chosen.id job })

unfoldable pub claim_next_execution_job : List JobState → JobState → Time → Exec Store ExecutionJob
unfolding claim_chosen
claim_next_execution_job from_states to_state now s =
    claim_chosen to_state now s (claim_loop from_states (values s.execution_jobs) none)

-- The job that RequeueStaleExecutionJobs takes up: in the state, and not updated since.
abbrev pub is_stale : JobState → Time → ExecutionJob → Bool
is_stale from_state stale_before job =
    job_state_eq job.state from_state && not (ltb stale_before job.updated_at)

unfoldable pub requeued : JobState → Time → String → ExecutionJob → ExecutionJob
requeued to_state now error_message job =
    let text = trim_space error_message in
    record job {
      state = to_state;
      target_region = "";
      error = if not (str_eq text "") then text else job.error;
      updated_at = now;
    }

-- One round of the loop, on what the later rounds give: the job is written back, or left alone.
unfoldable pub requeue_entry :
    Bool → String → ExecutionJob → ExecutionJob → ℕ × Assoc ExecutionJob → ℕ × Assoc ExecutionJob
requeue_entry true id job new (count, jobs) = (suc count, (id, new) ∷ jobs)
requeue_entry false id job new (count, jobs) = (count, (id, job) ∷ jobs)

unfoldable pub requeue_loop :
    JobState → JobState → Time → Time → String → Assoc ExecutionJob → ℕ × Assoc ExecutionJob
unfolding requeue_entry
requeue_loop from_state to_state stale_before now error_message [] = (0, [])
requeue_loop from_state to_state stale_before now error_message ((id, job) ∷ rest) =
    requeue_entry (is_stale from_state stale_before job) id job
      (requeued to_state now error_message job)
      (requeue_loop from_state to_state stale_before now error_message rest)

unfoldable pub requeue_stale_execution_jobs :
    JobState → JobState → Time → Time → String → Exec Store ℕ
requeue_stale_execution_jobs from_state to_state stale_before now error_message s =
    let (count, jobs) =
      requeue_loop from_state to_state stale_before now error_message s.execution_jobs in
    (ok count, record s { execution_jobs = jobs })

abbrev pub active_in_region : String → ExecutionJob → Bool
active_in_region region job = str_eq job.target_region region && not (job_finished job.state)

unfoldable pub count_active_execution_jobs_by_region : String → Exec Store ℕ
count_active_execution_jobs_by_region region s =
    (ok (count_if (active_in_region region) s.execution_jobs), s)
