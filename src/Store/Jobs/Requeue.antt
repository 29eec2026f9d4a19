-- ===== src/Store/Jobs/Requeue.antt =====
-- RequeueStaleExecutionJobs moves exactly the stale jobs.
use mathlib.Core.Option
use lecrev.Prelude.{
  ℕ, String, ◌≡◌, refl, ap, Bool, true, false, Option, none, some, leb, ◌&&◌, [], ◌∷◌, arith, sym,
  ◌∙◌, str_eq, if◌then◌else◌,
}
use lecrev.Prelude.Text.{trim_space}
use lecrev.Maps.{Assoc, get, count_if}
use lecrev.Maps.Keyed.{IsKeyed}
use lecrev.Errors.{ok}
use lecrev.Domain.{Time, ExecutionJob, JobState, job_state_eq}
use lecrev.Store.State.{Store}
use lecrev.Store.Jobs.{
  is_stale, requeued, requeue_entry, requeue_loop, requeue_stale_execution_jobs,
}

get-requeue_entry :
    (b : Bool) (id k : String) (job new : ExecutionJob) (r : ℕ × Assoc ExecutionJob)
    → get (requeue_entry b id job new r).1 k
      ≡ (if str_eq id k then some (if b then new else job) else get r.1 k)
unfolding get requeue_entry
get-requeue_entry true id k job new r = refl
get-requeue_entry false id k job new r = refl

module _ (from_state to_state : JobState) (stale_before now : Time) (text : String) where
  -- What the call makes of one job.
  abbrev pub moved : ExecutionJob → ExecutionJob
  moved job = if is_stale from_state stale_before job then requeued to_state now text job else job

  abbrev after : Assoc ExecutionJob → Assoc ExecutionJob
  after m = (requeue_loop from_state to_state stale_before now text m).1

  map-if :
      (b : Bool) (job : ExecutionJob) (o : Option ExecutionJob)
      → Option.map moved (if b then some job else o)
        ≡ (if b then some (moved job) else Option.map moved o)
  map-if true job o = refl
  map-if false job o = refl

  get-requeue : (m : Assoc ExecutionJob) (k : String) → get (after m) k ≡ Option.map moved (get m k)
  unfolding get requeue_loop
  get-requeue [] k = refl
  get-requeue ((id, job) ∷ m) k =
      get-requeue_entry (is_stale from_state stale_before job) id k job
        (requeued to_state now text job) (requeue_loop from_state to_state stale_before now text m)
      ∙ ap (λ o. if str_eq id k then some (moved job) else o) (get-requeue m k)
      ∙ sym (map-if (str_eq id k) job (get m k))

  count-requeue :
      (m : Assoc ExecutionJob)
      → (requeue_loop from_state to_state stale_before now text m).0
        ≡ count_if (is_stale from_state stale_before) m
  unfolding requeue_loop count_if
  count-requeue [] = refl
  count-requeue ((id, job) ∷ m) = ground (arith, count-requeue m)

  none_stale :
      job_state_eq to_state from_state ≡ false
      → (m : Assoc ExecutionJob) → count_if (is_stale from_state stale_before) (after m) ≡ 0
  unfolding requeue_loop count_if requeued
  none_stale out [] = refl
  none_stale out ((id, job) ∷ m) = ground (arith, none_stale out m)

  pub requeue-IsKeyed :
      (m : Assoc ExecutionJob) → IsKeyed (λ j. j.id) m → IsKeyed (λ j. j.id) (after m)
  unfolding requeue_loop requeued
  requeue-IsKeyed [] h = tt
  requeue-IsKeyed ((id, job) ∷ m) h = ground (arith, get-requeue m id, requeue-IsKeyed m h.2)

-- What a requeue is to do: the jobs that it concerns, and what each of them becomes.
abbrev pub is_due : JobState → Time → ExecutionJob → Bool
is_due from_state stale_before job =
    job_state_eq job.state from_state && leb job.updated_at stale_before

abbrev pub due_job : JobState → JobState → Time → Time → String → ExecutionJob → ExecutionJob
due_job from_state to_state stale_before now text job =
    if is_due from_state stale_before job
    then record job {
      state = to_state;
      target_region = "";
      error = if str_eq (trim_space text) "" then job.error else trim_space text;
      updated_at = now;
    }
    else job

moved_lem :
    (from_state to_state : JobState) (stale_before now : Time) (text : String) (job : ExecutionJob)
    → moved from_state to_state stale_before now text job
      ≡ due_job from_state to_state stale_before now text job
unfolding requeued
moved_lem from_state to_state stale_before now text job = ground arith

map-moved :
    (from_state to_state : JobState) (stale_before now : Time) (text : String)
    (o : Option ExecutionJob)
    → Option.map (moved from_state to_state stale_before now text) o
      ≡ Option.map (due_job from_state to_state stale_before now text) o
map-moved from_state to_state stale_before now text none = refl
map-moved from_state to_state stale_before now text (some job) =
    ap some (moved_lem from_state to_state stale_before now text job)

count-due :
    (from_state : JobState) (stale_before : Time) (m : Assoc ExecutionJob)
    → count_if (is_stale from_state stale_before) m ≡ count_if (is_due from_state stale_before) m
unfolding count_if
count-due from_state stale_before [] = refl
count-due from_state stale_before ((id, job) ∷ m) =
    ground (arith, count-due from_state stale_before m)

-- The requeue returns the number of the jobs that are in the given state and were last updated at
-- the given time or before. Each of these gets the new state, no region, the time of the call, and
-- the text as its error unless it is blank; every other job stays as it is.
pub requeue_stale_lem :
    (from_state to_state : JobState) (stale_before now : Time) (text : String) (s : Store)
    (k : String)
    → let r = requeue_stale_execution_jobs from_state to_state stale_before now text s in
      (r.0 ≡ ok (count_if (is_due from_state stale_before) s.execution_jobs))
      × (get r.1.execution_jobs k
          ≡ Option.map (due_job from_state to_state stale_before now text) (get s.execution_jobs k))
unfolding requeue_stale_execution_jobs
requeue_stale_lem from_state to_state stale_before now text s k =
    let m = s.execution_jobs in
    (
      ap ok (
          count-requeue from_state to_state stale_before now text m
          ∙ count-due from_state stale_before m),
      get-requeue from_state to_state stale_before now text m k
          ∙ map-moved from_state to_state stale_before now text (get s.execution_jobs k),
    )

-- If the target state of a requeue is another one, a second requeue finds no stale job.
requeue_twice :
    (from_state to_state : JobState) (stale_before now : Time) (text : String) (s : Store)
    → job_state_eq to_state from_state ≡ false
    → let r = requeue_stale_execution_jobs from_state to_state stale_before now text s in
      (requeue_stale_execution_jobs from_state to_state stale_before now text r.1).0 ≡ ok 0
unfolding requeue_stale_execution_jobs
requeue_twice from_state to_state stale_before now text s out =
    let m = s.execution_jobs in
    ap ok (
      count-requeue from_state to_state stale_before now text _
      ∙ none_stale from_state to_state stale_before now text out m)
