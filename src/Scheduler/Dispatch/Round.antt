-- ===== src/Scheduler/Dispatch/Round.antt =====
-- One round of the scheduler, scheduleNext, over the in-memory store.
use Prim.Native.String.{◌++◌}
use lecrev.Prelude.{
  String, ◌≡◌, ◌⊎◌, inl, inr, refl, true, false, none, some, List, [], ◌∷◌, arith, eq_refl, ltb,
  Bool-cases, Option-cases,
}
use lecrev.Maps.{get, get-put}
use lecrev.Errors.{Result, ok, not_found, message}
use lecrev.Domain.{ExecutionJob, FunctionVersion, JobState, Time}
use lecrev.Store.{Store}
use lecrev.Store.Backend.{World, memory}
use lecrev.Store.Jobs.{claim_next_execution_job}
use lecrev.Scheduler.State.{Service, Env}
use lecrev.Scheduler.Dispatch.{schedule_next, dispatch_job_attempt, queued_again}
use lecrev.Scheduler.Dispatch.Outcome.{Settled, dispatch-Settled}
use lecrev.Scheduler.Admission.Quota.{with_memory}

abbrev pub waiting_states : List JobState
waiting_states = JobState.queued ∷ JobState.retrying ∷ []

abbrev failed_job : ExecutionJob → String → Time → ExecutionJob
failed_job job text now = record job { state = JobState.failed; error = text; updated_at = now }

-- The states in which a round may leave a job.
abbrev pub HasLeft : JobState → Type 0
HasLeft state =
    (state ≡ JobState.queued) ⊎ ((state ≡ JobState.assigned) ⊎ (state ≡ JobState.failed))

Settled-state :
    {W : Type 0} (job : ExecutionJob) (r : Result (Unit {0})) (w : World W)
    → Settled job r w
    → (after : ExecutionJob) × (get w.store.execution_jobs job.id ≡ some after)
      × HasLeft after.state
Settled-state job r w (inl (e, (j, g, s, c))) = (j, g, inr (inl s))
Settled-state job r w (inr (x, e, (j, g, s, c, d))) = (j, g, inl s)

module _ {W : Type 0} (svc : Service (World W)) where
  -- If the artifact of a claimed job's version is missing, a round reports that it dispatched, and
  -- puts the job back into the queue with the attempts that it had.
  round_spins :
      (claimed_at now : Time) (env : Env) (w : World W) (job : ExecutionJob) (s : Store)
      (version : FunctionVersion)
      → claim_next_execution_job waiting_states JobState.scheduling claimed_at w.store ≡ (ok job, s)
      → ltb job.max_retries job.attempt_count ≡ false
      → get s.functions job.function_version_id ≡ some version
      → get s.artifacts version.artifact_digest ≡ none
      → let r = schedule_next (with_memory svc) claimed_at now env w in
        (r.0 ≡ ok true)
        × (get r.1.store.execution_jobs job.id
            ≡ some (
                queued_again job
                  (message (not_found "artifact" version.artifact_digest))
                  (env.now 0)))
  unfolding schedule_next dispatch_job_attempt memory
  round_spins claimed_at now env w job s version c b f a =
      let q =
        queued_again job (message (not_found "artifact" version.artifact_digest)) (env.now 0) in
      (
        ground (arith, c, b, f, a),
        ground (arith, c, b, f, a, eq_refl job.id, get-put s.execution_jobs job.id job.id q),
      )

  -- A job that a round claims is not left in the state of the claim: the round stores it as queued,
  -- assigned or failed.
  pub round_settles :
      (claimed_at now : Time) (env : Env) (w : World W) (job : ExecutionJob) (s : Store)
      → claim_next_execution_job waiting_states JobState.scheduling claimed_at w.store ≡ (ok job, s)
      → (after : ExecutionJob) × (get
            (schedule_next (with_memory svc) claimed_at now env w).1.store.execution_jobs
            job.id
          ≡ some after)
        × HasLeft after.state
  unfolding schedule_next memory
  round_settles claimed_at now env w job s c =
      let claimed_world : World W = record w { store = s } in
      let failed = λ (text : String). failed_job job text now in
      elim (Bool-cases (ltb job.max_retries job.attempt_count)) [
        | inl b ↦
            let f = failed ("job " ++ (job.id ++ " exceeded retry budget")) in
            (
              f,
              ground (arith, c, b, eq_refl job.id, get-put s.execution_jobs job.id job.id f),
              inr (inr refl),
            )
        | inr b ↦ elim (Option-cases (get s.functions job.function_version_id)) [
          | inl g ↦
              let f = failed (message (not_found "function version" job.function_version_id)) in
              (
                f,
                ground (arith, c, b, g, eq_refl job.id, get-put s.execution_jobs job.id job.id f),
                inr (inr refl),
              )
          | inr (version, g) ↦
              let r = dispatch_job_attempt (with_memory svc) version job env claimed_world in
              let (after, h, n) =
                Settled-state job r.0 r.1 (dispatch-Settled svc version job env claimed_world) in
              (after, ground (arith, c, b, g, h), n)
        ]
      ]
