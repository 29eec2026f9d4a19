-- ===== src/Scheduler/Dispatch/Outcome.antt =====
-- What dispatchJobAttempt leaves behind, over the in-memory store and whatever the regions do.
use lecrev.Prelude.{
  ℕ, ◌+◌, suc, String, ◌≡◌, ◌⊎◌, inl, inr, List, [], ◌∷◌, some, arith, eq_refl, refl, Bool-cases,
  Option-cases,
}
use lecrev.Prelude.Text.{join}
use mathlib.Core.List.{◌++◌ as append}
use lecrev.Maps.{get, put, get-put}
use lecrev.Errors.{Error, Result, Result-cases, ok, err, Exec, is_no_execution_capacity, message}
use lecrev.Domain.{Attempt, Time, Artifact, ExecutionJob, FunctionVersion, JobState}
use lecrev.Store.Backend.{World, memory}
use lecrev.Scheduler.State.{Service, Env}
use lecrev.Scheduler.Rank.{Candidate, rank_dispatchers}
use lecrev.Scheduler.Dispatch.{
  dispatch_loop, assignment_for, dispatch_job_attempt, new_attempt, assigned_job, queued_again,
  region_error, answered, failed_attempt,
}
use lecrev.Scheduler.Admission.Quota.{with_memory}

-- Either the call succeeds and the job is stored as assigned with one attempt more, or it fails and
-- the job waits in the queue with the attempts it had and no region.
abbrev pub Settled : {W : Type 0} → ExecutionJob → Result (Unit {0}) → World W → Type 0
Settled job r w =
    ((r ≡ ok tt)
      × ((j : ExecutionJob) × (get w.store.execution_jobs job.id ≡ some j)
          × (j.state ≡ JobState.assigned)
          × (j.attempt_count ≡ job.attempt_count + 1)))
    ⊎ ((e : Error) × (r ≡ err e)
        × ((j : ExecutionJob) × (get w.store.execution_jobs job.id ≡ some j)
            × (j.state ≡ JobState.queued)
            × (j.attempt_count ≡ job.attempt_count)
            × (j.target_region ≡ "")))

stored :
    {W : Type 0} (w : World W) (id : String) (j : ExecutionJob)
    → get (put w.store.execution_jobs id j) id ≡ some j
stored w id j = ground (arith, get-put w.store.execution_jobs id id j, eq_refl id)

-- A job written back to the queue is settled by the error that follows.
queued-Settled :
    {W : Type 0} (job : ExecutionJob) (text : String) (now : Time) (e : Error) (w : World W)
    → Settled job (err e) (record w {
      store = record w.store {
        execution_jobs = put w.store.execution_jobs job.id (queued_again job text now);
      };
    })
queued-Settled job text now e w =
    let q = queued_again job text now in inr (e, refl, (q, stored w job.id q, refl, refl, refl))

module _ {W : Type 0} (svc : Service (World W)) where
  answered-Settled :
      (a : Attempt) (job : ExecutionJob) (k : ℕ) (env : Env)
      (next : Error → Exec (World W) (Unit {0})) (answer : Result (Unit {0})) (w : World W)
      → job.state ≡ JobState.assigned
      → ((e : Error) (w' : World W) → Settled job (next e w').0 (next e w').1)
      → let r = answered (with_memory svc) a job k env next answer w in Settled job r.0 r.1
  unfolding memory
  answered-Settled a job k env next (ok u) w s h =
      let j : ExecutionJob = record job {
        attempt_count = job.attempt_count + 1;
        updated_at = env.now k;
      } in
      inl (refl, (j, stored w job.id j, s, refl))
  answered-Settled a job k env next (err e) w s h = elim (Bool-cases (is_no_execution_capacity e)) [
    | inl t ↦ rw t (
        queued-Settled job "" (env.now (k + 2)) e
          (memory.update_attempt (failed_attempt a e (env.now k) (env.now (k + 1))) w).1)
    | inr t ↦ rw t (h e _)
  ]

  loop-Settled :
      (version : FunctionVersion) (artifact : Artifact) (cs : List (Candidate (World W)))
      (job : ExecutionJob) (errors : List String) (i k : ℕ) (env : Env) (w : World W)
      → let r = dispatch_loop (with_memory svc) version artifact cs job errors i k env w in
        Settled job r.0 r.1
  unfolding dispatch_loop memory
  loop-Settled version artifact [] job errors i k env w =
      queued-Settled job (join "; " errors) (env.now k) _ w
  loop-Settled version artifact (c ∷ cs) job errors i k env w =
      let a = new_attempt job version c.region (env.uuid i) (env.now 0) in
      let job' = assigned_job job a.id c.region (env.now 0) in
      let next = λ (e : Error).
        dispatch_loop (with_memory svc) version artifact cs job'
          (append errors (region_error (with_memory svc) c.region e ∷ [])) (suc i) (k + 2) env in
      let prepared = memory.update_execution_job job' (memory.put_attempt a w).1 in
      let answer =
        c.dispatcher.enqueue_execution (assignment_for version artifact job a.id) prepared.1 in
      answered-Settled a job' k env next answer.0 answer.1 refl (λ e w'.
        loop-Settled version artifact cs job'
          (append errors (region_error (with_memory svc) c.region e ∷ [])) (suc i) (k + 2) env w')

  -- Whatever the regions answer and write, a job that was claimed is not left in between: the call
  -- succeeds and the job is stored as assigned with one attempt more, or it fails and the job is
  -- stored as queued with the attempts it had and no region.
  pub dispatch-Settled :
      (version : FunctionVersion) (job : ExecutionJob) (env : Env) (w : World W)
      → let r = dispatch_job_attempt (with_memory svc) version job env w in Settled job r.0 r.1
  unfolding dispatch_job_attempt memory
  dispatch-Settled version job env w =
      elim (Option-cases (get w.store.artifacts version.artifact_digest)) [
        | inl n ↦ rw n (queued-Settled job _ (env.now 0) _ w)
        | inr (artifact, f) ↦
            let ranking = rank_dispatchers (with_memory svc) version env.rank_now w in
            elim (Result-cases ranking.0) [
              | inl (x, n) ↦ rw (f, n) (queued-Settled job (message x) (env.now 0) x ranking.1)
              | inr (cs, n) ↦ rw (f, n) (loop-Settled version artifact cs job [] 0 1 env ranking.1)
            ]
      ]
