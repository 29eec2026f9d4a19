-- ===== src/Build/Create/Quota.antt =====
-- A deployment that is refused for the project's quota, and one that is handed to the bus, over the
-- in-memory store.
use lecrev.Prelude.{
  ℕ, ◌≤◌, String, ◌≡◌, refl, sym, ap, subst, some, [], ◌∷◌, false, true, arith, ◌==◌, leb, eq_refl,
  inl, inr, contains, ◌&&◌,
}
use lecrev.Prelude.Utf8.{utf8}
use lecrev.Maps.{get, get-put, put, count_if}
use lecrev.Errors.{Exec, ok, err, lift, ◌>>=◌, ◌>>◌, Result-cases, bind_ok, project_build_quota}
use lecrev.Domain.{BuildJob, DeployRequest, FunctionVersion}
use lecrev.Store.Artifacts.{build_in_project}
use lecrev.Store.{Store}
use lecrev.Store.Backend.{World, memory}
use lecrev.Build.State.{Service, Env, BuildAssignment, with_memory, on_rest, map_option}
use lecrev.Build.Requests.{normalize_deploy_request}
use lecrev.Build.Create.{
  create_version, enforce_build_quota, initialize_build, hand_over, building_version, queued_build,
  queued_log,
}
use lecrev.Build.Process.{process_build_job}
use lecrev.Build.Process.Outcome.{Settled, process-Settled}

-- The project's builds that are queued or running.
abbrev pub active_builds : {W : Type 0} → String → World W → ℕ
active_builds project w =
    count_if
      (λ job.
        contains ("queued" ∷ ("running" ∷ [])) job.state
        && build_in_project w.store.functions project job)
      w.store.build_jobs

module _ {W : Type 0} (svc : Service W) (env : Env) where
  -- A project with as many active builds as the limit allows is refused another, and nothing is
  -- stored.
  pub create-refused :
      (req : DeployRequest) (w : World W) {accepted : DeployRequest}
      → normalize_deploy_request req ≡ ok accepted
      → (svc.max_active_build_jobs_per_project == 0) ≡ false
      → svc.max_active_build_jobs_per_project ≤ active_builds accepted.project_id w
      → create_version (with_memory svc) req env w ≡ (
        err (
            project_build_quota accepted.project_id
              (active_builds accepted.project_id w)
              svc.max_active_build_jobs_per_project),
        w,
      )
  unfolding create_version enforce_build_quota memory
      lecrev.Store.Artifacts.count_build_jobs_by_project_states
  create-refused req w {accepted} n l k =
      let over : leb svc.max_active_build_jobs_per_project (active_builds accepted.project_id w)
          ≡ true =
        ground (arith, k) in
      rw (n, l, over) refl

  -- What an accepted deployment leaves behind when there is a bus.
  pub record IsQueued (v : FunctionVersion) (s : Store) : Type 0 where
    pub job : BuildJob
    pub stored_job : get s.build_jobs (env.uuid 1) ≡ some job
    pub job_id : job.id ≡ env.uuid 1
    pub waiting : job.state ≡ "queued"
    pub owner : job.function_version_id ≡ v.id
    pub stored_version : get s.functions v.id ≡ some v
    pub version_id : v.id ≡ env.uuid 0

  -- The bus takes the job, or the call fails.
  handed :
      (version : FunctionVersion) (job : BuildJob)
      (f : String → BuildAssignment → Exec W (Unit {0})) (w : World W) {v : FunctionVersion}
      {w' : World W}
      → hand_over (with_memory svc) env version job (some (λ region a. on_rest (f region a))) w
        ≡ (ok v, w')
      → (v ≡ version) × (w'.store ≡ w.store)
  handed version job f w e =
      elim (Result-cases (f job.target_region (record { build_job_id = job.id }) w.rest).0) [
        | inl (x, h) ↦ ground (arith, h)
        | inr (u, h) ↦ ground (arith, h)
      ]

  -- A deployment that succeeds has stored its version, and a queued job of it.
  initialized :
      (req : DeployRequest) (w : World W) {made : FunctionVersion × BuildJob} {w' : World W}
      → initialize_build (with_memory svc) req env w ≡ (ok made, w')
      → (made.0 ≡ building_version req (env.uuid 0) (env.uuid 1) (env.now 4))
        × IsQueued made.0 w'.store
  unfolding initialize_build memory lecrev.Store.Artifacts.put_function_version
      lecrev.Store.Artifacts.put_build_job
  initialized req w {made} {w'} e = elim (Result-cases (svc.marshal req)) [
    | inl (x, h) ↦ ground (arith, h)
    | inr (bytes, h) ↦
        let job = queued_build (with_memory svc) req bytes env in
        let v = building_version req (env.uuid 0) (env.uuid 1) (env.now 4) in
        let log = queued_log (with_memory svc) job env in
        elim (Result-cases (svc.objects.put_object job.logs_key (utf8 log) w.rest).0) [
          | inl (x, k) ↦ ground (arith, h, k)
          | inr (u, k) ↦
              let a : made ≡ (v, job) = ground (arith, h, k) in
              let b : w'.store.functions ≡ put w.store.functions v.id v = ground (arith, h, k) in
              let c : w'.store.build_jobs ≡ put w.store.build_jobs job.id job =
                ground (arith, h, k) in
              (
                ap (λ t. t.0) a,
                subst (λ x. IsQueued x w'.store) (sym (ap (λ t. t.0) a))
                    (record {
                      job = job;
                      stored_job =
                          ground (
                            arith,
                            c,
                            eq_refl job.id,
                            get-put w.store.build_jobs job.id job.id job,
                          );
                      job_id = refl;
                      waiting = refl;
                      owner = refl;
                      stored_version =
                          ground (arith, b, eq_refl v.id, get-put w.store.functions v.id v.id v);
                      version_id = refl;
                    }),
              )
        ]
  ]

  -- The steps behind the acceptance of a request.
  abbrev behind : DeployRequest → Exec (World W) FunctionVersion
  behind accepted = do
    enforce_build_quota (with_memory svc) accepted.project_id
    made ← initialize_build (with_memory svc) accepted env
    hand_over (with_memory svc) env made.0 made.1 (with_memory svc).publish_build

  -- A deployment that a service with a bus accepts is a version that is being built, stored, with
  -- a queued job of its own.
  pub create-IsQueued :
      (f : String → BuildAssignment → Exec W (Unit {0})) (req : DeployRequest) (w : World W)
      {v : FunctionVersion} {w' : World W}
      → svc.publish_build ≡ some f
      → create_version (with_memory svc) req env w ≡ (ok v, w')
      → IsQueued v w'.store
  unfolding create_version
  create-IsQueued f req w {v} {w'} b e =
      let (accepted, n, e1) = bind_ok (lift (normalize_deploy_request req)) behind w e in
      let (u, q, e2) = bind_ok (enforce_build_quota (with_memory svc) accepted.project_id) _ w e1 in
      let (made, i, e3) = bind_ok (initialize_build (with_memory svc) accepted env) _ _ e2 in
      let started = (enforce_build_quota (with_memory svc) accepted.project_id w).1 in
      let stored = (initialize_build (with_memory svc) accepted env started).1 in
      let queued =
        (initialized accepted started {made = made} {w' = stored} (ap (λ r. (r, stored)) i)).1 in
      let out = handed made.0 made.1 f stored {v = v} {w' = w'} (
        subst
          (λ o.
            hand_over (with_memory svc) env made.0 made.1
              (map_option (λ g region a. on_rest (g region a)) o) stored
            ≡ (ok v, w'))
          b e3) in
      subst (λ s. IsQueued v s) (sym out.1)
        (subst (λ x. IsQueued x stored.store) (sym out.0) queued)

  -- A deployment and the worker that takes its job up, at any later time: the version that the
  -- caller was given is then ready, or it has failed, together with its job.
  pub create-process :
      (f : String → BuildAssignment → Exec W (Unit {0})) (req : DeployRequest) (w : World W)
      (later : Env) {v : FunctionVersion} {w' : World W}
      → svc.publish_build ≡ some f
      → create_version (with_memory svc) req env w ≡ (ok v, w')
      → let end = process_build_job (with_memory svc) later (env.uuid 1) w' in
        Settled end.0 (env.uuid 1) v.id end.1.store
  create-process f req w later {v} {w'} b e =
      let q = create-IsQueued f req w {v = v} {w' = w'} b e in
      let end = process_build_job (with_memory svc) later (env.uuid 1) w' in
      subst (λ i. Settled end.0 (env.uuid 1) i end.1.store) q.owner
        (process-Settled svc later (env.uuid 1) w' q.job v q.stored_job q.job_id (rw q.waiting refl)
          (subst (λ i. get w'.store.functions i ≡ some v) (sym q.owner) q.stored_version)
          (sym q.owner))
