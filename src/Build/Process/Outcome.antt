-- ===== src/Build/Process/Outcome.antt =====
-- What a build leaves in the in-memory store.
use lecrev.Prelude.{String, ◌≡◌, refl, sym, ap, subst, ◌∙◌, false, some, arith, str_eq, eq_refl}
use Prim.Native.String.{◌++◌}
use lecrev.Maps.{get, get-put}
use lecrev.Errors.{Error, Result, ok, err, message}
use lecrev.Domain.{BuildJob, Time, DeployRequest, FunctionVersion, FunctionState}
use lecrev.Store.{Store}
use lecrev.Store.Backend.{World, memory}
use lecrev.Artifact.{build_logs_key}
use lecrev.Build.State.{Service, Env, Run, with_memory}
use lecrev.Build.Requests.{normalize_deploy_request}
use lecrev.Build.Recorder.{printf, archive_build_logs, archive_under}
use lecrev.Build.Publish.{publish}
use lecrev.Build.Publish.Released.{publish_lem, Shown}
use lecrev.Build.Publish.Frame.{Keeps, frame, printf-Keeps, outcome-Keeps, bind-Keeps, rest-Keeps}
use lecrev.Build.Process.{
  process_build_job, mark_build_failed, run_build, failed_job, failed_version, finish, finish_as,
  archival_told, announce, start, decoded, settle, succeeded_job, with_archival,
  mark_build_failed_with_logs,
}

-- A job and its version at the end of a call: both are through, and both the same way.
abbrev pub Through : Result (Unit {0}) → BuildJob → FunctionVersion → Type 0
Through (ok u) job version = (job.state ≡ "succeeded") × (version.state ≡ FunctionState.ready)
Through (err e) job version = (job.state ≡ "failed") × (version.state ≡ FunctionState.failed)

abbrev pub Settled : Result (Unit {0}) → String → String → Store → Type 0
Settled r job_id version_id s =
    (job : BuildJob) × (get s.build_jobs job_id ≡ some job)
    × ((version : FunctionVersion) × (get s.functions version_id ≡ some version)
        × Through r job version)

module _ {W : Type 0} (svc : Service W) (env : Env) where
  archive_under-Keeps : (key log : String) → Keeps (archive_under (with_memory svc) env key log)
  archive_under-Keeps key log =
      bind-Keeps (rest-Keeps (svc.objects.put_object _ _)) (λ u. record { keep = λ run. refl })

  archive-Keeps : Keeps (archive_build_logs (with_memory svc) env)
  unfolding archive_build_logs
  archive-Keeps = record {
    keep = λ run. (archive_under-Keeps (build_logs_key run.job.id) run.log).keep run;
  }

  told-Keeps : (r : Result (Unit {0})) → Keeps (archival_told (with_memory svc) env r)
  told-Keeps (ok u) = record { keep = λ run. refl }
  told-Keeps (err e) = printf-Keeps svc env _

  finish_as-Keeps : (job_id : String) → Keeps (finish_as (with_memory svc) env job_id)
  finish_as-Keeps job_id =
      bind-Keeps (printf-Keeps svc env _) (λ u. bind-Keeps (outcome-Keeps archive-Keeps) told-Keeps)

  announce-Keeps :
      (version : FunctionVersion) (job : BuildJob) (req : DeployRequest)
      → Keeps (announce (with_memory svc) env version job req)
  announce-Keeps version job req = bind-Keeps (printf-Keeps svc env _) (λ u. printf-Keeps svc env _)

  frame-finish : (run : Run (World W)) → frame (finish (with_memory svc) env run).1 ≡ frame run
  unfolding finish
  frame-finish run = (finish_as-Keeps run.job.id).keep run

  -- A failure is recorded in both tables.
  failed_lem :
      (version : FunctionVersion) (job : BuildJob) (now : Time) (e : Error) (w : World W)
      → let end = mark_build_failed (with_memory svc) version job now e w in
        Settled end.0 job.id version.id end.1.store
  unfolding mark_build_failed memory lecrev.Store.Artifacts.put_function_version
      lecrev.Store.Artifacts.put_build_job
  failed_lem version job now e w = (
    failed_job job now e,
    ground (arith, eq_refl job.id, get-put w.store.build_jobs job.id job.id (failed_job job now e)),
    (
      failed_version version,
      ground (
        arith,
        eq_refl version.id,
        get-put w.store.functions version.id version.id (failed_version version),
      ),
      (refl, refl),
    ),
  )

  -- A failure whose log is archived first is recorded for the same job and version.
  failed_with_logs_lem :
      (e : Error) (run : Run (World W))
      → let end = mark_build_failed_with_logs (with_memory svc) env e run in
        Settled end.0 run.job.id run.version.id end.1.store
  unfolding mark_build_failed_with_logs
  failed_with_logs_lem e run =
      let text = "build job " ++ (run.job.id ++ (" failed: " ++ message e)) in
      let told = printf (with_memory svc) env text run in
      let filed = archive_build_logs (with_memory svc) env told.1 in
      let reason = with_archival (with_memory svc) e filed.0 in
      let now = env.now 2 in
      let end =
        mark_build_failed (with_memory svc) filed.1.version filed.1.job now reason filed.1.world in
      subst (λ t. Settled end.0 t.1 t.0.id end.1.store)
        (archive-Keeps.keep told.1 ∙ (printf-Keeps svc env text).keep run)
        (failed_lem filed.1.version filed.1.job now reason filed.1.world)

  succeeded_lem :
      (run : Run (World W))
      → run.version.state ≡ FunctionState.ready
      → get run.world.store.functions run.version.id ≡ some run.version
      → let end =
          (with_memory svc).db.put_build_job
            (succeeded_job (with_memory svc) run.job (env.now 2))
            run.world in
        Settled end.0 run.job.id run.version.id end.1.store
  unfolding memory lecrev.Store.Artifacts.put_build_job
  succeeded_lem run ready stored = (
    succeeded_job (with_memory svc) run.job (env.now 2),
    ground (
      arith,
      eq_refl run.job.id,
      get-put run.world.store.build_jobs run.job.id run.job.id
          (succeeded_job (with_memory svc) run.job (env.now 2)),
    ),
    (run.version, stored, (refl, ready)),
  )

  settle_lem :
      (r : Result (Unit {0})) (run : Run (World W))
      → Shown r run
      → let end = settle (with_memory svc) env r run in
        Settled end.0 run.job.id run.version.id end.1.store
  settle_lem (err e) run h = failed_with_logs_lem e run
  settle_lem (ok u) run h =
      let done = (finish (with_memory svc) env run).1 in
      let same = frame-finish run in
      let end = settle (with_memory svc) env (ok u) run in
      subst (λ t. Settled end.0 t.1 t.0.id end.1.store) same
        (succeeded_lem done (ap (λ t. t.0.state) same ∙ h.0)
          (ap (λ t. get t.3 t.0.id) same ∙ h.1 ∙ ap (λ t. some t.0) (sym same)))

  run_build_lem :
      (req : DeployRequest) (run : Run (World W))
      → let end = run_build (with_memory svc) env req run in
        Settled end.0 run.job.id run.version.id end.1.store
  unfolding run_build
  run_build_lem req run =
      let told = announce (with_memory svc) env run.version run.job req run in
      let same = (announce-Keeps run.version run.job req).keep run in
      let built = publish (with_memory svc) env run.version req told.1 in
      let p = publish_lem svc env run.version req in
      let end = settle (with_memory svc) env built.0 built.1 in
      let job = p.same_job told.1 ∙ ap (λ t. t.1) same in
      let version = p.same_version told.1 (ap (λ t. t.0.id) same) in
      subst (λ i. Settled end.0 i run.version.id end.1.store) job
        (subst (λ i. Settled end.0 built.1.job.id i end.1.store) version
          (settle_lem built.0 built.1 (p.shown told.1)))

  start_lem :
      (version : FunctionVersion) (job : BuildJob) (r : Result DeployRequest) (w : World W)
      → let end = start (with_memory svc) env version job r w in
        Settled end.0 job.id version.id end.1.store
  unfolding memory lecrev.Store.Artifacts.put_build_job lecrev.Store.Artifacts.put_function_version
  start_lem version job (err e) w = failed_lem version job (env.now 0) e w
  start_lem version job (ok req) w = run_build_lem req _

  decoded_lem :
      (version : FunctionVersion) (job : BuildJob) (r : Result DeployRequest) (w : World W)
      → let end = decoded (with_memory svc) env version job r w in
        Settled end.0 job.id version.id end.1.store
  decoded_lem version job (err e) w = failed_lem version job (env.now 0) _ w
  decoded_lem version job (ok req) w = start_lem version job (normalize_deploy_request req) w

  -- A worker that takes up a build job that is not yet done leaves it settled, whatever the
  -- preparation, the object store, the replication and the warming do: the call succeeds, the job
  -- has succeeded and its version is ready, or the call fails, and so have the job and its version.
  -- No job is left running.
  pub process-Settled :
      (id : String) (w : World W) (job : BuildJob) (version : FunctionVersion)
      → get w.store.build_jobs id ≡ some job
      → job.id ≡ id
      → str_eq job.state "succeeded" ≡ false
      → get w.store.functions job.function_version_id ≡ some version
      → version.id ≡ job.function_version_id
      → let end = process_build_job (with_memory svc) env id w in
        Settled end.0 id job.function_version_id end.1.store
  unfolding process_build_job memory lecrev.Store.Artifacts.get_build_job
      lecrev.Store.Artifacts.get_function_version
  process-Settled id w job version j i s v o =
      let end = decoded (with_memory svc) env version job (svc.unmarshal job.request) w in
      rw (j, s, v)
        (subst (λ k. Settled end.0 k job.function_version_id end.1.store) i
          (subst (λ k. Settled end.0 job.id k end.1.store) o
            (decoded_lem version job (svc.unmarshal job.request) w)))

  -- A job that has succeeded is left as it is: a message that is delivered twice builds once.
  process_succeeded :
      (id : String) (w : World W) (job : BuildJob)
      → get w.store.build_jobs id ≡ some job
      → job.state ≡ "succeeded"
      → process_build_job (with_memory svc) env id w ≡ (ok tt, w)
  unfolding process_build_job memory lecrev.Store.Artifacts.get_build_job
  process_succeeded id w job j s = rw (j, s) refl
