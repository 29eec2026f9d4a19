-- ===== src/Build/Publish/Released.antt =====
-- What a version is once it is published, over the in-memory store.
use lecrev.Prelude.{
  String, ◌≡◌, refl, ap, ◌∙◌, some, arith, eq_refl, ltb, length, Bool, true, false, if◌then◌else◌,
}
use lecrev.Maps.{get, put, get-put}
use lecrev.Errors.{Error, Result, Exec, ok, err, ◌>>=◌, continue, ◌>>◌, pure, raise}
use lecrev.Domain.{DeployRequest, FunctionVersion, FunctionState}
use lecrev.Store.Artifacts.{put_function_version}
use lecrev.Store.Backend.{World, memory}
use lecrev.Build.State.{Service, Env, Run, Prepared, with_memory, modify}
use lecrev.Build.Publish.{publish, release, size_checked, ready_version, store_artifact}
use lecrev.Build.Publish.Frame.{
  Keeps, frame, prepare-Keeps, store_artifact-Keeps, ensure-Keeps, warm-Keeps, bind-Keeps,
}

-- On success the version is ready, and stored so.
abbrev pub Shown : {W : Type 0} → Result (Unit {0}) → Run (World W) → Type 0
Shown (err e) end = Unit
Shown (ok u) end =
    (end.version.state ≡ FunctionState.ready)
    × (get end.world.store.functions end.version.id ≡ some end.version)

-- A step that ends a build: the version and the job stay the ones they were.
pub record Publishes {W : Type 0} (id : String) (m : Exec (Run (World W)) (Unit {0})) : Type 0 where
  pub same_version : (run : Run (World W)) → run.version.id ≡ id → (m run).1.version.id ≡ id
  pub same_job : (run : Run (World W)) → (m run).1.job.id ≡ run.job.id
  same_owner :
      (run : Run (World W)) → (m run).1.job.function_version_id ≡ run.job.function_version_id
  pub shown : (run : Run (World W)) → Shown (m run).0 (m run).1

module _ {W : Type 0} where
  abbrev after :
      {A : Type 0}
      → Result A
      → (A → Exec (Run (World W)) (Unit {0}))
      → Exec (Run (World W)) (Unit {0})
  after r f = continue r f

  continue-Publishes :
      {A : Type 0} (id : String) (r : Result A) (f : A → Exec (Run (World W)) (Unit {0}))
      → ((a : A) → Publishes id (f a))
      → Publishes id (continue r f)
  continue-Publishes id (ok a) f h = h a
  continue-Publishes id (err e) f h = record {
    same_version = λ run e. e;
    same_job = λ run. refl;
    same_owner = λ run. refl;
    shown = λ run. tt;
  }

  bind-Publishes :
      {A : Type 0} {id : String} {m : Exec (Run (World W)) A}
      {f : A → Exec (Run (World W)) (Unit {0})}
      → Keeps m
      → ((a : A) → Publishes id (f a))
      → Publishes id (m >>= f)
  bind-Publishes {id = id} {m = m} {f = f} k h = record {
    same_version = λ run e.
        (continue-Publishes id (m run).0 f h).same_version (m run).1
          (ap (λ t. t.0.id) (k.keep run) ∙ e);
    same_job = λ run.
        (continue-Publishes id (m run).0 f h).same_job (m run).1 ∙ ap (λ t. t.1) (k.keep run);
    same_owner = λ run.
        (continue-Publishes id (m run).0 f h).same_owner (m run).1 ∙ ap (λ t. t.2) (k.keep run);
    shown = λ run. (continue-Publishes id (m run).0 f h).shown (m run).1;
  }

  modify-Keeps :
      (f : Run (World W) → Run (World W))
      → ((run : Run (World W)) → frame (f run) ≡ frame run)
      → Keeps (modify f)
  modify-Keeps f h = record { keep = h }

gate-Keeps : {W : Type 0} (b : Bool) (e : Error) → Keeps {W = W} (if b then raise e else pure tt)
gate-Keeps true e = record { keep = λ run. refl }
gate-Keeps false e = record { keep = λ run. refl }

shown_lem :
    {W : Type 0} (v : FunctionVersion) (r : Result (Unit {0})) (end : Run (World W))
    → v.state ≡ FunctionState.ready
    → end.version ≡ v
    → get end.world.store.functions v.id ≡ some v
    → Shown r end
shown_lem v (err x) end e p q = tt
shown_lem v (ok u) end e p q = ground (arith, e, p, q)

module _ {W : Type 0} (svc : Service W) (env : Env) where
  -- A released version is stored as it is, whatever fails behind.
  release-frame :
      (v : FunctionVersion) (run : Run (World W))
      → frame (release (with_memory svc) env v run).1
        ≡ (v, run.job.id, run.job.function_version_id, put run.world.store.functions v.id v)
  unfolding release memory put_function_version
  release-frame v run =
      (bind-Keeps (ensure-Keeps svc env v) (λ u. warm-Keeps svc env v v.env_refs svc.warmer)).keep
        (record run {
          version = v;
          world = record run.world {
            store = record run.world.store { functions = put run.world.store.functions v.id v };
          };
        })

  release-Publishes :
      (v : FunctionVersion)
      → v.state ≡ FunctionState.ready
      → Publishes v.id (release (with_memory svc) env v)
  release-Publishes v ready = record {
    same_version = λ run e. ap (λ t. t.0.id) (release-frame v run);
    same_job = λ run. ap (λ t. t.1) (release-frame v run);
    same_owner = λ run. ap (λ t. t.2) (release-frame v run);
    shown = λ run.
        shown_lem v _ (release (with_memory svc) env v run).1 ready
          (ap (λ t. t.0) (release-frame v run))
          (ap (λ t. get t.3 v.id) (release-frame v run)
            ∙ ground (arith, eq_refl v.id, get-put run.world.store.functions v.id v.id v));
  }

  publish-Publishes :
      (version : FunctionVersion) (req : DeployRequest) (prepared : Prepared)
      → Publishes version.id (
          size_checked (with_memory svc) env prepared
          >> (store_artifact (with_memory svc) env version.id req prepared
              >> release
                  (with_memory svc)
                  env
                  (ready_version (with_memory svc) env version prepared)))
  publish-Publishes version req prepared =
      bind-Publishes (gate-Keeps (ltb 67108864 (length prepared.bundle)) _) (λ u.
        bind-Publishes (store_artifact-Keeps svc env version.id req prepared)
          (λ v. release-Publishes (ready_version (with_memory svc) env version prepared) refl))

  -- A build changes neither the version's identifier nor the job's, and if it succeeds the version
  -- is ready and stored.
  pub publish_lem :
      (version : FunctionVersion) (req : DeployRequest)
      → Publishes version.id (publish (with_memory svc) env version req)
  unfolding publish
  publish_lem version req = bind-Publishes (prepare-Keeps svc env req) (λ prepared.
      bind-Publishes (modify-Keeps _ (λ run. refl)) (λ u. publish-Publishes version req prepared))
