-- ===== src/Build/Publish/Frame.antt =====
-- What the steps of a build leave alone, over the in-memory store.
use lecrev.Prelude.{
  String, ◌≡◌, refl, ◌∙◌, List, [], ◌∷◌, Option, none, some, arith, Bool-cases, inl, inr, ℕ, zero,
  suc,
}
use lecrev.Maps.{Assoc}
use lecrev.Errors.{
  Error, Result, Exec, ok, err, ◌>>=◌, pure, raise, lift, outcome, continue, is_already_exists,
}
use lecrev.Domain.{FunctionVersion, HttpTrigger, Time, Artifact, DeployRequest}
use Prim.Native.String.{◌++◌}
use lecrev.Store.Backend.{World, memory, on_store}
use lecrev.Store.Triggers.{list_http_triggers_by_function_version}
use lecrev.Store.Triggers.Tokens.{put_http_effect}
use lecrev.Store.Artifacts.{put_artifact}
use lecrev.Store.{Store}
use lecrev.Build.State.{
  Service, Env, Run, on_world, with_memory, on_rest, map_option, StaticAsset, Prepared,
  PreparedSite, ReplicationRequest,
}
use lecrev.Build.Recorder.{printf, print_all}
use lecrev.Build.Publish.{
  print_regions, artifact_regions, put_assets, put_site, store_artifact, try_tokens, trigger_put,
  trigger_token, triggers_listed, ensure_default_http_trigger, warmed, warm, prepare,
}

-- The version under way, its job's identifiers, and the stored versions.
abbrev pub frame :
    {W : Type 0} → Run (World W) → FunctionVersion × String × String × Assoc FunctionVersion
frame run = (run.version, run.job.id, run.job.function_version_id, run.world.store.functions)

-- A step that leaves the frame alone, whatever it answers.
pub record Keeps {W A : Type 0} (m : Exec (Run (World W)) A) : Type 0 where
  pub keep : (run : Run (World W)) → frame (m run).1 ≡ frame run

module _ {W : Type 0} where
  continue_lem :
      {A B : Type 0} (r : Result A) (f : A → Exec (Run (World W)) B)
      → ((a : A) → Keeps (f a))
      → (run : Run (World W)) → frame (continue r f run).1 ≡ frame run
  continue_lem (ok a) f k run = (k a).keep run
  continue_lem (err e) f k run = refl

  pub bind-Keeps :
      {A B : Type 0} {m : Exec (Run (World W)) A} {f : A → Exec (Run (World W)) B}
      → Keeps m
      → ((a : A) → Keeps (f a))
      → Keeps (m >>= f)
  bind-Keeps {m = m} {f = f} h k = record {
    keep = λ run. continue_lem (m run).0 f k (m run).1 ∙ h.keep run;
  }

  lift-Keeps : {A : Type 0} (r : Result A) → Keeps (lift {S = Run (World W)} r)
  lift-Keeps r = record { keep = λ run. refl }

  pure-Keeps : {A : Type 0} (a : A) → Keeps (pure {S = Run (World W)} a)
  pure-Keeps a = record { keep = λ run. refl }

  raise-Keeps : {A : Type 0} (e : Error) → Keeps (raise {S = Run (World W)} {A = A} e)
  raise-Keeps e = record { keep = λ run. refl }

  pub rest-Keeps : {A : Type 0} (m : Exec W A) → Keeps (on_world (on_rest m))
  rest-Keeps m = record { keep = λ run. refl }

  -- A call of the in-memory store that leaves the versions alone.
  store-Keeps :
      {A : Type 0} (m : Exec Store A)
      → ((s : Store) → (m s).1.functions ≡ s.functions)
      → Keeps (on_world (on_store {W = W} m))
  store-Keeps m h = record { keep = λ run. ground (arith, h run.world.store) }

  pub outcome-Keeps : {A : Type 0} {m : Exec (Run (World W)) A} → Keeps m → Keeps (outcome m)
  outcome-Keeps h = record { keep = λ run. h.keep run }

module _ {W : Type 0} (svc : Service W) (env : Env) where
  pub printf-Keeps : (text : String) → Keeps (printf (with_memory svc) env text)
  unfolding printf memory
  printf-Keeps text = record { keep = λ run. refl }

  print_all-Keeps : (texts : List String) → Keeps (print_all (with_memory svc) env texts)
  unfolding print_all
  print_all-Keeps [] = pure-Keeps tt
  print_all-Keeps (t ∷ ts) = bind-Keeps (printf-Keeps t) (λ u. print_all-Keeps ts)

  print_regions-Keeps :
      (before : String) (regions : List String)
      → Keeps (print_regions (with_memory svc) env before regions)
  print_regions-Keeps before [] = pure-Keeps tt
  print_regions-Keeps before (r ∷ rs) =
      bind-Keeps (printf-Keeps (before ++ r)) (λ u. print_regions-Keeps before rs)

  put_assets-Keeps :
      (digest : String) (assets : List StaticAsset)
      → Keeps (put_assets (with_memory svc) env digest assets)
  unfolding put_assets
  put_assets-Keeps digest [] = pure-Keeps tt
  put_assets-Keeps digest (a ∷ assets) =
      bind-Keeps (rest-Keeps (svc.objects.put_object _ _)) (λ u. put_assets-Keeps digest assets)

  ruleset keeps = (
    bind-Keeps, lift-Keeps, pure-Keeps, raise-Keeps, rest-Keeps, outcome-Keeps, printf-Keeps,
    print_all-Keeps, print_regions-Keeps, put_assets-Keeps,
  )

  put_site-Keeps :
      (version_id digest entrypoint : String) (site : Option PreparedSite)
      → Keeps (put_site (with_memory svc) env version_id digest entrypoint site)
  unfolding put_site
  put_site-Keeps version_id digest entrypoint none = pure-Keeps tt
  put_site-Keeps version_id digest entrypoint (some site) = search keeps

  artifact_regions-Keeps :
      (targets : List String) (request : ReplicationRequest)
      (o : Option (ReplicationRequest → Exec W (Assoc Time)))
      → Keeps (
          artifact_regions
            (with_memory svc)
            env
            targets
            request
            (map_option (λ f r. on_rest (f r)) o))
  unfolding artifact_regions
  artifact_regions-Keeps targets request none = search keeps
  artifact_regions-Keeps targets request (some f) = search keeps

  put_artifact-Keeps :
      (a : Artifact) → Keeps (on_world {S = World W} ((with_memory svc).db.put_artifact a))
  unfolding memory put_artifact
  put_artifact-Keeps a = record { keep = λ run. refl }

  pub store_artifact-Keeps :
      (version_id : String) (req : DeployRequest) (prepared : Prepared)
      → Keeps (store_artifact (with_memory svc) env version_id req prepared)
  unfolding store_artifact
  store_artifact-Keeps version_id req prepared =
      search (keeps, artifact_regions-Keeps, put_site-Keeps, put_artifact-Keeps) depth 12

  pub prepare-Keeps : (req : DeployRequest) → Keeps (prepare (with_memory svc) env req)
  unfolding prepare
  prepare-Keeps req = search keeps

  put_http_trigger-Keeps :
      (t : HttpTrigger) → Keeps (on_world {S = World W} ((with_memory svc).db.put_http_trigger t))
  unfolding memory
  put_http_trigger-Keeps t = record {
    keep = λ run. elim (put_http_effect t run.world.store) [
      | inl e ↦ ground (arith, e)
      | inr e ↦ ground (arith, e)
    ];
  }

  list_http_triggers-Keeps :
      (id : String)
      → Keeps
          (on_world {S = World W} ((with_memory svc).db.list_http_triggers_by_function_version id))
  unfolding memory list_http_triggers_by_function_version
  list_http_triggers-Keeps id = record { keep = λ run. refl }

  trigger_put-Keeps :
      (version : FunctionVersion) (next : Exec (Run (World W)) (Unit {0})) (r : Result (Unit {0}))
      → Keeps next
      → Keeps (trigger_put (with_memory svc) env version next r)
  trigger_put-Keeps version next (ok u) h = printf-Keeps _
  trigger_put-Keeps version next (err e) h = record {
    keep = λ run. elim (Bool-cases (is_already_exists e)) [
      | inl y ↦ rw y (h.keep run)
      | inr n ↦ rw n refl
    ];
  }

  trigger_token-Keeps :
      (version : FunctionVersion) (attempt : ℕ) (next : Exec (Run (World W)) (Unit {0}))
      (r : Result String)
      → Keeps next
      → Keeps (trigger_token (with_memory svc) env version attempt next r)
  trigger_token-Keeps version attempt next (err e) h = search keeps
  trigger_token-Keeps version attempt next (ok token) h =
      bind-Keeps (outcome-Keeps (put_http_trigger-Keeps _))
        (λ r. trigger_put-Keeps version next r h)

  try_tokens-Keeps :
      (left attempt : ℕ) (version : FunctionVersion)
      → Keeps (try_tokens (with_memory svc) env left attempt version)
  unfolding try_tokens
  try_tokens-Keeps zero attempt version = search keeps
  try_tokens-Keeps (suc left) attempt version =
      trigger_token-Keeps version attempt _ (env.token attempt)
        (try_tokens-Keeps left (suc attempt) version)

  triggers_listed-Keeps :
      (version : FunctionVersion) (r : Result (List HttpTrigger))
      → Keeps (triggers_listed (with_memory svc) env version r)
  triggers_listed-Keeps version (err e) = search keeps
  triggers_listed-Keeps version (ok []) = try_tokens-Keeps 3 0 version
  triggers_listed-Keeps version (ok (t ∷ ts)) = printf-Keeps _

  pub ensure-Keeps :
      (version : FunctionVersion)
      → Keeps (ensure_default_http_trigger (with_memory svc) env version)
  unfolding ensure_default_http_trigger
  ensure-Keeps version = search (keeps, list_http_triggers-Keeps, triggers_listed-Keeps)

  warmed-Keeps :
      (version : FunctionVersion) (r : Result (Unit {0}))
      → Keeps (warmed (with_memory svc) env version r)
  warmed-Keeps version (ok u) = printf-Keeps _
  warmed-Keeps version (err e) = printf-Keeps _

  pub warm-Keeps :
      (version : FunctionVersion) (refs : List String)
      (o : Option (FunctionVersion → Exec W (Unit {0})))
      → Keeps (warm (with_memory svc) env version refs (map_option (λ f v. on_rest (f v)) o))
  unfolding warm
  warm-Keeps version refs none = search keeps
  warm-Keeps version [] (some f) = search (keeps, warmed-Keeps)
  warm-Keeps version (r ∷ refs) (some f) = search keeps
