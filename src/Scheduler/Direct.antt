-- ===== src/Scheduler/Direct.antt =====
-- internal/scheduler/service.go: ExecuteDirectStream and PrepareFunctionVersion.
use Prim.Native.String.{◌++◌}
use lecrev.Prelude.{
  ℕ, zero, suc, ◌+◌, String, Bool, true, false, not, ◌||◌, List, [], ◌∷◌, Option, none, some,
  if◌then◌else◌,
}
use lecrev.Prelude.Text.{join}
use mathlib.Core.List.{◌++◌ as append}
use lecrev.Maps.{get}
use lecrev.Errors.{
  Error, ok, err, Exec, pure, raise, outcome, ◌>>=◌, is_no_execution_capacity, is_context_error,
  message, other, no_execution_capacity, direct_invoke_unavailable, function_version_not_ready,
}
use lecrev.Domain.{
  Bytes, Artifact, Assignment, DirectExecutionResult, FunctionVersion, StartMode, is_ready,
}
use lecrev.Scheduler.State.{Service, Env, Dispatcher, OnMeta, OnHttpEvent}
use lecrev.Scheduler.Rank.{Candidate, rank_dispatchers}

abbrev is_given {ℓ} : {A : Type ℓ} → Option A → Bool
is_given none = false
is_given (some a) = true

abbrev direct_assignment : FunctionVersion → Artifact → Bytes → String → String → Assignment
direct_assignment version artifact payload attempt_id job_id = record {
  attempt_id = attempt_id;
  job_id = job_id;
  function_version_id = version.id;
  artifact_digest = version.artifact_digest;
  artifact_bundle_key = artifact.bundle_key;
  entrypoint = version.entrypoint;
  env_vars = version.env_vars;
  env_refs = version.env_refs;
  payload = payload;
  network_policy = version.network_policy;
  timeout_sec = version.timeout_sec;
  memory_mb = version.memory_mb;
}

-- The error after the last candidate, by what was collected on the way.
unfoldable pub direct_error : Bool → List String → List String → Error
direct_error false capacity dispatch = direct_invoke_unavailable
direct_error true capacity (d ∷ ds) = other ("direct invoke failed: " ++ join "; " (d ∷ ds))
direct_error true (c ∷ cs) [] = no_execution_capacity (join "; " (c ∷ cs))
direct_error true [] [] = direct_invoke_unavailable

abbrev may_run_direct : {S : Type 0} → Option (Dispatcher S) → Bool
may_run_direct none = false
may_run_direct (some d) = is_given d.execute_direct || is_given d.execute_direct_stream

module _ {S : Type 0} (svc : Service S) where
  open svc use {db}

  unfoldable pub has_direct_dispatcher : List String → Bool
  has_direct_dispatcher [] = false
  has_direct_dispatcher (region ∷ regions) =
      may_run_direct (get svc.dispatchers region) || has_direct_dispatcher regions

  -- One candidate: streamed where its dispatcher streams, and announced by the caller otherwise.
  abbrev run_direct :
      Dispatcher S
      → (Assignment → Exec S DirectExecutionResult)
      → Assignment
      → OnMeta S
      → OnHttpEvent S
      → Exec S DirectExecutionResult
  run_direct d direct a on_meta on_http = elim d.execute_direct_stream [
    | some stream ↦ stream a on_meta on_http
    | none ↦ λ s.
        direct a (elim on_meta [ none ↦ s | some f ↦ f a.job_id a.attempt_id StartMode.unset s ])
  ]

  unfoldable pub direct_loop :
      FunctionVersion
      → Artifact
      → Bytes
      → List (Candidate S)
      → Bool
      → List String
      → List String
      → ℕ
      → OnMeta S
      → OnHttpEvent S
      → Env
      → Exec S DirectExecutionResult
  unfolding direct_error
  direct_loop version artifact payload [] seen capacity dispatch i on_meta on_http env =
      raise (direct_error seen capacity dispatch)
  direct_loop version artifact payload (c ∷ cs) seen capacity dispatch i on_meta on_http env =
      let skip =
        direct_loop version artifact payload cs seen capacity dispatch i on_meta on_http env in
      let next = λ (capacity' dispatch' : List String).
        direct_loop version artifact payload cs true capacity' dispatch' (suc i) on_meta on_http
          env in
      let a =
        direct_assignment version artifact payload ("direct-attempt-" ++ env.uuid (i + i))
          ("direct-job-" ++ env.uuid (i + i + 1)) in
      elim c.dispatcher.execute_direct [
        | none ↦ skip
        | some direct ↦ do
          answer ← outcome (run_direct c.dispatcher direct a on_meta on_http)
          elim answer [
            | ok result ↦ pure result
            | err e ↦
                if is_context_error e
                then raise e
                else if is_no_execution_capacity e
                then next (append capacity ((c.region ++ (": " ++ message e)) ∷ [])) dispatch
                else next capacity (append dispatch ((c.region ++ (": " ++ message e)) ∷ []))
          ]
      ]

  unfoldable pub execute_direct_stream :
      String → Bytes → OnMeta S → OnHttpEvent S → Env → Exec S DirectExecutionResult
  unfolding has_direct_dispatcher direct_loop
  execute_direct_stream version_id payload on_meta on_http env = do
    version ← db.get_function_version version_id
    if not (is_ready version.state)
        then raise function_version_not_ready
        else if not (has_direct_dispatcher version.regions)
        then raise direct_invoke_unavailable
        else do
          artifact ← db.get_artifact version.artifact_digest
          candidates ← rank_dispatchers svc version env.rank_now
          direct_loop version artifact payload candidates false [] [] 0 on_meta on_http env

  unfoldable pub execute_direct : String → Bytes → Env → Exec S DirectExecutionResult
  unfolding execute_direct_stream
  execute_direct version_id payload env = execute_direct_stream version_id payload none none env

  -- The loop of PrepareFunctionVersion: the errors and the number of successes.
  unfoldable pub prepare_loop :
      FunctionVersion → List String → List String → ℕ → Exec S (List String × ℕ)
  prepare_loop version [] errors successes = pure (errors, successes)
  prepare_loop version (region ∷ regions) errors successes =
      let next = prepare_loop version regions in
      elim (get svc.dispatchers region) [
        | none ↦ next (append errors ((region ++ ": missing dispatcher") ∷ [])) successes
        | some d ↦ elim d.prepare_function_warm [
          | none ↦ next errors successes
          | some prepare ↦ do
            answer ← outcome (prepare version)
            elim answer [
              | ok u ↦ next errors (suc successes)
              | err e ↦ next (append errors ((region ++ (": " ++ message e)) ∷ [])) successes
            ]
        ]
      ]

  abbrev prepared : FunctionVersion → List String × ℕ → Exec S (Unit {0})
  prepared version (errors, suc n) = pure tt
  prepared version ([], zero) = pure tt
  prepared version (e ∷ es, zero) =
      raise (other ("prepare function version " ++ (version.id ++ (": " ++ join "; " (e ∷ es)))))

  unfoldable pub prepare_function_version : Option FunctionVersion → Exec S (Unit {0})
  unfolding prepare_loop
  prepare_function_version none = raise (other "function version is required")
  prepare_function_version (some version) = do
    result ← prepare_loop version version.regions [] 0
    prepared version result
