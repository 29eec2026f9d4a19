-- ===== src/Api/Triggers.antt =====
-- internal/httpapi/server.go: the handlers that create projects and triggers, and the ones that
-- start executions. A handler answers with a status and what it encodes; of the two that make
-- triggers only the result is modelled.
pub mod Access
use Prim.Native.String.{◌++◌}
use lecrev.Prelude.{ℕ, String, Bool, not, Option, some, if◌then◌else◌, str_eq}
use lecrev.Prelude.Text.{trim_space}
use lecrev.Errors.{
  Error, Result, Exec, ok, err, pure, raise, outcome, lift, ◌>>=◌, ◌>>◌, message,
  function_version_not_ready,
}
use lecrev.Domain.{
  Time, Bytes, Project, FunctionVersion, ExecutionJob, HttpTrigger, HttpTriggerAuthMode,
  WebhookTrigger, is_ready,
}
use lecrev.Store.Backend.{Backend}
use lecrev.Scheduler.{Service, Env}
use lecrev.Scheduler.Admission.{dispatch_execution_idempotent}
use lecrev.Scheduler.Direct.{prepare_function_version}
use lecrev.Api.Status.{error_status}
use lecrev.Api.Auth.{AuthContext, authorized_version, authorize_project, require_admin}
use lecrev.Api.Text.{
  normalize_project_id, normalize_http_trigger_auth_mode, idempotency_key, with_job_latency,
}

pub data Response (A : Type 0) : Type 0 where
  answer : ℕ → A → Response A
  failure : ℕ → String → Response A

abbrev pub Handler : Type 0 → Type 0 → Type 0
Handler S A = S → Response A × S

-- writeJSON, or writeServiceError.
abbrev pub respond : {A : Type 0} → ℕ → Result A → Response A
respond status (ok a) = answer status a
respond status (err e) = failure (error_status e) (message e)

abbrev pub serve : {S A : Type 0} → ℕ → Exec S A → Handler S A
serve status m s = let (r, s') = m s in (respond status r, s')

-- A check of the request that comes with a status of its own.
abbrev pub refuse_if : {S A : Type 0} → Bool → ℕ → String → Handler S A → Handler S A
refuse_if bad status text next s =
    let rest = next s in if bad then (failure status text, s) else rest

-- What follows a check of the request, or the error of the check.
abbrev pub unless_refused : {S A : Type 0} → Result (Unit {0}) → Handler S A → Handler S A
unless_refused (err e) next s = (failure (error_status e) (message e), s)
unless_refused (ok u) next s = next s

abbrev dispatched : {S : Type 0} → Service S → String → Bytes → String → Env → Exec S ExecutionJob
dispatched svc version_id payload key env = do
  job ← dispatch_execution_idempotent svc version_id payload key env
  pure (with_job_latency job)

module _ {S : Type 0} (svc : Service S) (auth : AuthContext) where
  open svc use {db}

  -- The body is decoded already: the id and the name.
  unfoldable pub create_project : String → String → Time → Handler S Project
  create_project id name now =
      let project_id = normalize_project_id (trim_space id) (trim_space name) in
      refuse_if (str_eq (trim_space name) "") 400 "name is required" (
        refuse_if (str_eq project_id "") 400 "project id is required"
          (serve 201 (db.ensure_project project_id auth.tenant_id (trim_space name) now)))

  abbrev ready : FunctionVersion → Exec S (Unit {0})
  ready version = if not (is_ready version.state) then raise function_version_not_ready else pure tt

  abbrev permitted : String → Exec S (Unit {0})
  permitted version_id = do
    version ← db.get_function_version version_id
    ready version
    authorize_project db auth version.project_id

  -- The body is the payload and the key, or the error of its decoding.
  abbrev with_body : String → Result (Bytes × String) → String → Env → Handler S ExecutionJob
  with_body version_id (err e) header_key env s = (failure 400 ("decode request: " ++ message e), s)
  with_body version_id (ok (payload, body_key)) header_key env s =
      serve 202 (dispatched svc version_id payload (idempotency_key header_key body_key) env) s

  unfoldable pub invoke_function :
      String → Result (Bytes × String) → String → Env → Handler S ExecutionJob
  invoke_function version_id body header_key env =
      refuse_if (str_eq version_id "") 400 "missing versionID" (λ (s : S).
        let (allowed, s') = permitted version_id s in
        unless_refused allowed (with_body version_id body header_key env) s')

  abbrev preparation : String → Exec S String
  preparation version_id = do
    version ← db.get_function_version version_id
    ready version
    prepare_function_version svc (some version)
    pure version.id

  -- The answer is the version's identifier.
  unfoldable pub prepare_function : String → Handler S String
  unfolding require_admin
  prepare_function version_id s =
      let (admin, s') = require_admin db auth s in
      unless_refused admin
        (refuse_if (str_eq version_id "") 400 "missing versionID"
          (serve 202 (preparation version_id)))
        s'

  abbrev or_token : String → Result String → Result String
  or_token text generated = if str_eq (trim_space text) "" then generated else ok (trim_space text)

  abbrev webhook_trigger : FunctionVersion → String → String → Time → WebhookTrigger
  webhook_trigger version token description now = record {
    token = token;
    project_id = version.project_id;
    function_version_id = version.id;
    description = trim_space description;
    enabled = Bool.true;
    created_at = now;
  }

  -- The body's token and description, and the token drawn if there is none.
  unfoldable pub create_webhook_trigger :
      String → String → String → Result String → Time → Exec S WebhookTrigger
  create_webhook_trigger version_id text description generated now = do
    version ← authorized_version db auth version_id
    token ← lift (or_token text generated)
    db.put_webhook_trigger (webhook_trigger version token description now)
    pure (webhook_trigger version token description now)

  abbrev http_trigger : FunctionVersion → String → String → HttpTriggerAuthMode → Time → HttpTrigger
  http_trigger version token description mode now = record {
    token = token;
    project_id = version.project_id;
    function_version_id = version.id;
    description = trim_space description;
    auth_mode = mode;
    enabled = Bool.true;
    created_at = now;
  }

  abbrev after_version :
      String → String → String → Result String → Time → FunctionVersion → Exec S HttpTrigger
  after_version text description mode generated now version = do
    ready version
    token ← lift (or_token text generated)
    auth_mode ← lift (normalize_http_trigger_auth_mode mode)
    db.put_http_trigger (http_trigger version token description auth_mode now)
    pure (http_trigger version token description auth_mode now)

  unfoldable pub create_http_trigger :
      String → String → String → String → Result String → Time → Exec S HttpTrigger
  create_http_trigger version_id text description mode generated now = do
    version ← authorized_version db auth version_id
    after_version text description mode generated now version

-- The invocation of a webhook, which needs no key: its token is the secret.
module _ {S : Type 0} (svc : Service S) where
  open svc use {db}

  abbrev paid : Result Bytes → WebhookTrigger → String → Env → Handler S ExecutionJob
  paid (err e) t header_key env s = (failure 400 (message e), s)
  paid (ok payload) t header_key env s =
      serve 202 (dispatched svc t.function_version_id payload (idempotency_key header_key "") env) s

  abbrev hook_found : Result Bytes → String → Env → Result WebhookTrigger → Handler S ExecutionJob
  hook_found payload header_key env (err e) s = (failure 404 "webhook trigger not found", s)
  hook_found payload header_key env (ok t) s =
      refuse_if (not t.enabled) 404 "webhook trigger not found" (paid payload t header_key env) s

  -- buildWebhookPayload, which reads the request, is a parameter.
  unfoldable pub invoke_webhook : String → Result Bytes → String → Env → Handler S ExecutionJob
  invoke_webhook token payload header_key env s =
      let (found, s') = db.get_webhook_trigger token s in hook_found payload header_key env found s'
