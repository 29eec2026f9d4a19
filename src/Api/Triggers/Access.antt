-- ===== src/Api/Triggers/Access.antt =====
-- Who may start executions and make triggers, over the in-memory store.
use lecrev.Prelude.{
  String, true, false, ◌≡◌, refl, ap, ◌∙◌, subst, none, some, arith, str_eq, eq_refl, Option-cases,
  inl, inr,
}
use lecrev.Maps.{get, put, get-put}
use lecrev.Errors.{Result, Result-cases, ok, bind_ok, message}
use lecrev.Domain.{Bytes, Time, FunctionVersion, Project, HttpTrigger, WebhookTrigger, is_ready}
use lecrev.Store.Backend.{World, memory}
use lecrev.Scheduler.{Service, Env}
use lecrev.Scheduler.Admission.Quota.{with_memory}
use lecrev.Api.Status.{error_status}
use lecrev.Api.Auth.{AuthContext, authorized_version, authorized_project, authorize_project}
use lecrev.Api.Auth.Tenants.{MayTouch, authorized_version-MayTouch}
use lecrev.Api.Text.{normalize_http_trigger_auth_mode}
use lecrev.Api.Triggers.{
  invoke_function, create_http_trigger, invoke_webhook, failure, http_trigger, or_token,
  after_version,
}

module _ {W : Type 0} (svc : Service (World W)) where
  -- The invocation of a ready version by a request of another tenant, which is not an admin's, is
  -- refused with the status 403 and starts nothing.
  pub invoke-foreign :
      (auth : AuthContext) (id : String) (body : Result (Bytes × String)) (header : String)
      (env : Env) (w : World W) (v : FunctionVersion) (p : Project)
      → str_eq id "" ≡ false
      → get w.store.functions id ≡ some v
      → is_ready v.state ≡ true
      → get w.store.projects v.project_id ≡ some p
      → auth.is_admin ≡ false
      → str_eq p.tenant_id auth.tenant_id ≡ false
      → invoke_function (with_memory svc) auth id body header env w
        ≡ (failure 403 "access denied", w)
  unfolding invoke_function authorize_project authorized_project memory error_status message
      lecrev.Store.Artifacts.get_function_version lecrev.Store.Projects.get_project
  invoke-foreign auth id body header env w v p n f r k a t = ground (arith, n, f, r, k, a, t)

  -- A webhook that is unknown or disabled answers 404 and starts nothing.
  webhook-disabled :
      (token header : String) (payload : Result Bytes) (env : Env) (w : World W)
      → ((t : WebhookTrigger) → get w.store.webhook_triggers token ≡ some t → t.enabled ≡ false)
      → invoke_webhook (with_memory svc) token payload header env w
        ≡ (failure 404 "webhook trigger not found", w)
  unfolding invoke_webhook memory lecrev.Store.Triggers.get_webhook_trigger
  webhook-disabled token header payload env w h =
      elim (Option-cases (get w.store.webhook_triggers token)) [
        | inl n ↦ rw n refl
        | inr (t, n) ↦ rw (n, h t n) refl
      ]

  -- What follows the authorisation of an HTTP trigger's version.
  put_trigger_lem :
      (auth : AuthContext) (v : FunctionVersion) (text description mode : String)
      (drawn : Result String) (now : Time) (w : World W) {t : HttpTrigger} {w' : World W}
      → after_version (with_memory svc) auth text description mode drawn now v w ≡ (ok t, w')
      → (t.project_id ≡ v.project_id)
        × (t.function_version_id ≡ v.id)
        × (get w'.store.http_triggers t.token ≡ some t)
        × (get w.store.http_triggers t.token ≡ none)
  unfolding memory lecrev.Store.Triggers.put_http_trigger
  put_trigger_lem auth v text description mode drawn now w {t} {w'} e =
      elim (Result-cases (or_token (with_memory svc) auth text drawn)) [
        | inl (x, k) ↦ ground (arith, k)
        | inr (token, k) ↦ elim (Result-cases (normalize_http_trigger_auth_mode mode)) [
          | inl (x, l) ↦ ground (arith, k, l)
          | inr (m, l) ↦ elim (Option-cases (get w.store.http_triggers token)) [
            | inr (old, o) ↦ ground (arith, k, l, o)
            | inl o ↦
                let new = http_trigger (with_memory svc) auth v token description m now in
                let a : t ≡ new = ground (arith, k, l, o) in
                let b : w'.store.http_triggers ≡ put w.store.http_triggers token new =
                  ground (arith, k, l, o) in
                (
                  ap (λ (x : HttpTrigger). x.project_id) a,
                  ap (λ (x : HttpTrigger). x.function_version_id) a,
                  ground
                      (arith, a, b, eq_refl token, get-put w.store.http_triggers token token new),
                  ap (λ (x : HttpTrigger). get w.store.http_triggers x.token) a ∙ o,
                )
          ]
        ]
      ]

  -- A trigger that is made is one of the version that was asked for, whose project the request may
  -- touch, and it is stored under a token that was free.
  pub create_http_trigger-MayTouch :
      (auth : AuthContext) (id text description mode : String) (drawn : Result String) (now : Time)
      (w : World W) {t : HttpTrigger} {w' : World W}
      → create_http_trigger (with_memory svc) auth id text description mode drawn now w ≡ (ok t, w')
      → ((v : FunctionVersion) × (get w.store.functions id ≡ some v)
          × (t.function_version_id ≡ v.id)
          × (t.project_id ≡ v.project_id)
          × MayTouch auth w.store v.project_id)
        × (get w'.store.http_triggers t.token ≡ some t)
        × (get w.store.http_triggers t.token ≡ none)
  unfolding create_http_trigger
  create_http_trigger-MayTouch auth id text description mode drawn now w {t} {w'} e =
      let next = after_version (with_memory svc) auth text description mode drawn now in
      let (v, f, g) = bind_ok (authorized_version memory auth id) next w e in
      let w1 = (authorized_version memory auth id w).1 in
      let (same, stored, may) =
        authorized_version-MayTouch auth id w {v = v} {w' = w1} (ap (λ r. (r, w1)) f) in
      let (p, i, q, r) =
        put_trigger_lem auth v text description mode drawn now w1 {t = t} {w' = w'} g in
      (
        (v, stored, i, p, may),
        q,
        subst (λ (x : World W). get x.store.http_triggers t.token ≡ none) same r,
      )
