-- ===== src/Api/Auth/Tenants.antt =====
-- Tenants are kept apart, over the in-memory store.
use lecrev.Prelude.{
  String, true, false, ◌≡◌, ◌⊎◌, sym, ap, ◌∙◌, subst, Option, none, some, arith, eq_iff,
  Option-cases, inl, inr,
}
use lecrev.Prelude.Text.{trim_space}
use lecrev.Maps.{get, put}
use lecrev.Errors.{ok, bind_ok, pure, ◌>>◌}
use lecrev.Domain.{Project, ApiKey, ExecutionJob, BuildJob, FunctionVersion, Time}
use lecrev.Store.{Store, found}
use lecrev.Store.Backend.{World, memory}
use lecrev.Api.Auth.{
  AuthContext, authenticate_api_key, authorized_project, authorize_project, authorized_job,
  authorized_build_job, authorized_version, ensure_authorized_project,
}

pub found-some :
    {V : Type 0} (entity key : String) (o : Option V) {v : V}
    → found entity key o ≡ ok v
    → o ≡ some v
found-some entity key none e = cc e
found-some entity key (some v) e = ground (arith, e)

-- The project is stored, and belongs to the request's tenant unless the request is an admin's.
abbrev pub MayTouch : AuthContext → Store → String → Type 0
MayTouch auth s project_id =
    (project : Project) × (get s.projects project_id ≡ some project)
    × ((auth.is_admin ≡ true) ⊎ (project.tenant_id ≡ auth.tenant_id))

module _ {W : Type 0} (auth : AuthContext) where
  authorize_lem :
      (id : String) (w : World W) {u : Unit {0}} {w' : World W}
      → authorize_project memory auth id w ≡ (ok u, w')
      → (w' ≡ w) × MayTouch auth w.store id
  unfolding authorize_project authorized_project memory lecrev.Store.Projects.get_project
  authorize_lem id w {u} {w'} e = elim (Option-cases (get w.store.projects id)) [
    | inl h ↦ ground (arith, h)
    | inr (p, h) ↦ (ground (arith, h), (p, h, ground (arith, h, eq_iff p.tenant_id auth.tenant_id)))
  ]

  -- A lookup that is followed by the authorisation of a project.
  guarded_lem :
      {A : Type 0} (id : String) (a : A) (w : World W) {b : A} {w' : World W}
      → (authorize_project memory auth id >> pure a) w ≡ (ok b, w')
      → (b ≡ a) × (w' ≡ w) × MayTouch auth w.store id
  guarded_lem id a w {b} {w'} e =
      let (u, h, k) = bind_ok (authorize_project memory auth id) (λ u. pure a) w e in
      let next = (authorize_project memory auth id w).1 in
      let (same, may) = authorize_lem id w {u = u} {w' = next} (ap (λ r. (r, next)) h) in
      (ground (arith, k), ground (arith, k, same), may)

  -- A request gets an execution job only of a project of its own tenant, unless it is an admin's,
  -- and the lookup writes nothing.
  pub authorized_job-MayTouch :
      (id : String) (w : World W) {job : ExecutionJob} {w' : World W}
      → authorized_job memory auth id w ≡ (ok job, w')
      → (w' ≡ w) × (get w.store.execution_jobs id ≡ some job) × MayTouch auth w.store job.project_id
  unfolding authorized_job memory lecrev.Store.Jobs.get_execution_job
  authorized_job-MayTouch id w {job} {w'} e =
      let (j, f, g) = bind_ok (memory.get_execution_job id) _ w e in
      let (a, b, c) = guarded_lem j.project_id j w {b = job} {w' = w'} g in
      (
        b,
        found-some _ _ _ f ∙ ap some (sym a),
        subst (λ (x : ExecutionJob). MayTouch auth w.store x.project_id) (sym a) c,
      )

  -- The same holds of a function version.
  pub authorized_version-MayTouch :
      (id : String) (w : World W) {v : FunctionVersion} {w' : World W}
      → authorized_version memory auth id w ≡ (ok v, w')
      → (w' ≡ w) × (get w.store.functions id ≡ some v) × MayTouch auth w.store v.project_id
  unfolding authorized_version memory lecrev.Store.Artifacts.get_function_version
  authorized_version-MayTouch id w {v} {w'} e =
      let (j, f, g) = bind_ok (memory.get_function_version id) _ w e in
      let (a, b, c) = guarded_lem j.project_id j w {b = v} {w' = w'} g in
      (
        b,
        found-some _ _ _ f ∙ ap some (sym a),
        subst (λ (x : FunctionVersion). MayTouch auth w.store x.project_id) (sym a) c,
      )

  -- And of a build job: what comes with it is the stored version that it builds, whose project the
  -- request may touch.
  pub authorized_build_job-MayTouch :
      (id : String) (w : World W) {r : BuildJob × FunctionVersion} {w' : World W}
      → authorized_build_job memory auth id w ≡ (ok r, w')
      → (w' ≡ w)
        × (get w.store.build_jobs id ≡ some r.0)
        × (get w.store.functions r.0.function_version_id ≡ some r.1)
        × MayTouch auth w.store r.1.project_id
  unfolding authorized_build_job memory lecrev.Store.Artifacts.get_function_version
      lecrev.Store.Artifacts.get_build_job
  authorized_build_job-MayTouch id w {r} {w'} e =
      let (j, f, g) = bind_ok (memory.get_build_job id) _ w e in
      let (v, f', g') = bind_ok (memory.get_function_version j.function_version_id) _ w g in
      let (a, b, c) = guarded_lem v.project_id (j, v) w {b = r} {w' = w'} g' in
      (
        b,
        found-some _ _ _ f ∙ ap (λ (t : BuildJob × FunctionVersion). some t.0) (sym a),
        subst
            (λ (x : BuildJob × FunctionVersion).
              get w.store.functions x.0.function_version_id ≡ some x.1)
            (sym a) (found-some _ _ _ f'),
        subst (λ (x : BuildJob × FunctionVersion). MayTouch auth w.store x.1.project_id) (sym a) c,
      )

  -- A project that a deployment goes to is the tenant's own, or an admin asks. Either nothing was
  -- stored under its identifier, or it is the stored project and nothing is written.
  pub ensure-own :
      (id name : String) (now : Time) (w : World W) {p : Project} {w' : World W}
      → ensure_authorized_project memory auth id name now w ≡ (ok p, w')
      → ((auth.is_admin ≡ true) ⊎ (p.tenant_id ≡ auth.tenant_id))
        × ((get w.store.projects id ≡ none) ⊎ ((get w.store.projects id ≡ some p) × (w' ≡ w)))
  unfolding ensure_authorized_project memory lecrev.Store.Projects.get_project
      lecrev.Store.Projects.ensure_project
  ensure-own id name now w {p} {w'} e = elim (Option-cases (get w.store.projects id)) [
    | inl h ↦ (inr (ground (arith, h)), inl h)
    | inr (q, h) ↦ (
      ground (arith, h, eq_iff p.tenant_id auth.tenant_id),
      inr (ground (arith, h), ground (arith, h)),
    )
  ]

-- A request is authenticated only by a stored key that is not disabled, and gets that key's tenant
-- and rights; nothing but the key's last use is written.
pub authenticate-stored :
    {W : Type 0} (hash : String → String) (raw : String) (now : Time) (w : World W)
    {ctx : AuthContext} {w' : World W}
    → authenticate_api_key memory hash raw now w ≡ (ok ctx, w')
    → (key : ApiKey) × (get w.store.api_keys (hash (trim_space raw)) ≡ some key)
      × (key.disabled ≡ false)
      × (ctx ≡ record { tenant_id = key.tenant_id; is_admin = key.is_admin })
      × (w' ≡ record w {
        store = record w.store {
          api_keys =
              put w.store.api_keys (hash (trim_space raw)) (record key { last_used_at = now });
        };
      })
unfolding authenticate_api_key memory lecrev.Store.Projects.get_api_key_by_hash
    lecrev.Store.Projects.touch_api_key_last_used
authenticate-stored hash raw now w {ctx} {w'} e =
    elim (Option-cases (get w.store.api_keys (hash (trim_space raw)))) [
      | inl h ↦ ground (arith, h)
      | inr (key, h) ↦ (key, h, ground (arith, h), ground (arith, h), ground (arith, h))
    ]
