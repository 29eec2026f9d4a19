-- ===== src/Api/Reads/Tenants.antt =====
-- What the reading handlers give out stays with its tenant, over the in-memory store.
use lecrev.Prelude.{String, ◌≡◌, ap, Option, some, arith, eq_iff, Option-cases, inl, inr}
use lecrev.Maps.{get}
use lecrev.Errors.{ok, bind_ok}
use lecrev.Domain.{Bytes, DeployRequest, FunctionVersion, Project}
use lecrev.Artifact.Objects.{ObjectStore}
use lecrev.Store.Backend.{World, memory, memory_job_lists}
use lecrev.Api.Auth.{AuthContext, authorized_project}
use lecrev.Api.Auth.Tenants.{MayTouch, found-some}
use lecrev.Api.Reads.{get_deployment_logs, load_authorized_deployment}

module _ {W : Type 0} (objects : ObjectStore (World W)) (auth : AuthContext) where
  project-MayTouch :
      (id : String) (w : World W) {p : Project}
      → (authorized_project memory auth id w).0 ≡ ok p
      → MayTouch auth w.store id
  unfolding authorized_project memory lecrev.Store.Projects.get_project
  project-MayTouch id w {p} e = elim (Option-cases (get w.store.projects id)) [
    | inl h ↦ ground (arith, h)
    | inr (q, h) ↦ (q, h, ground (arith, h, eq_iff q.tenant_id auth.tenant_id))
  ]

  -- The logs of a deployment, be they of its build or of its last execution, go to an admin or to
  -- the tenant of the project of its version, and to nobody else.
  pub deployment_logs-MayTouch :
      (decode : Bytes → Option DeployRequest) (id : String) (w : World W) {bytes : Bytes}
      {w' : World W}
      → get_deployment_logs memory memory_job_lists objects auth decode id w ≡ (ok bytes, w')
      → (v : FunctionVersion) × (get w.store.functions id ≡ some v)
        × MayTouch auth w.store v.project_id
  unfolding get_deployment_logs load_authorized_deployment memory
      lecrev.Store.Artifacts.get_function_version
  deployment_logs-MayTouch decode id w {bytes} {w'} e =
      let load = load_authorized_deployment memory memory_job_lists objects auth decode id in
      let (d, f, g) = bind_ok load _ w e in
      let (v, h, k) = bind_ok (memory.get_function_version id) _ w (ap (λ r. (r, (load w).1)) f) in
      let (p, i, j) = bind_ok (authorized_project memory auth v.project_id) _ w k in
      (v, found-some _ _ _ h, project-MayTouch v.project_id w i)
