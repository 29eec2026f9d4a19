-- ===== src/Build/Create/Replay.antt =====
-- A deployment that is repeated under its idempotency key, over the in-memory store.
use lecrev.Prelude.{String, ◌≡◌, ap, some, false, arith, str_eq, eq_refl, Option-cases, inl, inr}
use lecrev.Maps.{get, get-put, put}
use lecrev.Errors.{Exec, ok, Result-cases}
use lecrev.Domain.{DeployRequest, FunctionVersion, IdempotencyRecord, IdempotencyStatus}
use lecrev.Store.Idempotency.{idempotency_key}
use lecrev.Store.Backend.{World, memory}
use lecrev.Build.State.{Service, Env, BuildAssignment, with_memory}
use lecrev.Build.Create.{
  create_function_version_idempotent, create_version, replay_function_version, deploy_record,
  deploy_request_hash,
}
use lecrev.Build.Create.Quota.{create-IsQueued}

module _ {W : Type 0} (svc : Service W) where
  -- A replay returns a stored version and writes nothing.
  replay-pure :
      (project key hash : String) (w : World W) {v : FunctionVersion} {w' : World W}
      → replay_function_version (with_memory svc) project key hash w ≡ (ok v, w')
      → w' ≡ w
  unfolding replay_function_version memory lecrev.Store.Idempotency.get_idempotency_record
      lecrev.Store.Artifacts.get_function_version
  replay-pure project key hash w e = ground arith

  -- In a service that has a build bus, a deployment that succeeded under its key gives the same
  -- version when it is made again, with whatever later times and fresh identifiers, and the second
  -- call writes nothing.
  pub create_twice :
      (f : String → BuildAssignment → Exec W (Unit {0})) (req : DeployRequest) (env env' : Env)
      (w : World W) {v : FunctionVersion} {w' : World W}
      → svc.publish_build ≡ some f
      → str_eq (env.uuid 0) "" ≡ false
      → create_function_version_idempotent (with_memory svc) req env w ≡ (ok v, w')
      → create_function_version_idempotent (with_memory svc) req env' w' ≡ (ok v, w')
  unfolding create_function_version_idempotent replay_function_version memory
      lecrev.Store.Idempotency.get_idempotency_record lecrev.Store.Artifacts.get_function_version
      lecrev.Store.Idempotency.create_idempotency_record
      lecrev.Store.Idempotency.update_idempotency_record
      lecrev.Store.Idempotency.delete_idempotency_record
  create_twice f req env env' w {v} {w'} b u e =
      elim (Result-cases (deploy_request_hash (with_memory svc) req)) [
        | inl (x, n) ↦ ground (arith, n)
        | inr (hash, n) ↦
            let r = deploy_record req.project_id req.idempotency_key hash (env.now 6) in
            let K = idempotency_key "deploy" req.project_id req.idempotency_key in
            let w1 : World W = record w {
              store = record w.store { idempotency = put w.store.idempotency K r };
            } in
            elim (Option-cases (get w.store.idempotency K)) [
              | inr (old, h) ↦ ground (arith, n, h)
              | inl h ↦ elim (Result-cases (create_version (with_memory svc) req env w1).0) [
                | inl (x, c) ↦ ground (arith, n, h, c)
                | inr (made, c) ↦
                    let w2 = (create_version (with_memory svc) req env w1).1 in
                    let q =
                      create-IsQueued svc env f req w1 {v = made} {w' = w2} b
                        (ap (λ t. (t, w2)) c) in
                    let done : IdempotencyRecord = record r {
                      resource_id = made.id;
                      status = IdempotencyStatus.completed;
                      updated_at = env.now 7;
                    } in
                    let s = q.stored_version in
                    let i = q.version_id in
                    ground (
                      arith,
                      n,
                      h,
                      c,
                      s,
                      i,
                      u,
                      eq_refl K,
                      eq_refl hash,
                      get-put w2.store.idempotency K K done,
                    )
              ]
            ]
      ]
