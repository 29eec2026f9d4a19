-- ===== src/Secrets/Scope.antt =====
-- Secrets are resolved only for the host's own region, for a version that runs there, and among
-- the version's own references.
use lecrev.Prelude.{
  String, ◌≡◌, true, List, ◌∷◌, contains, arith, str_eq, eq_iff, not, if◌then◌else◌,
}
use lecrev.Maps.{Assoc}
use lecrev.Errors.{ok, Exec, bind_ok, raise, access_denied}
use lecrev.Domain.{Host, FunctionVersion}
use lecrev.Store.Backend.{Backend}
use lecrev.Secrets.{
  ExecutionRequest, normalize_secret_refs, all_granted, resolve_execution, resolve_refs, checked,
  granted,
}

-- Where the request names secrets and the resolver answers, the host it names is registered in the
-- region it names, the function version may run there, every secret is one of the version's, and
-- the answer is the provider's for those secrets.
pub resolve_execution-scoped :
    {S : Type 0} (db : Backend S) (resolve : List String → Exec S (Assoc String))
    (req : ExecutionRequest) (s : S) (ref : String) (refs : List String) {values : Assoc String}
    {s' : S}
    → normalize_secret_refs req.secret_refs ≡ ref ∷ refs
    → resolve_execution db resolve req s ≡ (ok values, s')
    → let host_answer = db.get_host req.host_id s in
      let version_answer = db.get_function_version req.function_version_id host_answer.1 in
      (host : Host) × (version : FunctionVersion) × (host_answer.0 ≡ ok host)
      × (host.region ≡ req.region)
      × (version_answer.0 ≡ ok version)
      × (contains version.regions req.region ≡ true)
      × (all_granted version.env_refs (ref ∷ refs) ≡ true)
      × (resolve (ref ∷ refs) version_answer.1 ≡ (ok values, s'))
unfolding resolve_execution
resolve_execution-scoped {S} db resolve req s ref refs {values} {s'} n e =
    let e0 : resolve_refs db resolve req (ref ∷ refs) s ≡ (ok values, s') = ground (arith, n) in
    let (host, h, e1) =
      bind_ok (db.get_host req.host_id)
        (λ host.
          if not (str_eq host.region req.region)
          then raise access_denied
          else checked db resolve req (ref ∷ refs))
        s e0 in
    let e2 : checked db resolve req (ref ∷ refs) (db.get_host req.host_id s).1 ≡ (ok values, s') =
      ground (arith, e1) in
    let (version, v, e3) =
      bind_ok (db.get_function_version req.function_version_id)
        (λ version. granted db resolve req version (ref ∷ refs)) _ e2 in
    (
      host,
      version,
      h,
      ground (arith, e1, eq_iff host.region req.region),
      v,
      ground (arith, e3),
      ground (arith, e3),
      ground (arith, e3),
    )
