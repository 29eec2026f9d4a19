-- ===== src/Secrets.antt =====
-- internal/secrets: which host may resolve which secrets for an execution.
pub mod Scope
use mathlib.Core.List.{◌++◌ as append}
use lecrev.Prelude.{
  ℕ, String, Bool, true, false, not, ◌&&◌, none, some, List, [], ◌∷◌, contains, str_eq,
  if◌then◌else◌,
}
use Prim.Native.String.{◌++◌, len, slice}
use text.Mathlib.Text.{starts_with}
use lecrev.Prelude.Text.{quote, trim_space}
use lecrev.Maps.{Assoc, get, put}
use lecrev.Errors.{
  Error, Result, ok, err, Exec, pure, raise, ◌>>=◌, access_denied, is_access_denied, is_not_found,
  other,
}
use lecrev.Domain.{FunctionVersion}
use lecrev.Store.Backend.{Backend}

pub record ExecutionRequest : Type 0 where
  pub host_id : String
  pub region : String
  pub function_version_id : String
  pub secret_refs : List String

-- func normalizeSecretRefs, whose `seen` holds what `out` holds.
unfoldable pub normalize_loop : List String → List String → List String
normalize_loop [] out = out
normalize_loop (ref ∷ refs) out =
    let trimmed = trim_space ref in
    let skip = normalize_loop refs out in
    let keep = normalize_loop refs (append out (trimmed ∷ [])) in
    if str_eq trimmed "" then skip else if contains out trimmed then skip else keep

unfoldable pub normalize_secret_refs : List String → List String
unfolding normalize_loop
normalize_secret_refs refs = normalize_loop refs []

-- Every reference is one of the version's.
unfoldable pub all_granted : List String → List String → Bool
all_granted granted [] = true
all_granted granted (ref ∷ refs) = contains granted ref && all_granted granted refs

-- (*MemoryProvider).Resolve.
unfoldable pub memory_resolve : Assoc String → List String → Assoc String → Result (Assoc String)
memory_resolve items [] out = ok out
memory_resolve items (ref ∷ refs) out = elim (get items ref) [
  | none ↦ err (other ("secret ref " ++ (quote ref ++ " not found")))
  | some value ↦ memory_resolve items refs (put out ref value)
]

module _ {S : Type 0} (db : Backend S) (resolve : List String → Exec S (Assoc String)) where
  -- The answer for a version that was found, for a host that was, and for the references.
  abbrev pub granted : ExecutionRequest → FunctionVersion → List String → Exec S (Assoc String)
  granted req version refs =
      if not (contains version.regions req.region)
      then raise access_denied
      else if not (all_granted version.env_refs refs)
      then raise access_denied
      else resolve refs

  abbrev pub checked : ExecutionRequest → List String → Exec S (Assoc String)
  checked req refs = do
    version ← db.get_function_version req.function_version_id
    granted req version refs

  abbrev pub resolve_refs : ExecutionRequest → List String → Exec S (Assoc String)
  resolve_refs req [] = pure []
  resolve_refs req (ref ∷ refs) = do
    host ← db.get_host req.host_id
    if not (str_eq host.region req.region) then raise access_denied else checked req (ref ∷ refs)

  -- (*ScopedResolver).ResolveExecution; `resolve` is the provider.
  unfoldable pub resolve_execution : ExecutionRequest → Exec S (Assoc String)
  unfolding normalize_secret_refs all_granted
  resolve_execution req =
      if str_eq (trim_space req.host_id) ""
      then raise (other "hostId is required")
      else if str_eq (trim_space req.region) ""
      then raise (other "region is required")
      else if str_eq (trim_space req.function_version_id) ""
      then raise (other "functionVersionId is required")
      else resolve_refs req (normalize_secret_refs req.secret_refs)

-- authorizedProxyToken.
unfoldable pub authorized_proxy_token : String → String → Bool
authorized_proxy_token header expected =
    let token = trim_space expected in
    if str_eq token ""
    then false
    else if not (starts_with header "Bearer ")
    then false
    else str_eq (trim_space (slice header 7 (len header))) token

-- The status code of (*ProxyHandler).ServeHTTP for an error of the resolver.
unfoldable pub error_status : Error → ℕ
error_status e = if is_access_denied e then 403 else if is_not_found e then 404 else 400
