-- ===== src/Build/Requests.antt =====
-- internal/build/service.go: the normalisation and validation of a deployment's request.
pub mod Bounds
pub mod Stable
use Prim.Native.String.{◌++◌}
use Prim.Native.Char.{Char, code}
use lecrev.Prelude.{
  ℕ, ◌+◌, ◌*◌, String, Bool, true, false, not, ◌&&◌, ◌||◌, List, [], ◌∷◌, Option, none, some, ltb,
  leb, ◌==◌, if◌then◌else◌, length, str_eq,
}
use lecrev.Prelude.Int.{ℤ, pos, ltb_ℤ}
use lecrev.Prelude.Text.{trim_space, quote}
use lecrev.Prelude.Fold.{equal_fold}
use lecrev.Maps.{Assoc, get}
use lecrev.Errors.{Result, ok, err, other}
use lecrev.Domain.{DeployRequest, DeploySource}
use lecrev.Regions.{normalize_execution_regions}

-- m[key] on a map that may be nil.
abbrev pub value_or_empty : Option String → String
value_or_empty none = ""
value_or_empty (some v) = v

abbrev pub lookup : Assoc String → String → String
lookup m key = value_or_empty (get m key)

unfoldable pub is_website_deploy : DeploySource → Bool
is_website_deploy source =
    equal_fold (trim_space (lookup source.metadata "deliveryKind")) "website"
    || equal_fold (trim_space (lookup source.metadata "framework")) "nextjs"

-- The length in bytes of a text's UTF-8.
unfoldable pub byte_length : String → ℕ
byte_length String.[] = 0
byte_length (String.◌∷◌ c s) =
    (if ltb (code c) 128
      then 1
      else if ltb (code c) 2048
      then 2
      else if ltb (code c) 65536
      then 3
      else 4)
    + byte_length s

abbrev pub fail_if : Bool → String → Result (Unit {0}) → Result (Unit {0})
fail_if bad text next = if bad then err (other text) else next

abbrev is_letter : ℕ → Bool
is_letter n = (leb 65 n && leb n 90) || (leb 97 n && leb n 122)

abbrev is_digit : ℕ → Bool
is_digit n = leb 48 n && leb n 57

-- The characters of a name after its first.
unfoldable pub check_name_rest : String → String → Result (Unit {0})
check_name_rest key String.[] = ok tt
check_name_rest key (String.◌∷◌ c s) =
    fail_if (not (is_letter (code c) || is_digit (code c) || code c == 95))
      ("envVars key "
        ++ (quote key ++ (" contains unsupported character " ++ quote (String.◌∷◌ c String.[]))))
      (check_name_rest key s)

unfoldable pub check_name : String → String → Result (Unit {0})
unfolding check_name_rest
check_name key String.[] = err (other "envVars cannot contain empty keys")
check_name key (String.◌∷◌ c s) =
    fail_if (not (is_letter (code c) || code c == 95))
      ("envVars key " ++ (quote key ++ " must start with a letter or underscore"))
      (check_name_rest key s)

abbrev pub then_check : Result (Unit {0}) → Result (Unit {0}) → Result (Unit {0})
then_check (ok u) next = next
then_check (err e) next = err e

unfoldable pub validate_env_var : String → String → Result (Unit {0})
unfolding check_name
validate_env_var key value = then_check (check_name key (trim_space key)) (
    fail_if (ltb (16 * 1024) (byte_length value))
      ("envVars value for " ++ (quote key ++ " exceeds 16384 bytes")) (ok tt))

unfoldable pub validate_env_vars : Assoc String → Result (Unit {0})
validate_env_vars [] = ok tt
validate_env_vars ((key, value) ∷ rest) =
    then_check (validate_env_var key value) (validate_env_vars rest)

abbrev is_some : Option String → Bool
is_some none = false
is_some (some v) = true

unfoldable pub validate_env_refs : Assoc String → List String → Result (Unit {0})
validate_env_refs env_vars [] = ok tt
validate_env_refs env_vars (ref ∷ refs) =
    fail_if (str_eq (trim_space ref) "") "envRefs cannot contain empty values" (
      fail_if (is_some (get env_vars ref)) ("envRefs cannot overlap envVars key " ++ quote ref)
        (validate_env_refs env_vars refs))

unfoldable pub validate_network_policy : String → Result (Unit {0})
validate_network_policy policy =
    if str_eq policy "none" || str_eq policy "full"
    then ok tt
    else if str_eq policy "allowlist"
    then err (other ("network policy " ++ (quote policy ++ " is not yet supported")))
    else err (other ("unsupported network policy " ++ quote policy))

unfoldable pub validate_source : DeploySource → Result (Unit {0})
validate_source source =
    if str_eq source.source_type "bundle"
    then fail_if (str_eq source.bundle_base64 "" && length source.inline_files == 0)
        "bundle source requires bundleBase64 or inlineFiles" (ok tt)
    else if str_eq source.source_type "git"
    then fail_if (str_eq (trim_space source.git_url) "") "gitUrl is required for git source" (ok tt)
    else err (other ("unsupported source type " ++ quote source.source_type))

unfoldable pub validate_deploy_request : DeployRequest → Result (Unit {0})
validate_deploy_request req =
    fail_if (str_eq (trim_space req.entrypoint) "" && not (str_eq req.source.source_type "git"))
      "entrypoint is required"
      (fail_if (not (str_eq req.runtime "node22"))
        ("unsupported runtime " ++ (quote req.runtime ++ ": only node22 is supported"))
        (fail_if (ltb_ℤ req.memory_mb (pos 64) || ltb_ℤ (pos 4096) req.memory_mb)
          "memoryMb must be between 64 and 4096"
          (fail_if (ltb_ℤ req.timeout_sec (pos 1) || ltb_ℤ (pos 900) req.timeout_sec)
            "timeoutSec must be between 1 and 900"
            (fail_if (ltb_ℤ (pos 10) req.max_retries) "maxRetries must be between 0 and 10" (
              fail_if (ltb 128 (length req.env_refs)) "envRefs cannot exceed 128 entries" (
                fail_if (ltb 128 (length req.env_vars)) "envVars cannot exceed 128 entries" (
                  then_check (validate_env_vars req.env_vars) (
                    then_check (validate_env_refs req.env_vars req.env_refs) (
                      then_check (validate_network_policy req.network_policy)
                        (validate_source req.source))))))))))

abbrev is_zero : ℤ → Bool
is_zero (pos n) = n == 0
is_zero n = false

unfoldable pub runtime_or_default : String → String
runtime_or_default runtime = if str_eq runtime "" then "node22" else runtime

unfoldable pub at_least : Bool → ℤ → ℤ → ℤ
at_least website least n = if website && ltb_ℤ n least then least else n

unfoldable pub int_or : ℤ → ℤ → ℤ
int_or n default = if is_zero n then default else n

-- The policy of a website, then the default.
unfoldable pub policy_or_default : Bool → String → String
policy_or_default website policy =
    if str_eq policy "" || (website && str_eq policy "none") then "full" else policy

-- The assignments of normalizeDeployRequest to the request's fields, but for the regions.
unfoldable pub with_defaults : DeployRequest → DeployRequest
with_defaults req = record req {
  runtime = runtime_or_default req.runtime;
  timeout_sec = at_least (is_website_deploy req.source) (pos 180) (int_or req.timeout_sec (pos 30));
  memory_mb = at_least (is_website_deploy req.source) (pos 2048) (int_or req.memory_mb (pos 128));
  network_policy = policy_or_default (is_website_deploy req.source) req.network_policy;
}

abbrev checked : DeployRequest → Result (Unit {0}) → Result DeployRequest
checked req (ok u) = ok req
checked req (err e) = err e

abbrev regions_checked : DeployRequest → Result (List String) → Result DeployRequest
regions_checked req (err e) = err e
regions_checked req (ok regions) =
    checked (record req { regions = regions })
      (validate_deploy_request (record req { regions = regions }))

unfoldable pub normalize_deploy_request : DeployRequest → Result DeployRequest
normalize_deploy_request req =
    if str_eq req.project_id ""
    then err (other "projectId is required")
    else if str_eq (trim_space req.name) ""
    then err (other "name is required")
    else if ltb_ℤ req.timeout_sec (pos 0)
    then err (other "timeoutSec must be positive")
    else if ltb_ℤ req.memory_mb (pos 0)
    then err (other "memoryMb must be positive")
    else if ltb_ℤ req.max_retries (pos 0)
    then err (other "maxRetries must be zero or greater")
    else regions_checked (with_defaults req) (normalize_execution_regions req.regions)
