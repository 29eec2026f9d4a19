-- ===== src/Build/Requests/Bounds.antt =====
-- What an accepted deployment request is.
use lecrev.Prelude.{
  ◌≤◌, String, ◌≡◌, ◌⊎◌, ◌≢◌, refl, sym, ap, subst, [], false, inl, inr, arith, str_eq, eq_iff,
  length, List, ℕ, Bool, leb, ◌&&◌, ◌||◌, ◌==◌, All, ◌∷◌, none, Option-cases, Bool-cases, true,
}
use lecrev.Prelude.Int.{pos, ◌≤ℤ◌, ltb_ℤ}
use lecrev.Prelude.Text.{trim_space}
use lecrev.Errors.{Result, ok, err, Result-cases}
use lecrev.Domain.{DeployRequest, DeploySource}
use lecrev.Maps.{Assoc, get}
use Prim.Native.Char.{code}
use lecrev.Regions.{normalize_execution_regions}
use lecrev.Regions.Normal.{AllKnown, IsUnique, normalize_regions-good}
use lecrev.Build.Requests.{
  normalize_deploy_request, validate_deploy_request, validate_network_policy, with_defaults,
  regions_checked, check_name_rest, check_name, validate_env_var, validate_env_vars,
  validate_env_refs, validate_source, byte_length,
}

-- The characters of a variable's name: letters, digits and the underscore, no digit first.
abbrev is_name_start : ℕ → Bool
is_name_start n = leb 65 n && leb n 90 || leb 97 n && leb n 122 || n == 95

abbrev is_name_part : ℕ → Bool
is_name_part n = is_name_start n || leb 48 n && leb n 57

abbrev pub IsNameRest : String → Type 0
IsNameRest String.[] = Unit
IsNameRest (String.◌∷◌ c s) = (is_name_part (code c) ≡ true) × IsNameRest s

abbrev pub IsName : String → Type 0
IsName String.[] = ⊥
IsName (String.◌∷◌ c s) = (is_name_start (code c) ≡ true) × IsNameRest s

abbrev pub IsVariable : String × String → Type 0
IsVariable (key, value) = IsName (trim_space key) × (byte_length value ≤ 16384)

abbrev pub IsReference : Assoc String → String → Type 0
IsReference vars ref = (trim_space ref ≢ "") × (get vars ref ≡ none)

-- A bundle that is given, or an address of a repository.
abbrev pub IsSource : DeploySource → Type 0
IsSource source =
    ((source.source_type ≡ "bundle")
      × ((source.bundle_base64 ≢ "") ⊎ (1 ≤ length source.inline_files)))
    ⊎ ((source.source_type ≡ "git") × (trim_space source.git_url ≢ ""))

-- The limits that validateDeployRequest sets.
pub record IsAccepted (req : DeployRequest) : Type 0 where
  runtime : req.runtime ≡ "node22"
  pub memory_least : pos 64 ≤ℤ req.memory_mb
  memory_most : req.memory_mb ≤ℤ pos 4096
  pub timeout_least : pos 1 ≤ℤ req.timeout_sec
  timeout_most : req.timeout_sec ≤ℤ pos 900
  retries_most : req.max_retries ≤ℤ pos 10
  refs_most : length req.env_refs ≤ 128
  vars_most : length req.env_vars ≤ 128
  policy : (req.network_policy ≡ "none") ⊎ (req.network_policy ≡ "full")
  variables : All IsVariable req.env_vars
  references : All (IsReference req.env_vars) req.env_refs
  source_given : IsSource req.source
  entrypoint : (trim_space req.entrypoint ≢ "") ⊎ (req.source.source_type ≡ "git")

rest_lem : (key s : String) {u : Unit {0}} → check_name_rest key s ≡ ok u → IsNameRest s
unfolding check_name_rest
rest_lem key String.[] e = tt
rest_lem key (String.◌∷◌ c s) e = (ground arith, rest_lem key s (ground arith))

name_lem : (key s : String) {u : Unit {0}} → check_name key s ≡ ok u → IsName s
unfolding check_name
name_lem key String.[] e = cc e
name_lem key (String.◌∷◌ c s) e = (ground arith, rest_lem key s (ground arith))

variable_lem :
    (key value : String) {u : Unit {0}}
    → validate_env_var key value ≡ ok u
    → IsVariable (key, value)
unfolding validate_env_var
variable_lem key value e = elim (Result-cases (check_name key (trim_space key))) [
  | inl (x, h) ↦ ground (arith, h)
  | inr (u, h) ↦ (name_lem key (trim_space key) h, ground (arith, h))
]

variables_lem :
    (vars : Assoc String) {u : Unit {0}} → validate_env_vars vars ≡ ok u → All IsVariable vars
unfolding validate_env_vars
variables_lem [] e = tt
variables_lem ((key, value) ∷ vars) e = elim (Result-cases (validate_env_var key value)) [
  | inl (x, h) ↦ ground (arith, h)
  | inr (u, h) ↦ (variable_lem key value h, variables_lem vars (ground (arith, h)))
]

nonempty : (s : String) → str_eq s "" ≡ false → s ≢ ""
nonempty s e h = ground (arith, e, eq_iff s "", h)

references_lem :
    (vars : Assoc String) (refs : List String) {u : Unit {0}}
    → validate_env_refs vars refs ≡ ok u
    → All (IsReference vars) refs
unfolding validate_env_refs
references_lem vars [] e = tt
references_lem vars (ref ∷ refs) e = (
  (nonempty (trim_space ref) (ground arith), ground (arith, Option-cases (get vars ref))),
  references_lem vars refs (ground arith),
)

source_lem :
    (source : DeploySource) {u : Unit {0}} → validate_source source ≡ ok u → IsSource source
unfolding validate_source
source_lem source e = elim (Bool-cases (str_eq source.source_type "bundle")) [
  | inl b ↦ inl (
    ground (arith, b, eq_iff source.source_type "bundle"),
    elim (Bool-cases (str_eq source.bundle_base64 "")) [
      | inl c ↦ inr (ground (arith, b, c))
      | inr c ↦ inl (nonempty source.bundle_base64 c)
    ],
  )
  | inr b ↦ inr (
    ground (arith, b, eq_iff source.source_type "git"),
    nonempty (trim_space source.git_url) (ground (arith, b)),
  )
]

entrypoint_lem :
    (req : DeployRequest) {u : Unit {0}}
    → validate_deploy_request req ≡ ok u
    → (trim_space req.entrypoint ≢ "") ⊎ (req.source.source_type ≡ "git")
unfolding validate_deploy_request
entrypoint_lem req e = elim (Bool-cases (str_eq (trim_space req.entrypoint) "")) [
  | inl b ↦ inr (ground (arith, b, eq_iff req.source.source_type "git"))
  | inr b ↦ inl (nonempty (trim_space req.entrypoint) b)
]

policy_lem :
    (p : String) {u : Unit {0}} → validate_network_policy p ≡ ok u → (p ≡ "none") ⊎ (p ≡ "full")
unfolding validate_network_policy
policy_lem p e = ground (arith, eq_iff p "none", eq_iff p "full")

validate-IsAccepted :
    (req : DeployRequest) {u : Unit {0}} → validate_deploy_request req ≡ ok u → IsAccepted req
unfolding validate_deploy_request
validate-IsAccepted req e = record {
  runtime = ground (arith, eq_iff req.runtime "node22");
  memory_least = ground arith;
  memory_most = ground arith;
  timeout_least = ground arith;
  timeout_most = ground arith;
  retries_most = ground arith;
  refs_most = ground arith;
  vars_most = ground arith;
  policy = ground (arith, policy_lem req.network_policy);
  variables = variables_lem req.env_vars (ground arith);
  references = references_lem req.env_vars req.env_refs (ground arith);
  source_given = source_lem req.source (ground arith);
  entrypoint = entrypoint_lem req e;
}

regions_checked-ok :
    (req : DeployRequest) (r : Result (List String)) {out : DeployRequest}
    → regions_checked req r ≡ ok out
    → (regions : List String) × (r ≡ ok regions)
      × (out ≡ record req { regions = regions })
      × (validate_deploy_request out ≡ ok tt)
regions_checked-ok req (err x) e = cc e
regions_checked-ok req (ok regions) e =
    elim (Result-cases (validate_deploy_request (record req { regions = regions }))) [
      | inl (x, h) ↦ ground (arith, h)
      | inr (u, h) ↦ (regions, refl, ground (arith, h), ground (arith, h))
    ]

-- What an accepted request was made from, and that its last form passed the validation.
pub normalize-parts :
    (req : DeployRequest) {out : DeployRequest}
    → normalize_deploy_request req ≡ ok out
    → (str_eq req.project_id "" ≡ false)
      × (str_eq (trim_space req.name) "" ≡ false)
      × (ltb_ℤ req.max_retries (pos 0) ≡ false)
      × ((regions : List String) × (normalize_execution_regions req.regions ≡ ok regions)
          × (out ≡ record (with_defaults req) { regions = regions })
          × (validate_deploy_request out ≡ ok tt))
unfolding normalize_deploy_request
normalize-parts req {out} e = (
  ground arith,
  ground arith,
  ground arith,
  regions_checked-ok (with_defaults req) (normalize_execution_regions req.regions) {out = out}
      (ground arith),
)

-- What a request that is accepted becomes satisfies all of IsAccepted: the supported runtime and
-- network policies, the bounds on memory, time, retries and on the numbers of variables and
-- references, variables with valid names and short values, references that are not blank and not
-- variables, a source and an entrypoint. Its retries are not negative, its project and its name are
-- not blank, and its regions are of the catalogue, one at least and none twice.
pub normalize-IsAccepted :
    (req : DeployRequest) {out : DeployRequest}
    → normalize_deploy_request req ≡ ok out
    → IsAccepted out
      × (pos 0 ≤ℤ out.max_retries)
      × (out.project_id ≢ "")
      × (trim_space out.name ≢ "")
      × (out.regions ≢ [])
      × AllKnown out.regions
      × IsUnique out.regions
unfolding with_defaults
normalize-IsAccepted req {out} e =
    let (p, n, r, (regions, k, o, v)) = normalize-parts req {out = out} e in
    let g = normalize_regions-good req.regions {rs = regions} k in
    (
      validate-IsAccepted out v,
      ground (arith, o),
      nonempty out.project_id (ground (arith, o)),
      nonempty (trim_space out.name) (ground (arith, o)),
      ground (arith, o, g.0),
      subst (λ x. AllKnown x) (sym (ap (λ (x : DeployRequest). x.regions) o)) g.1,
      subst (λ x. IsUnique x) (sym (ap (λ (x : DeployRequest). x.regions) o)) g.2,
    )
