-- ===== src/Build/Requests/Stable.antt =====
-- A request that is stored after its normalisation is normalised again when its build starts.
use lecrev.Prelude.{String, Bool, ◌≡◌, refl, sym, ap, subst, false, List, arith, str_eq, eq_iff}
use lecrev.Prelude.Int.{ℤ, pos, ◌≤ℤ◌, ltb_ℤ}
use lecrev.Prelude.Text.{trim_space}
use lecrev.Errors.{ok}
use lecrev.Domain.{DeployRequest}
use lecrev.Regions.{normalize_execution_regions}
use lecrev.Regions.Normal.{normalize_regions-stable}
use lecrev.Build.Requests.{
  normalize_deploy_request, with_defaults, runtime_or_default, at_least, int_or, policy_or_default,
  is_website_deploy, validate_deploy_request,
}
use lecrev.Build.Requests.Bounds.{normalize-parts, normalize-IsAccepted}

runtime-stable : (r : String) → runtime_or_default (runtime_or_default r) ≡ runtime_or_default r
unfolding runtime_or_default
runtime-stable r = ground arith

policy-stable :
    (w : Bool) (p : String) → policy_or_default w (policy_or_default w p) ≡ policy_or_default w p
unfolding policy_or_default
policy-stable w p = ground (arith, eq_iff p "none", eq_iff p "")

-- A number that its default and the floor of a website leave as they are.
floor-stable :
    (w : Bool) (least default n : ℤ)
    → pos 1 ≤ℤ least
    → pos 1 ≤ℤ default
    → at_least w least (int_or (at_least w least (int_or n default)) default)
      ≡ at_least w least (int_or n default)
unfolding at_least int_or
floor-stable w least default n h k = ground arith

defaults-stable : (req : DeployRequest) → with_defaults (with_defaults req) ≡ with_defaults req
unfolding with_defaults
defaults-stable req =
    let w = is_website_deploy req.source in
    ground (
      arith,
      runtime-stable req.runtime,
      policy-stable w req.network_policy,
      floor-stable w (pos 180) (pos 30) req.timeout_sec,
      floor-stable w (pos 2048) (pos 128) req.memory_mb,
    )

-- The defaults do not read the regions.
regions-defaults :
    (req : DeployRequest) (rs : List String)
    → with_defaults (record (with_defaults req) { regions = rs })
      ≡ record (with_defaults req) { regions = rs }
unfolding with_defaults
regions-defaults req rs =
    ap (λ (x : DeployRequest). record x { regions = rs }) (defaults-stable req)

fixed_point :
    (out : DeployRequest)
    → str_eq out.project_id "" ≡ false
    → str_eq (trim_space out.name) "" ≡ false
    → ltb_ℤ out.timeout_sec (pos 0) ≡ false
    → ltb_ℤ out.memory_mb (pos 0) ≡ false
    → ltb_ℤ out.max_retries (pos 0) ≡ false
    → with_defaults out ≡ out
    → normalize_execution_regions out.regions ≡ ok out.regions
    → validate_deploy_request out ≡ ok tt
    → normalize_deploy_request out ≡ ok out
unfolding normalize_deploy_request
fixed_point out p n t m r d g v = rw (p, n, t, m, r, d, g, v) refl

-- What the normalisation made of a request that it accepted, it accepts again and leaves as it is.
pub normalize_twice :
    (req : DeployRequest) {out : DeployRequest}
    → normalize_deploy_request req ≡ ok out
    → normalize_deploy_request out ≡ ok out
unfolding with_defaults
normalize_twice req {out} e =
    let (p, n, r, (regions, k, o, v)) = normalize-parts req {out = out} e in
    let good = normalize-IsAccepted req {out = out} e in
    let m1 = good.0.memory_least in
    let t1 = good.0.timeout_least in
    fixed_point out (ground (arith, o)) (ground (arith, o)) (ground (arith, t1))
      (ground (arith, m1)) (ground (arith, good.1))
      (subst (λ x. with_defaults x ≡ x) (sym o) (regions-defaults req regions))
      (subst (λ (x : DeployRequest). normalize_execution_regions x.regions ≡ ok x.regions) (sym o)
        (normalize_regions-stable req.regions {rs = regions} k))
      v
