-- ===== src/Build/Metadata.antt =====
-- internal/build/service.go: what a deployment's request says of its build, and what of it is stored.
use lecrev.Prelude.{String, List, [], ◌∷◌, Option, none, some, if◌then◌else◌, str_eq}
use lecrev.Prelude.Text.{trim_space}
use lecrev.Maps.{Assoc, put}
use lecrev.Domain.{DeployRequest, DeploySource}
use lecrev.Regions.{default_primary}
use lecrev.Build.State.{Service}
use lecrev.Build.Requests.{lookup}

abbrev pub or_default : String → Option String → String
or_default text none = text
or_default text (some other) = other

-- An address that is no address stays as it is.
unfoldable pub sanitize_git_url : {S : Type 0} → Service S → String → String
sanitize_git_url svc raw =
    let trimmed = trim_space raw in
    if str_eq trimmed "" then "" else or_default trimmed (svc.without_user trimmed)

unfoldable pub sanitize_deploy_request_for_storage :
    {S : Type 0} → Service S → DeployRequest → DeployRequest
sanitize_deploy_request_for_storage svc req = record req {
  source = record req.source { git_url = sanitize_git_url svc req.source.git_url };
}

unfoldable pub deployment_environment : DeploySource → String
deployment_environment source =
    let environment = trim_space (lookup source.metadata "environment") in
    if str_eq environment "" then trim_space (lookup source.labels "environment") else environment

abbrev pub put_nonempty : String → String → Assoc String → Assoc String
put_nonempty key value m = if str_eq value "" then m else put m key value

unfoldable pub build_metadata_for_request : {S : Type 0} → Service S → DeployRequest → Assoc String
unfolding sanitize_git_url deployment_environment
build_metadata_for_request svc req =
    let git_url = trim_space req.source.git_url in
    let with_environment = put_nonempty "environment" (deployment_environment req.source) [] in
    let with_branch = put_nonempty "branch" (trim_space req.source.git_ref) with_environment in
    if str_eq git_url ""
    then with_branch
    else put with_branch "gitUrl" (sanitize_git_url svc git_url)

-- The values of `extra` that are not blank win.
unfoldable pub merge_build_metadata : Assoc String → Assoc String → Assoc String
merge_build_metadata base [] = base
merge_build_metadata base ((key, value) ∷ extra) =
    merge_build_metadata (if str_eq (trim_space value) "" then base else put base key value) extra

unfoldable pub pick_build_region : List String → String
pick_build_region [] = default_primary
pick_build_region (r ∷ rs) = r
