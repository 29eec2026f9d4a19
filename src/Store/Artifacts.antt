-- ===== src/Store/Artifacts.antt =====
-- internal/store/memory/store.go: artifacts, function versions and build jobs.
use lecrev.Prelude.{
  ℕ, String, Bool, false, ◌&&◌, Option, none, some, List, select, contains, str_eq,
}
use lecrev.Maps.{Assoc, get, put, values, count_if}
use lecrev.Sorting.{sort_stable}
use lecrev.Errors.{Exec, ok}
use lecrev.Domain.{Artifact, FunctionVersion, BuildJob}
use lecrev.Store.State.{Store, found}
use lecrev.Store.Projects.{newest_first}

unfoldable pub put_artifact : Artifact → Exec Store (Unit {0})
put_artifact a s = (ok tt, record s { artifacts = put s.artifacts a.digest a })

unfoldable pub get_artifact : String → Exec Store Artifact
get_artifact digest s = (found "artifact" digest (get s.artifacts digest), s)

unfoldable pub put_function_version : FunctionVersion → Exec Store (Unit {0})
put_function_version v s = (ok tt, record s { functions = put s.functions v.id v })

unfoldable pub get_function_version : String → Exec Store FunctionVersion
get_function_version id s = (found "function version" id (get s.functions id), s)

unfoldable pub list_function_versions_by_project : String → Exec Store (List FunctionVersion)
list_function_versions_by_project project_id s = (
  ok (
      sort_stable (λ v w. newest_first v.created_at v.id w.created_at w.id)
        (select (λ v. str_eq v.project_id project_id) (values s.functions))),
  s,
)

unfoldable pub put_build_job : BuildJob → Exec Store (Unit {0})
put_build_job job s = (ok tt, record s { build_jobs = put s.build_jobs job.id job })

unfoldable pub get_build_job : String → Exec Store BuildJob
get_build_job id s = (found "build job" id (get s.build_jobs id), s)

version_in_project : Option FunctionVersion → String → Bool
version_in_project none project_id = false
version_in_project (some v) project_id = str_eq v.project_id project_id

-- A build job belongs to the project of its function version.
unfoldable pub build_in_project : Assoc FunctionVersion → String → BuildJob → Bool
unfolding version_in_project
build_in_project functions project_id job =
    version_in_project (get functions job.function_version_id) project_id

unfoldable pub list_build_jobs_by_project : String → Exec Store (List BuildJob)
unfolding build_in_project
list_build_jobs_by_project project_id s = (
  ok (
      sort_stable (λ v w. newest_first v.created_at v.id w.created_at w.id)
        (select (build_in_project s.functions project_id) (values s.build_jobs))),
  s,
)

unfoldable pub count_build_jobs_by_project_states : String → List String → Exec Store ℕ
unfolding build_in_project
count_build_jobs_by_project_states project_id states s = (
  ok (
      count_if (λ job. contains states job.state && build_in_project s.functions project_id job)
        s.build_jobs),
  s,
)

unfoldable pub count_build_jobs_by_states : List String → Exec Store ℕ
count_build_jobs_by_states states s =
    (ok (count_if (λ job. contains states job.state) s.build_jobs), s)
