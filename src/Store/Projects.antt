-- ===== src/Store/Projects.antt =====
-- internal/store/memory/store.go: projects and API keys.
pub mod Tenancy
use lecrev.Prelude.{
  String, Bool, not, Option, none, some, List, select, str_eq, ltb, ◌==◌, if◌then◌else◌,
}
use lecrev.Prelude.Text.{str_ltb}
use lecrev.Maps.{get, put, values}
use lecrev.Sorting.{sort_stable}
use lecrev.Errors.{Result, Exec, ok, err, not_found, access_denied}
use lecrev.Domain.{Time, Project, ApiKey}
use lecrev.Store.State.{Store, found}

-- Newest first, and by falling id at one time: the `less` of most lists.
abbrev pub newest_first : Time → String → Time → String → Bool
newest_first created id created' id' =
    if created == created' then str_ltb id' id else ltb created' created

abbrev pub oldest_first : Time → String → Time → String → Bool
oldest_first created id created' id' =
    if created == created' then str_ltb id id' else ltb created created'

abbrev pub new_project : String → String → String → Time → Project
new_project project_id tenant_id name now = record {
  id = project_id;
  tenant_id = tenant_id;
  name = name;
  created_at = now;
}

ensure_found : String → String → String → Time → Store → Option Project → Result Project × Store
ensure_found project_id tenant_id name now s none =
    let project = new_project project_id tenant_id name now in
    (ok project, record s { projects = put s.projects project_id project })
ensure_found project_id tenant_id name now s (some project) =
    if not (str_eq project.tenant_id tenant_id) then (err access_denied, s) else (ok project, s)

unfoldable pub ensure_project : String → String → String → Time → Exec Store Project
unfolding ensure_found
ensure_project project_id tenant_id name now s =
    ensure_found project_id tenant_id name now s (get s.projects project_id)

unfoldable pub get_project : String → Exec Store Project
get_project project_id s = (found "project" project_id (get s.projects project_id), s)

unfoldable pub list_projects_by_tenant : String → Exec Store (List Project)
list_projects_by_tenant tenant_id s = (
  ok (
      sort_stable (λ p q. newest_first p.created_at p.id q.created_at q.id)
        (select (λ p. str_eq p.tenant_id tenant_id) (values s.projects))),
  s,
)

unfoldable pub put_api_key : ApiKey → Exec Store (Unit {0})
put_api_key key s = (ok tt, record s { api_keys = put s.api_keys key.key_hash key })

unfoldable pub get_api_key_by_hash : String → Exec Store ApiKey
get_api_key_by_hash key_hash s = (found "api key" key_hash (get s.api_keys key_hash), s)

touch_found : String → Time → Store → Option ApiKey → Result (Unit {0}) × Store
touch_found key_hash used_at s none = (err (not_found "api key" key_hash), s)
touch_found key_hash used_at s (some key) =
    (ok tt, record s { api_keys = put s.api_keys key_hash (record key { last_used_at = used_at }) })

unfoldable pub touch_api_key_last_used : String → Time → Exec Store (Unit {0})
unfolding touch_found
touch_api_key_last_used key_hash used_at s =
    touch_found key_hash used_at s (get s.api_keys key_hash)
