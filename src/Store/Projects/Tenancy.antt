-- ===== src/Store/Projects/Tenancy.antt =====
-- EnsureProject never hands a project to another tenant.
use lecrev.Prelude.{
  String, ◌≡◌, ◌≢◌, none, some, arith, eq_iff, eq_refl, Option-cases, inl, inr, ◌⊎◌,
}
use lecrev.Maps.{get, put, get-put}
use lecrev.Errors.{ok, err, access_denied}
use lecrev.Domain.{Time, Project, ApiKey}
use lecrev.Store.State.{Store}
use lecrev.Store.Projects.{new_project, touch_api_key_last_used, ensure_project, get_project}

-- An ensured project is of the caller's tenant, and a lookup then finds it; and unless no project
-- had the id before, the store is as it was.
ensure_project_tenant :
    (id tenant name : String) (now : Time) (s : Store) {p : Project} {s' : Store}
    → ensure_project id tenant name now s ≡ (ok p, s')
    → (p.tenant_id ≡ tenant)
      × (get_project id s' ≡ (ok p, s'))
      × ((get s.projects id ≡ none) ⊎ ((get s.projects id ≡ some p) × (s' ≡ s)))
unfolding ensure_project get_project
ensure_project_tenant id tenant name now s {p} {s'} e = elim (Option-cases (get s.projects id)) [
  | inl h ↦ (
    ground (arith, h),
    ground (arith, h, get-put s.projects id id (new_project id tenant name now), eq_refl id),
    inl h,
  )
  | inr (q, h) ↦ (
    ground (arith, h, eq_iff q.tenant_id tenant),
    ground (arith, h),
    inr (ground (arith, h), ground (arith, h)),
  )
]

-- A project that is there under another tenant is refused, with the store as it was.
ensure_project_denied :
    (id tenant name : String) (now : Time) (s : Store) (p : Project)
    → get s.projects id ≡ some p
    → p.tenant_id ≢ tenant
    → ensure_project id tenant name now s ≡ (err access_denied, s)
unfolding ensure_project
ensure_project_denied id tenant name now s p h n = ground (arith, h, eq_iff p.tenant_id tenant)

-- A call adds the new project, or writes nothing.
pub ensure_project_effect :
    (id tenant name : String) (now : Time) (s : Store)
    → ((ensure_project id tenant name now s).1
        ≡ record s { projects = put s.projects id (new_project id tenant name now) })
      ⊎ ((ensure_project id tenant name now s).1 ≡ s)
unfolding ensure_project
ensure_project_effect id tenant name now s = elim (Option-cases (get s.projects id)) [
  | inl h ↦ inl (ground (arith, h))
  | inr (q, h) ↦ inr (ground (arith, h))
]

-- A touch rewrites the key that is there, or writes nothing.
pub touch_api_key_effect :
    (hash : String) (now : Time) (s : Store)
    → ((k : ApiKey) × (get s.api_keys hash ≡ some k)
        × ((touch_api_key_last_used hash now s).1
            ≡ record s { api_keys = put s.api_keys hash (record k { last_used_at = now }) }))
      ⊎ ((touch_api_key_last_used hash now s).1 ≡ s)
unfolding touch_api_key_last_used
touch_api_key_effect hash now s = elim (Option-cases (get s.api_keys hash)) [
  | inl h ↦ inr (ground (arith, h))
  | inr (k, h) ↦ inl (k, h, ground (arith, h))
]
