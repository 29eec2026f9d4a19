-- ===== src/Store/Idempotency/Laws.antt =====
-- Idempotency records: a key is taken once, and the composed key may confuse projects.
use Prim.Native.String.{◌++◌}
use text.Mathlib.TextLemmas.{append_assoc}
use lecrev.Prelude.{String, ◌≡◌, inl, inr, ◌⊎◌, Option-cases, false, arith, eq_refl, str_eq}
use lecrev.Maps.{get, put, get-put, get-remove}
use lecrev.Errors.{ok, err, already_exists}
use lecrev.Domain.{IdempotencyRecord}
use lecrev.Store.State.{Store}
use lecrev.Store.Idempotency.{
  idempotency_key, create_idempotency_record, update_idempotency_record, delete_idempotency_record,
  get_idempotency_record,
}

abbrev pub key_of : IdempotencyRecord → String
key_of r = idempotency_key r.scope r.project_id r.key

-- After a record was created, its key reads back that record, any second creation under the same
-- scope, project and key is refused and changes nothing, and after a deletion the key can be taken
-- again.
create_once :
    (r r' : IdempotencyRecord) (s : Store) {s' : Store}
    → create_idempotency_record r s ≡ (ok tt, s')
    → r'.scope ≡ r.scope
    → r'.project_id ≡ r.project_id
    → r'.key ≡ r.key
    → (get_idempotency_record r.scope r.project_id r.key s' ≡ (ok r, s'))
      × (create_idempotency_record r' s'
          ≡ (err (already_exists "idempotency record" (key_of r)), s'))
      × ((create_idempotency_record r'
            (delete_idempotency_record r.scope r.project_id r.key s').1).0
          ≡ ok tt)
unfolding create_idempotency_record delete_idempotency_record get_idempotency_record
create_once r r' s {s'} e p q t =
    let k = key_of r in
    (
      ground (arith, get-put s.idempotency k k r, eq_refl k),
      ground (arith, p, q, t, get-put s.idempotency k k r, eq_refl k),
      ground
          (arith, p, q, t, get-put s.idempotency k k r, get-remove s'.idempotency k k, eq_refl k),
    )

-- Updating a record leaves the records of every other key as they are.
update-get_other :
    (r : IdempotencyRecord) (scope project_id key : String) (s : Store)
    → str_eq (key_of r) (idempotency_key scope project_id key) ≡ false
    → (get_idempotency_record scope project_id key (update_idempotency_record r s).1).0
      ≡ (get_idempotency_record scope project_id key s).0
unfolding update_idempotency_record get_idempotency_record
update-get_other r scope project_id key s h =
    ground (arith, get-put s.idempotency (key_of r) (idempotency_key scope project_id key) r)

keys_collide :
    (scope p x k : String)
    → idempotency_key scope (p ++ (":" ++ x)) k ≡ idempotency_key scope p (x ++ (":" ++ k))
unfolding idempotency_key
keys_collide scope p x k = simp append_assoc

-- A project whose id contains a colon takes keys from another project: a record of the project
-- `p:x` under the key `k` makes the creation of a record of the project `p` under the key `x:k`
-- fail.
projects_collide :
    (p x k : String) (r r' : IdempotencyRecord) (s : Store) {s' : Store}
    → r.project_id ≡ p ++ (":" ++ x)
    → r.key ≡ k
    → r'.project_id ≡ p
    → r'.key ≡ x ++ (":" ++ k)
    → r'.scope ≡ r.scope
    → create_idempotency_record r s ≡ (ok tt, s')
    → create_idempotency_record r' s' ≡ (err (already_exists "idempotency record" (key_of r)), s')
unfolding create_idempotency_record
projects_collide p x k r r' s {s'} e1 e2 e3 e4 e5 h =
    let key = key_of r in
    ground (arith, keys_collide r.scope p x k, get-put s.idempotency key key r, eq_refl key)

-- A creation adds the record, or writes nothing.
pub create_effect :
    (r : IdempotencyRecord) (s : Store)
    → ((create_idempotency_record r s).1
        ≡ record s { idempotency = put s.idempotency (key_of r) r })
      ⊎ ((create_idempotency_record r s).1 ≡ s)
unfolding create_idempotency_record
create_effect r s = elim (Option-cases (get s.idempotency (key_of r))) [
  | inl h ↦ inl (ground (arith, h))
  | inr (old, h) ↦ inr (ground (arith, h))
]
