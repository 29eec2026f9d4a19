-- ===== src/Store/Idempotency.antt =====
-- internal/store/memory/store.go: idempotency records, keyed by scope, project and key.
pub mod Laws
use Prim.Native.String.{◌++◌}
use lecrev.Prelude.{String, Option, none, some}
use lecrev.Maps.{get, put, remove}
use lecrev.Errors.{Result, Exec, ok, err, already_exists}
use lecrev.Domain.{IdempotencyRecord}
use lecrev.Store.State.{Store, found}

-- func idempotencyKey.
unfoldable pub idempotency_key : String → String → String → String
idempotency_key scope project_id key = scope ++ (":" ++ (project_id ++ (":" ++ key)))

create_at :
    String → IdempotencyRecord → Store → Option IdempotencyRecord → Result (Unit {0}) × Store
create_at key r s (some old) = (err (already_exists "idempotency record" key), s)
create_at key r s none = (ok tt, record s { idempotency = put s.idempotency key r })

unfoldable pub create_idempotency_record : IdempotencyRecord → Exec Store (Unit {0})
unfolding create_at
create_idempotency_record r s =
    let key = idempotency_key r.scope r.project_id r.key in
    create_at key r s (get s.idempotency key)

unfoldable pub update_idempotency_record : IdempotencyRecord → Exec Store (Unit {0})
update_idempotency_record r s =
    let key = idempotency_key r.scope r.project_id r.key in
    (ok tt, record s { idempotency = put s.idempotency key r })

unfoldable pub delete_idempotency_record : String → String → String → Exec Store (Unit {0})
delete_idempotency_record scope project_id key s =
    (ok tt, record s { idempotency = remove s.idempotency (idempotency_key scope project_id key) })

unfoldable pub get_idempotency_record : String → String → String → Exec Store IdempotencyRecord
get_idempotency_record scope project_id key s =
    let k = idempotency_key scope project_id key in
    (found "idempotency record" k (get s.idempotency k), s)
