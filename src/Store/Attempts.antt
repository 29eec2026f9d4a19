-- ===== src/Store/Attempts.antt =====
-- internal/store/memory/store.go: attempts and cost records.
use lecrev.Prelude.{String, Bool, not, ◌&&◌, List, select, str_eq, ltb, ◌==◌}
use lecrev.Maps.{get, put, values}
use lecrev.Sorting.{sort_stable}
use lecrev.Errors.{Exec, ok}
use lecrev.Domain.{Time, Attempt, CostRecord, terminal}
use lecrev.Store.State.{Store, found}
use lecrev.Store.Projects.{oldest_first}

unfoldable pub put_attempt : Attempt → Exec Store (Unit {0})
put_attempt a s = (ok tt, record s { attempts = put s.attempts a.id a })

unfoldable pub update_attempt : Attempt → Exec Store (Unit {0})
update_attempt a s = (ok tt, record s { attempts = put s.attempts a.id a })

unfoldable pub get_attempt : String → Exec Store Attempt
get_attempt id s = (found "attempt" id (get s.attempts id), s)

unfoldable pub list_attempts_by_job : String → Exec Store (List Attempt)
list_attempts_by_job job_id s = (
  ok (
      sort_stable (λ a b. oldest_first a.created_at a.id b.created_at b.id)
        (select (λ a. str_eq a.job_id job_id) (values s.attempts))),
  s,
)

unfoldable pub put_cost_record : CostRecord → Exec Store (Unit {0})
put_cost_record r s = (ok tt, record s { cost_records = put s.cost_records r.id r })

unfoldable pub list_cost_records_by_job : String → Exec Store (List CostRecord)
list_cost_records_by_job job_id s = (
  ok (
      sort_stable (λ a b. oldest_first a.created_at a.id b.created_at b.id)
        (select (λ r. str_eq r.job_id job_id) (values s.cost_records))),
  s,
)

-- An attempt that has not ended and whose lease, if it has one, is over.
abbrev pub is_expired : Time → Attempt → Bool
is_expired before a =
    not (terminal a.state) && (not (a.lease_expires_at == 0) && not (ltb before a.lease_expires_at))

unfoldable pub list_expired_attempts : Time → Exec Store (List Attempt)
list_expired_attempts before s = (ok (select (is_expired before) (values s.attempts)), s)
