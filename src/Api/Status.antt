-- ===== src/Api/Status.antt =====
-- internal/httpapi/server.go: writeServiceError.
use lecrev.Prelude.{ℕ, Bool, true, false, ◌||◌, if◌then◌else◌}
use lecrev.Errors.{
  Error, wrapped, is_access_denied, is_not_found, is_object_not_found, is_already_exists,
  is_no_execution_capacity, direct_invoke_unavailable, project_build_quota, project_execution_quota,
  deadline_exceeded, function_version_not_ready, build_logs_not_ready, execution_result_not_ready,
  idempotency_conflict, idempotency_in_progress,
}

abbrev is_deadline : Error → Bool
is_deadline deadline_exceeded = true
is_deadline (wrapped before e after) = is_deadline e
is_deadline _ = false

abbrev is_quota : Error → Bool
is_quota (project_build_quota project count limit) = true
is_quota (project_execution_quota project count limit) = true
is_quota (wrapped before e after) = is_quota e
is_quota _ = false

abbrev is_unavailable : Error → Bool
is_unavailable direct_invoke_unavailable = true
is_unavailable (wrapped before e after) = is_unavailable e
is_unavailable e = is_no_execution_capacity e

abbrev is_not_ready : Error → Bool
is_not_ready function_version_not_ready = true
is_not_ready build_logs_not_ready = true
is_not_ready execution_result_not_ready = true
is_not_ready (wrapped before e after) = is_not_ready e
is_not_ready _ = false

abbrev is_conflict : Error → Bool
is_conflict idempotency_conflict = true
is_conflict idempotency_in_progress = true
is_conflict (wrapped before e after) = is_conflict e
is_conflict e = is_already_exists e

unfoldable pub error_status : Error → ℕ
error_status e =
    if is_deadline e
    then 504
    else if is_object_not_found e
    then 404
    else if is_access_denied e
    then 403
    else if is_quota e
    then 429
    else if is_unavailable e
    then 503
    else if is_not_found e
    then 404
    else if is_not_ready e || is_conflict e
    then 409
    else 400
