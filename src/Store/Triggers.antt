-- ===== src/Store/Triggers.antt =====
-- internal/store/memory/store.go: webhook and HTTP triggers.
pub mod Tokens
use lecrev.Prelude.{String, Option, none, some, List, select, str_eq}
use lecrev.Maps.{get, put, values}
use lecrev.Sorting.{sort_stable}
use lecrev.Errors.{Result, Exec, ok, err, already_exists}
use lecrev.Domain.{WebhookTrigger, HttpTrigger}
use lecrev.Store.State.{Store, found}
use lecrev.Store.Projects.{oldest_first}

put_webhook_at : WebhookTrigger → Store → Option WebhookTrigger → Result (Unit {0}) × Store
put_webhook_at t s (some old) = (err (already_exists "webhook trigger" t.token), s)
put_webhook_at t s none = (ok tt, record s { webhook_triggers = put s.webhook_triggers t.token t })

unfoldable pub put_webhook_trigger : WebhookTrigger → Exec Store (Unit {0})
unfolding put_webhook_at
put_webhook_trigger t s = put_webhook_at t s (get s.webhook_triggers t.token)

unfoldable pub get_webhook_trigger : String → Exec Store WebhookTrigger
get_webhook_trigger token s = (found "webhook trigger" token (get s.webhook_triggers token), s)

unfoldable pub list_webhook_triggers_by_function_version : String → Exec Store (List WebhookTrigger)
list_webhook_triggers_by_function_version id s =
    (ok (select (λ t. str_eq t.function_version_id id) (values s.webhook_triggers)), s)

put_http_at : HttpTrigger → Store → Option HttpTrigger → Result (Unit {0}) × Store
put_http_at t s (some old) = (err (already_exists "http trigger" t.token), s)
put_http_at t s none = (ok tt, record s { http_triggers = put s.http_triggers t.token t })

unfoldable pub put_http_trigger : HttpTrigger → Exec Store (Unit {0})
unfolding put_http_at
put_http_trigger t s = put_http_at t s (get s.http_triggers t.token)

unfoldable pub get_http_trigger : String → Exec Store HttpTrigger
get_http_trigger token s = (found "http trigger" token (get s.http_triggers token), s)

unfoldable pub list_http_triggers_by_function_version : String → Exec Store (List HttpTrigger)
list_http_triggers_by_function_version id s = (
  ok (
      sort_stable (λ a b. oldest_first a.created_at a.token b.created_at b.token)
        (select (λ t. str_eq t.function_version_id id) (values s.http_triggers))),
  s,
)
