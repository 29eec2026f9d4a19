-- ===== src/Store/Triggers/Tokens.antt =====
-- A trigger's token is never given to another trigger.
use lecrev.Prelude.{inl, inr, ◌⊎◌, Option-cases, String, ◌≡◌, some, arith, eq_iff}
use lecrev.Maps.{get, put, get-put}
use lecrev.Errors.{ok}
use lecrev.Domain.{WebhookTrigger, HttpTrigger}
use lecrev.Store.State.{Store}
use lecrev.Store.Triggers.{
  put_webhook_trigger, put_http_trigger, get_http_trigger, get_webhook_trigger,
}

-- A token that is taken keeps its HTTP trigger whatever trigger is put.
put_http_trigger-keeps :
    (t old : HttpTrigger) (token : String) (s : Store)
    → get s.http_triggers token ≡ some old
    → (get_http_trigger token (put_http_trigger t s).1).0 ≡ ok old
unfolding put_http_trigger get_http_trigger
put_http_trigger-keeps t old token s h =
    ground (arith, get-put s.http_triggers t.token token t, eq_iff t.token token)

-- So does one that is taken by a webhook, whatever webhook trigger is put.
put_webhook_trigger-keeps :
    (t old : WebhookTrigger) (token : String) (s : Store)
    → get s.webhook_triggers token ≡ some old
    → (get_webhook_trigger token (put_webhook_trigger t s).1).0 ≡ ok old
unfolding put_webhook_trigger get_webhook_trigger
put_webhook_trigger-keeps t old token s h =
    ground (arith, get-put s.webhook_triggers t.token token t, eq_iff t.token token)

pub put_webhook_effect :
    (t : WebhookTrigger) (s : Store)
    → ((put_webhook_trigger t s).1
        ≡ record s { webhook_triggers = put s.webhook_triggers t.token t })
      ⊎ ((put_webhook_trigger t s).1 ≡ s)
unfolding put_webhook_trigger
put_webhook_effect t s = elim (Option-cases (get s.webhook_triggers t.token)) [
  | inl h ↦ inl (ground (arith, h))
  | inr (old, h) ↦ inr (ground (arith, h))
]

pub put_http_effect :
    (t : HttpTrigger) (s : Store)
    → ((put_http_trigger t s).1 ≡ record s { http_triggers = put s.http_triggers t.token t })
      ⊎ ((put_http_trigger t s).1 ≡ s)
unfolding put_http_trigger
put_http_effect t s = elim (Option-cases (get s.http_triggers t.token)) [
  | inl h ↦ inl (ground (arith, h))
  | inr (old, h) ↦ inr (ground (arith, h))
]
