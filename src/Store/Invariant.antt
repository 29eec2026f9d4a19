-- ===== src/Store/Invariant.antt =====
-- All methods of the store that write, as one type of calls, and the shape of the tables that
-- every sequence of calls keeps.
use lecrev.Prelude.{String, ◌≡◌, some, List, [], ◌∷◌, arith, eq_iff, inl, inr, sym, subst}
use lecrev.Maps.{Assoc, get, put}
use lecrev.Maps.Keyed.{IsKeyed, put-IsKeyed, remove-IsKeyed}
use lecrev.Domain.{
  Time, Project, ApiKey, IdempotencyRecord, Artifact, FunctionVersion, BuildJob, ExecutionJob,
  JobState, Attempt, CostRecord, Host, WarmPool, WebhookTrigger, HttpTrigger, Region,
}
use lecrev.Store.State.{Store, empty}
use lecrev.Store.Projects.{new_project, ensure_project, put_api_key, touch_api_key_last_used}
use lecrev.Store.Projects.Tenancy.{ensure_project_effect, touch_api_key_effect}
use lecrev.Store.Idempotency.{
  idempotency_key, create_idempotency_record, update_idempotency_record, delete_idempotency_record,
}
use lecrev.Store.Idempotency.Laws.{create_effect}
use lecrev.Store.Triggers.Tokens.{put_webhook_effect, put_http_effect}
use lecrev.Store.Artifacts.{put_artifact, put_function_version, put_build_job}
use lecrev.Store.Jobs.{
  put_execution_job, update_execution_job, claim_next_execution_job, requeue_stale_execution_jobs,
}
use lecrev.Store.Jobs.Requeue.{requeue-IsKeyed}
use lecrev.Store.Attempts.{put_attempt, update_attempt, put_cost_record}
use lecrev.Store.Jobs.Claim.{claimed_job, claim_next_effect}
use lecrev.Store.Hosts.{
  warm_pool_key, remove_prefixed, put_host, update_host, replace_warm_pools_for_host, put_region,
}
use lecrev.Store.Hosts.Pools.{pool_key, put_pools-IsKeyed, remove_prefixed-IsKeyed}
use lecrev.Store.Triggers.{put_webhook_trigger, put_http_trigger}

pub data Call : Type 0 where
  ensures_project : String → String → String → Time → Call
  puts_api_key : ApiKey → Call
  touches_api_key : String → Time → Call
  creates_idempotency_record : IdempotencyRecord → Call
  updates_idempotency_record : IdempotencyRecord → Call
  deletes_idempotency_record : String → String → String → Call
  puts_artifact : Artifact → Call
  puts_function_version : FunctionVersion → Call
  puts_build_job : BuildJob → Call
  puts_execution_job : ExecutionJob → Call
  updates_execution_job : ExecutionJob → Call
  claims_next_execution_job : List JobState → JobState → Time → Call
  requeues_stale_execution_jobs : JobState → JobState → Time → Time → String → Call
  puts_attempt : Attempt → Call
  updates_attempt : Attempt → Call
  puts_cost_record : CostRecord → Call
  puts_host : Host → Call
  updates_host : Host → Call
  replaces_warm_pools : String → String → List WarmPool → Call
  puts_webhook_trigger : WebhookTrigger → Call
  puts_http_trigger : HttpTrigger → Call
  puts_region : Region → Call

-- The store after a call, whether it succeeded or not.
unfoldable pub step : Call → Store → Store
step (ensures_project id tenant name now) s = (ensure_project id tenant name now s).1
step (puts_api_key key) s = (put_api_key key s).1
step (touches_api_key hash now) s = (touch_api_key_last_used hash now s).1
step (creates_idempotency_record r) s = (create_idempotency_record r s).1
step (updates_idempotency_record r) s = (update_idempotency_record r s).1
step (deletes_idempotency_record scope id key) s = (delete_idempotency_record scope id key s).1
step (puts_artifact a) s = (put_artifact a s).1
step (puts_function_version v) s = (put_function_version v s).1
step (puts_build_job job) s = (put_build_job job s).1
step (puts_execution_job job) s = (put_execution_job job s).1
step (updates_execution_job job) s = (update_execution_job job s).1
step (claims_next_execution_job from to now) s = (claim_next_execution_job from to now s).1
step (requeues_stale_execution_jobs from to before now text) s =
    (requeue_stale_execution_jobs from to before now text s).1
step (puts_attempt a) s = (put_attempt a s).1
step (updates_attempt a) s = (update_attempt a s).1
step (puts_cost_record r) s = (put_cost_record r s).1
step (puts_host h) s = (put_host h s).1
step (updates_host h) s = (update_host h s).1
step (replaces_warm_pools region id pools) s = (replace_warm_pools_for_host region id pools s).1
step (puts_webhook_trigger t) s = (put_webhook_trigger t s).1
step (puts_http_trigger t) s = (put_http_trigger t s).1
step (puts_region r) s = (put_region r s).1

unfoldable pub run : List Call → Store → Store
unfolding step
run [] s = s
run (c ∷ calls) s = run calls (step c s)

abbrev pub record_key : IdempotencyRecord → String
record_key r = idempotency_key r.scope r.project_id r.key

-- Every table holds its records under their own keys, each key once.
pub record IsWellKeyed (s : Store) : Type 0 where
  pub api_keys : IsKeyed (λ k. k.key_hash) s.api_keys
  pub projects : IsKeyed (λ p. p.id) s.projects
  pub idempotency : IsKeyed record_key s.idempotency
  pub artifacts : IsKeyed (λ a. a.digest) s.artifacts
  pub functions : IsKeyed (λ v. v.id) s.functions
  pub build_jobs : IsKeyed (λ j. j.id) s.build_jobs
  pub execution_jobs : IsKeyed (λ j. j.id) s.execution_jobs
  pub attempts : IsKeyed (λ a. a.id) s.attempts
  pub cost_records : IsKeyed (λ r. r.id) s.cost_records
  pub hosts : IsKeyed (λ h. h.id) s.hosts
  pub warm_pools : IsKeyed pool_key s.warm_pools
  pub webhook_triggers : IsKeyed (λ t. t.token) s.webhook_triggers
  pub http_triggers : IsKeyed (λ t. t.token) s.http_triggers
  pub regions : IsKeyed (λ r. r.name) s.regions

-- A value found under a key has that key.
key_of_get :
    {V : Type 0} (key : V → String) (m : Assoc V) (k : String) (v : V)
    → IsKeyed key m
    → get m k ≡ some v
    → key v ≡ k
unfolding get
key_of_get key [] k v h e = cc
key_of_get key ((j, w) ∷ m) k v h e = ground (arith, eq_iff j k, key_of_get key m k v h.2)

step-IsWellKeyed : (c : Call) (s : Store) → IsWellKeyed s → IsWellKeyed (step c s)
unfolding step ensure_project put_api_key touch_api_key_last_used create_idempotency_record
    update_idempotency_record delete_idempotency_record put_artifact put_function_version
    put_build_job put_execution_job update_execution_job put_attempt update_attempt put_cost_record
    put_host update_host put_region claim_next_execution_job put_webhook_trigger put_http_trigger
    replace_warm_pools_for_host requeue_stale_execution_jobs
step-IsWellKeyed (ensures_project id tenant name now) s w =
    elim (ensure_project_effect id tenant name now s) [
      | inl e ↦ subst IsWellKeyed (sym e) (
          ground (
            arith,
            put-IsKeyed (λ (p : Project). p.id) s.projects (new_project id tenant name now),
          ))
      | inr e ↦ subst IsWellKeyed (sym e) w
    ]
step-IsWellKeyed (puts_api_key key) s w =
    ground (arith, put-IsKeyed (λ (k : ApiKey). k.key_hash) s.api_keys key)
step-IsWellKeyed (touches_api_key hash now) s w = elim (touch_api_key_effect hash now s) [
  | inl (k, e, f) ↦ subst IsWellKeyed (sym f) (
      ground (
        arith,
        subst (λ h. IsKeyed (λ k. k.key_hash) (put s.api_keys h (record k { last_used_at = now })))
            (key_of_get (λ (k : ApiKey). k.key_hash) s.api_keys hash k w.api_keys e)
            (put-IsKeyed (λ k. k.key_hash) s.api_keys (record k { last_used_at = now }) w.api_keys),
      ))
  | inr f ↦ subst IsWellKeyed (sym f) w
]
step-IsWellKeyed (creates_idempotency_record r) s w = elim (create_effect r s) [
  | inl e ↦ subst IsWellKeyed (sym e) (ground (arith, put-IsKeyed record_key s.idempotency r))
  | inr e ↦ subst IsWellKeyed (sym e) w
]
step-IsWellKeyed (updates_idempotency_record r) s w =
    ground (arith, put-IsKeyed record_key s.idempotency r)
step-IsWellKeyed (deletes_idempotency_record scope id key) s w =
    ground (arith, remove-IsKeyed record_key s.idempotency (idempotency_key scope id key))
step-IsWellKeyed (puts_artifact a) s w =
    ground (arith, put-IsKeyed (λ (a : Artifact). a.digest) s.artifacts a)
step-IsWellKeyed (puts_function_version v) s w =
    ground (arith, put-IsKeyed (λ (v : FunctionVersion). v.id) s.functions v)
step-IsWellKeyed (puts_build_job job) s w =
    ground (arith, put-IsKeyed (λ (j : BuildJob). j.id) s.build_jobs job)
step-IsWellKeyed (puts_execution_job job) s w =
    ground (arith, put-IsKeyed (λ (j : ExecutionJob). j.id) s.execution_jobs job)
step-IsWellKeyed (updates_execution_job job) s w =
    ground (arith, put-IsKeyed (λ (j : ExecutionJob). j.id) s.execution_jobs job)
step-IsWellKeyed (claims_next_execution_job from to now) s w =
    elim (claim_next_effect from to now s) [
      | inl (c, e) ↦ subst IsWellKeyed (sym e) (
          ground (
            arith,
            put-IsKeyed (λ (j : ExecutionJob). j.id) s.execution_jobs (claimed_job c to now),
          ))
      | inr e ↦ subst IsWellKeyed (sym e) w
    ]
step-IsWellKeyed (requeues_stale_execution_jobs from to before now text) s w =
    ground (arith, requeue-IsKeyed from to before now text s.execution_jobs w.execution_jobs)
step-IsWellKeyed (puts_attempt a) s w =
    ground (arith, put-IsKeyed (λ (a : Attempt). a.id) s.attempts a)
step-IsWellKeyed (updates_attempt a) s w =
    ground (arith, put-IsKeyed (λ (a : Attempt). a.id) s.attempts a)
step-IsWellKeyed (puts_cost_record r) s w =
    ground (arith, put-IsKeyed (λ (r : CostRecord). r.id) s.cost_records r)
step-IsWellKeyed (puts_host h) s w = ground (arith, put-IsKeyed (λ (h : Host). h.id) s.hosts h)
step-IsWellKeyed (updates_host h) s w = ground (arith, put-IsKeyed (λ (h : Host). h.id) s.hosts h)
step-IsWellKeyed (replaces_warm_pools region id pools) s w = ground (
  arith,
  put_pools-IsKeyed pools (remove_prefixed (warm_pool_key region id "") s.warm_pools)
      (remove_prefixed-IsKeyed (warm_pool_key region id "") s.warm_pools w.warm_pools),
)
step-IsWellKeyed (puts_webhook_trigger t) s w = elim (put_webhook_effect t s) [
  | inl e ↦
      subst IsWellKeyed (sym e)
        (ground (arith, put-IsKeyed (λ (t : WebhookTrigger). t.token) s.webhook_triggers t))
  | inr e ↦ subst IsWellKeyed (sym e) w
]
step-IsWellKeyed (puts_http_trigger t) s w = elim (put_http_effect t s) [
  | inl e ↦
      subst IsWellKeyed (sym e)
        (ground (arith, put-IsKeyed (λ (t : HttpTrigger). t.token) s.http_triggers t))
  | inr e ↦ subst IsWellKeyed (sym e) w
]
step-IsWellKeyed (puts_region r) s w =
    ground (arith, put-IsKeyed (λ (r : Region). r.name) s.regions r)

IsWellKeyed-empty : IsWellKeyed empty
IsWellKeyed-empty = omega arith

run-IsWellKeyed : (calls : List Call) (s : Store) → IsWellKeyed s → IsWellKeyed (run calls s)
unfolding run
run-IsWellKeyed [] s w = w
run-IsWellKeyed (c ∷ calls) s w = run-IsWellKeyed calls (step c s) (step-IsWellKeyed c s w)

-- From the empty store, after any calls of the methods that write, every table holds each record
-- under the record's own key, and each key once.
pub reachable-IsWellKeyed : (calls : List Call) → IsWellKeyed (run calls empty)
reachable-IsWellKeyed calls = run-IsWellKeyed calls empty IsWellKeyed-empty
