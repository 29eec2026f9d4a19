-- ===== src/Store/Backend.antt =====
-- internal/store/store.go: the interface Store as its clients use it, and the in-memory store as an
-- implementation. The clients may see any failure; the methods they do not call are left out.
use lecrev.Prelude.{ℕ, String, List}
use lecrev.Errors.{Exec}
use lecrev.Domain.{
  Time, Project, Artifact, FunctionVersion, ExecutionJob, Attempt, CostRecord, Host, WarmPool,
  Region, IdempotencyRecord, JobState, ApiKey, BuildJob, HttpTrigger, WebhookTrigger,
}
use lecrev.Store.State.{Store}
use lecrev.Store.Projects.{
  get_project, ensure_project, list_projects_by_tenant, get_api_key_by_hash,
  touch_api_key_last_used,
}
use lecrev.Store.Idempotency.{
  create_idempotency_record, update_idempotency_record, delete_idempotency_record,
  get_idempotency_record,
}
use lecrev.Store.Artifacts.{
  get_artifact, get_function_version, put_artifact, put_function_version,
  list_function_versions_by_project, put_build_job, get_build_job, list_build_jobs_by_project,
  count_build_jobs_by_project_states,
}
use lecrev.Store.Triggers.{
  put_http_trigger, get_http_trigger, list_http_triggers_by_function_version, put_webhook_trigger,
  get_webhook_trigger,
}
use lecrev.Store.Jobs.{
  put_execution_job, update_execution_job, get_execution_job,
  count_execution_jobs_by_project_states, claim_next_execution_job, requeue_stale_execution_jobs,
  count_active_execution_jobs_by_region, list_execution_jobs_by_project,
}
use lecrev.Store.Attempts.{
  put_attempt, update_attempt, get_attempt, put_cost_record, list_expired_attempts,
  list_attempts_by_job, list_cost_records_by_job,
}
use lecrev.Store.Hosts.{
  put_host, update_host, get_host, list_hosts_by_region, replace_warm_pools_for_host, put_region,
  get_region,
}

pub record Backend (S : Type 0) : Type 0 where
  pub get_project : String → Exec S Project
  pub create_idempotency_record : IdempotencyRecord → Exec S (Unit {0})
  pub update_idempotency_record : IdempotencyRecord → Exec S (Unit {0})
  pub delete_idempotency_record : String → String → String → Exec S (Unit {0})
  pub get_idempotency_record : String → String → String → Exec S IdempotencyRecord
  pub get_artifact : String → Exec S Artifact
  pub get_function_version : String → Exec S FunctionVersion
  pub put_execution_job : ExecutionJob → Exec S (Unit {0})
  pub update_execution_job : ExecutionJob → Exec S (Unit {0})
  pub get_execution_job : String → Exec S ExecutionJob
  pub count_execution_jobs_by_project_states : String → List JobState → Exec S ℕ
  pub claim_next_execution_job : List JobState → JobState → Time → Exec S ExecutionJob
  pub requeue_stale_execution_jobs : JobState → JobState → Time → Time → String → Exec S ℕ
  pub count_active_execution_jobs_by_region : String → Exec S ℕ
  pub put_attempt : Attempt → Exec S (Unit {0})
  pub update_attempt : Attempt → Exec S (Unit {0})
  pub get_attempt : String → Exec S Attempt
  pub put_cost_record : CostRecord → Exec S (Unit {0})
  pub list_expired_attempts : Time → Exec S (List Attempt)
  pub put_host : Host → Exec S (Unit {0})
  pub update_host : Host → Exec S (Unit {0})
  pub get_host : String → Exec S Host
  pub list_hosts_by_region : String → Exec S (List Host)
  pub replace_warm_pools_for_host : String → String → List WarmPool → Exec S (Unit {0})
  pub put_region : Region → Exec S (Unit {0})
  pub get_region : String → Exec S Region
  pub ensure_project : String → String → String → Time → Exec S Project
  pub list_projects_by_tenant : String → Exec S (List Project)
  pub get_api_key_by_hash : String → Exec S ApiKey
  pub touch_api_key_last_used : String → Time → Exec S (Unit {0})
  pub put_artifact : Artifact → Exec S (Unit {0})
  pub put_function_version : FunctionVersion → Exec S (Unit {0})
  pub list_function_versions_by_project : String → Exec S (List FunctionVersion)
  pub put_build_job : BuildJob → Exec S (Unit {0})
  pub get_build_job : String → Exec S BuildJob
  pub list_build_jobs_by_project : String → Exec S (List BuildJob)
  pub count_build_jobs_by_project_states : String → List String → Exec S ℕ
  pub put_http_trigger : HttpTrigger → Exec S (Unit {0})
  pub get_http_trigger : String → Exec S HttpTrigger
  pub list_http_triggers_by_function_version : String → Exec S (List HttpTrigger)
  pub put_webhook_trigger : WebhookTrigger → Exec S (Unit {0})
  pub get_webhook_trigger : String → Exec S WebhookTrigger

-- The store beside whatever else the components share.
pub record World (W : Type 0) : Type 0 where
  pub store : Store
  pub rest : W

abbrev pub on_store {ℓ} : {W : Type 0} {A : Type ℓ} → Exec Store A → Exec (World W) A
on_store m w = let (r, s) = m w.store in (r, record w { store = s })

-- The in-memory store; it opens with all its methods.
unfoldable pub memory : {W : Type 0} → Backend (World W)
unfolding get_project create_idempotency_record update_idempotency_record delete_idempotency_record
    get_idempotency_record get_artifact get_function_version put_execution_job update_execution_job
    get_execution_job count_execution_jobs_by_project_states claim_next_execution_job
    requeue_stale_execution_jobs count_active_execution_jobs_by_region put_attempt update_attempt
    get_attempt put_cost_record list_expired_attempts put_host update_host get_host
    list_hosts_by_region replace_warm_pools_for_host put_region get_region
memory = record {
  get_project = λ id. on_store (get_project id);
  create_idempotency_record = λ r. on_store (create_idempotency_record r);
  update_idempotency_record = λ r. on_store (update_idempotency_record r);
  delete_idempotency_record = λ scope id key. on_store (delete_idempotency_record scope id key);
  get_idempotency_record = λ scope id key. on_store (get_idempotency_record scope id key);
  get_artifact = λ digest. on_store (get_artifact digest);
  get_function_version = λ id. on_store (get_function_version id);
  put_execution_job = λ job. on_store (put_execution_job job);
  update_execution_job = λ job. on_store (update_execution_job job);
  get_execution_job = λ id. on_store (get_execution_job id);
  count_execution_jobs_by_project_states =
      λ id states. on_store (count_execution_jobs_by_project_states id states);
  claim_next_execution_job =
      λ states state now. on_store (claim_next_execution_job states state now);
  requeue_stale_execution_jobs =
      λ from to before now text. on_store (requeue_stale_execution_jobs from to before now text);
  count_active_execution_jobs_by_region =
      λ region. on_store (count_active_execution_jobs_by_region region);
  put_attempt = λ a. on_store (put_attempt a);
  update_attempt = λ a. on_store (update_attempt a);
  get_attempt = λ id. on_store (get_attempt id);
  put_cost_record = λ r. on_store (put_cost_record r);
  list_expired_attempts = λ before. on_store (list_expired_attempts before);
  put_host = λ h. on_store (put_host h);
  update_host = λ h. on_store (update_host h);
  get_host = λ id. on_store (get_host id);
  list_hosts_by_region = λ region. on_store (list_hosts_by_region region);
  replace_warm_pools_for_host =
      λ region id pools. on_store (replace_warm_pools_for_host region id pools);
  put_region = λ r. on_store (put_region r);
  get_region = λ name. on_store (get_region name);
  ensure_project = λ id tenant name now. on_store (ensure_project id tenant name now);
  list_projects_by_tenant = λ id. on_store (list_projects_by_tenant id);
  get_api_key_by_hash = λ hash. on_store (get_api_key_by_hash hash);
  touch_api_key_last_used = λ hash used_at. on_store (touch_api_key_last_used hash used_at);
  put_artifact = λ a. on_store (put_artifact a);
  put_function_version = λ v. on_store (put_function_version v);
  list_function_versions_by_project = λ id. on_store (list_function_versions_by_project id);
  put_build_job = λ job. on_store (put_build_job job);
  get_build_job = λ id. on_store (get_build_job id);
  list_build_jobs_by_project = λ id. on_store (list_build_jobs_by_project id);
  count_build_jobs_by_project_states =
      λ id states. on_store (count_build_jobs_by_project_states id states);
  put_http_trigger = λ t. on_store (put_http_trigger t);
  get_http_trigger = λ token. on_store (get_http_trigger token);
  list_http_triggers_by_function_version =
      λ id. on_store (list_http_triggers_by_function_version id);
  put_webhook_trigger = λ t. on_store (put_webhook_trigger t);
  get_webhook_trigger = λ token. on_store (get_webhook_trigger token);
}

-- The part of the interface that only the HTTP API reads.
pub record JobLists (S : Type 0) : Type 0 where
  pub list_execution_jobs_by_project : String → Exec S (List ExecutionJob)
  pub list_attempts_by_job : String → Exec S (List Attempt)
  pub list_cost_records_by_job : String → Exec S (List CostRecord)

unfoldable pub memory_job_lists : {W : Type 0} → JobLists (World W)
unfolding list_execution_jobs_by_project list_attempts_by_job list_cost_records_by_job
memory_job_lists = record {
  list_execution_jobs_by_project = λ id. on_store (list_execution_jobs_by_project id);
  list_attempts_by_job = λ id. on_store (list_attempts_by_job id);
  list_cost_records_by_job = λ id. on_store (list_cost_records_by_job id);
}
