-- ===== src/Store/State.antt =====
-- internal/store/memory/store.go: the struct Store, New, and the lookup that most methods share.
use lecrev.Prelude.{String, Option, none, some, []}
use lecrev.Maps.{Assoc}
use lecrev.Errors.{Result, ok, err, not_found}
use lecrev.Domain.{
  ApiKey, Project, IdempotencyRecord, Artifact, FunctionVersion, BuildJob, ExecutionJob, Attempt,
  CostRecord, Host, WarmPool, WebhookTrigger, HttpTrigger, Region,
}

pub record Store : Type 0 where
  pub api_keys : Assoc ApiKey
  pub projects : Assoc Project
  pub idempotency : Assoc IdempotencyRecord
  pub artifacts : Assoc Artifact
  pub functions : Assoc FunctionVersion
  pub build_jobs : Assoc BuildJob
  pub execution_jobs : Assoc ExecutionJob
  pub attempts : Assoc Attempt
  pub cost_records : Assoc CostRecord
  pub hosts : Assoc Host
  pub warm_pools : Assoc WarmPool
  pub webhook_triggers : Assoc WebhookTrigger
  pub http_triggers : Assoc HttpTrigger
  pub regions : Assoc Region

-- func New() *Store.
abbrev pub empty : Store
empty = record {
  api_keys = [];
  projects = [];
  idempotency = [];
  artifacts = [];
  functions = [];
  build_jobs = [];
  execution_jobs = [];
  attempts = [];
  cost_records = [];
  hosts = [];
  warm_pools = [];
  webhook_triggers = [];
  http_triggers = [];
  regions = [];
}

-- `value, ok := m[key]; if !ok { return nil, fmt.Errorf("%w: entity %q", ErrNotFound, key) }`.
abbrev pub found {ℓ} : {V : Type ℓ} → String → String → Option V → Result V
found entity key none = err (not_found entity key)
found entity key (some v) = ok v
