-- ===== src/Domain/Requests.antt =====
-- internal/domain/types.go: the request of a deployment, as it is decoded and stored.
use lecrev.Prelude.{String, List}
use lecrev.Prelude.Int.{ℤ}
use lecrev.Maps.{Assoc}

pub record DeploySource : Type 0 where
  pub source_type : String
  pub bundle_base64 : String
  pub inline_files : Assoc String
  pub git_url : String
  pub git_ref : String
  pub sub_path : String
  pub labels : Assoc String
  pub metadata : Assoc String

pub record DeployRequest : Type 0 where
  pub project_id : String
  pub name : String
  pub runtime : String
  pub entrypoint : String
  pub memory_mb : ℤ
  pub timeout_sec : ℤ
  pub network_policy : String
  pub regions : List String
  pub env_vars : Assoc String
  pub env_refs : List String
  pub max_retries : ℤ
  pub idempotency_key : String
  pub source : DeploySource
