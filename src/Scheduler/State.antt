-- ===== src/Scheduler/State.antt =====
-- internal/scheduler/service.go: the struct Service, the interfaces of the dispatchers that New
-- indexes, and the clock and identifiers that a call reads.
use lecrev.Prelude.{ℕ, String, List, [], ◌∷◌, Option}
use lecrev.Maps.{Assoc, put}
use lecrev.Errors.{Result, Exec}
use lecrev.Domain.{
  Time, Bytes, RegionStats, Assignment, DirectExecutionResult, FunctionVersion, StartMode,
}
use lecrev.Store.Backend.{Backend}

-- The callbacks of a streamed invocation, where the caller gave them.
abbrev pub OnMeta : Type 0 → Type 0
OnMeta S = Option (String → String → StartMode → S → S)

abbrev pub OnHttpEvent : Type 0 → Type 0
OnHttpEvent S = Option (Bytes → Exec S (Unit {0}))

-- RegionDispatcher, with the optional interfaces that the code finds by type assertion.
pub record Dispatcher (S : Type 0) : Type 0 where
  pub region : String
  pub stats : S → RegionStats
  pub enqueue_execution : Assignment → Exec S (Unit {0})
  pub execute_direct : Option (Assignment → Exec S DirectExecutionResult)
  pub execute_direct_stream :
      Option (Assignment → OnMeta S → OnHttpEvent S → Exec S DirectExecutionResult)
  pub prepare_function_warm : Option (FunctionVersion → Exec S (Unit {0}))

pub record Service (S : Type 0) : Type 0 where
  pub db : Backend S
  pub dispatchers : Assoc (Dispatcher S)
  pub scheduling_timeout : ℕ
  pub healthy_within : ℕ
  pub max_active_execution_jobs_per_project : ℕ
  -- invokeRequestHash: SHA-256 over JSON.
  pub request_hash : String → Bytes → Result String

unfoldable pub index_dispatchers :
    {S : Type 0} → List (Dispatcher S) → Assoc (Dispatcher S) → Assoc (Dispatcher S)
index_dispatchers [] index = index
index_dispatchers (d ∷ ds) index = index_dispatchers ds (put index d.region d)

-- func New, with the durations in nanoseconds.
unfoldable pub new :
    {S : Type 0} → Backend S → List (Dispatcher S) → (String → Bytes → Result String) → Service S
unfolding index_dispatchers
new db dispatchers request_hash = record {
  db = db;
  dispatchers = index_dispatchers dispatchers [];
  scheduling_timeout = 10000000000;
  healthy_within = 15000000000;
  max_active_execution_jobs_per_project = 200;
  request_hash = request_hash;
}

-- What one call reads from outside: its k-th reading of the clock, the clock at its k-th region
-- while it ranks them, and the k-th identifier that it draws.
pub record Env : Type 0 where
  pub now : ℕ → Time
  pub rank_now : ℕ → Time
  pub uuid : ℕ → String
