-- ===== src/Tests/NodeAgent.antt =====
-- The theorems of the node agent at concrete inputs.
use lecrev.Prelude.{
  false, ℕ, ◌+◌, ◌<◌, ◌≤◌, ◌≡◌, refl, none, some, List, [], ◌∷◌, true, arith, ◌==◌,
}
use lecrev.Prelude.Int.{pos}
use lecrev.Errors.{other, pure}
use lecrev.Artifact.Objects.{MemoryStore, memory_objects}
use lecrev.NodeAgent.{Service, Config, Agent, Node, ExecutionAssignment, new}
use lecrev.NodeAgent.Slots.{
  reserve_assignment_slots, release_assignment_slots, apply_drain, is_full_network_policy,
}
use lecrev.NodeAgent.Slots.Accounting.{
  Reached, fresh, begin, finish, reached-Exact, overreports, drain_undone, offered,
}
use lecrev.NodeAgent.Execute.{Course, tick, event}

-- Two slots, one of them with the full network.
abbrev config : Config
config = record { max_concurrent_assignments = pos 2; max_concurrent_full_network_jobs = pos 1 }

-- An agent on which every execution fails without an exit code.
abbrev agent : Service MemoryStore
agent = record {
  host_id = "h1";
  region = "eu";
  driver = record {
    name = "local";
    execute = λ req m. (record { result = none; error = some (other "boom"); clean = λ m. m }, m);
    warm_inventory_for_slots = none;
    warm_inventory = none;
    prepare_function_warm = none;
    ensure_blank_warm = none;
  };
  objects = memory_objects;
  resolve_execution = λ host region version refs. pure [];
}

abbrev start : Node MemoryStore
start = record { agent = new config 8; world = ("k", 1 ∷ 2 ∷ []) ∷ []; sent = []; panicked = false }

abbrev msg : ExecutionAssignment
msg = record {
  attempt_id = "a1";
  job_id = "j1";
  function_version_id = "fv";
  artifact_bundle_key = "k";
  entrypoint = "index.mjs";
  env_vars = [];
  env_refs = [];
  payload = [];
  network_policy = "full";
  timeout_sec = 10;
  memory_mb = 128;
}

abbrev course : Course
course = record { elapsed = λ k. k; reports = tick ∷ event (7 ∷ []) ∷ []; late_tick = true }

-- An assignment with the full network begins, another without it begins, and the first ends.
abbrev one : Agent
one = reserve_assignment_slots "full" (new config 8)

abbrev two : Agent
two = reserve_assignment_slots "none" one

abbrev last : Agent
last = release_assignment_slots "full" two

reached : Reached config 8 last 1 0
unfolding new lecrev.NodeAgent.with_defaults reserve_assignment_slots
    lecrev.NodeAgent.Slots.reserve_slot is_full_network_policy lecrev.Prelude.Text.trim_space
    lecrev.Prelude.Fold.equal_fold
reached =
    finish "full" two last 1 0 1
      (begin "none" one two 1 1 1
        (begin "full" (new config 8) one 0 0 1 (fresh (new config 8) refl) (omega arith)
          (omega arith) refl refl)
        (omega arith) (omega arith) refl refl)
      refl refl

reached-Exact_example :
    (last.available_slots + 1 ≡ last.max_slots) × (last.available_full + 0 ≡ last.max_full_network)
reached-Exact_example = reached-Exact config 8 last 1 0 reached

-- Both slots are held.
reached_two : Reached config 8 two 2 1
unfolding new lecrev.NodeAgent.with_defaults reserve_assignment_slots
    lecrev.NodeAgent.Slots.reserve_slot is_full_network_policy lecrev.Prelude.Text.trim_space
    lecrev.Prelude.Fold.equal_fold
reached_two =
    begin "none" one two 1 1 1
      (begin "full" (new config 8) one 0 0 1 (fresh (new config 8) refl) (omega arith) (omega arith)
        refl refl)
      (omega arith) (omega arith) refl refl

all_held : 2 ≡ two.max_slots
unfolding new lecrev.NodeAgent.with_defaults reserve_assignment_slots
    lecrev.NodeAgent.Slots.reserve_slot
all_held = refl

overreports_example :
    (offered agent [] config 8 two ≡ pos 0)
    × (offered agent [] config 8
          (release_assignment_slots "full" (reserve_assignment_slots "none" two))
        ≡ pos 1)
overreports_example = overreports agent [] config 8 "none" "full" two 1 1 reached_two all_held

drain_undone_example :
    (offered agent [] config 8 (apply_drain two) ≡ pos 0)
    × (offered agent [] config 8 (release_assignment_slots "full" (apply_drain two)) ≡ pos 1)
drain_undone_example = drain_undone agent [] config 8 "full" two 1 1 reached_two
