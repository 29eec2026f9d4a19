-- ===== src/Scheduler/Rank.antt =====
-- internal/scheduler/service.go: rankDispatchers, the order of the regions that may run a version.
pub mod Order
use Prim.Native.String.{◌++◌}
use lecrev.Prelude.{
  ℕ, suc, ◌+◌, String, Bool, true, false, not, ◌||◌, List, [], ◌∷◌, Option, none, some, ltb, leb,
  ◌==◌, if◌then◌else◌, str_eq,
}
use lecrev.Prelude.Int.{ℤ, pos, ltb_ℤ}
use lecrev.Prelude.Text.{join, str_ltb}
use lecrev.Maps.{get}
use lecrev.Sorting.{sort_stable}
use lecrev.Errors.{Result, ok, err, Exec, pure, raise, outcome, ◌>>=◌, is_not_found, other}
use lecrev.Domain.{Time, FunctionVersion, Region, RegionStats}
use lecrev.Scheduler.State.{Service, Dispatcher}

pub record Candidate (S : Type 0) : Type 0 where
  pub region : String
  pub dispatcher : Dispatcher S
  pub stats : RegionStats
  pub backlog : ℕ
  pub healthy : Bool
  pub artifact_local : Bool
  pub last_heartbeat : Time

-- A heartbeat counts as recent while its age is at most the bound.
unfoldable pub region_healthy : Region → Time → ℕ → Bool
region_healthy region now max_age =
    if not (str_eq region.state "active")
    then false
    else if max_age == 0 || region.last_heartbeat_at == 0
    then true
    else leb now (region.last_heartbeat_at + max_age)

-- `if a != b { return a }` on Booleans, and the like on counts that should be small or large.
abbrev true_first : Bool → Bool → Bool → Bool
true_first true false rest = true
true_first false true rest = false
true_first _ _ rest = rest

abbrev small_first : ℕ → ℕ → Bool → Bool
small_first a b rest = if not (a == b) then ltb a b else rest

abbrev large_first : ℤ → ℤ → Bool → Bool
large_first a b rest = if ltb_ℤ a b || ltb_ℤ b a then ltb_ℤ b a else rest

abbrev late_first : Time → Time → Bool → Bool
late_first a b rest = if not (a == b) then ltb b a else rest

module _ {S : Type 0} where
  -- The `less` function of the sort, one test after the other.
  unfoldable pub by_heartbeat : Candidate S → Candidate S → Bool
  by_heartbeat c d = late_first c.last_heartbeat d.last_heartbeat (str_ltb c.region d.region)

  unfoldable pub by_hosts : Candidate S → Candidate S → Bool
  by_hosts c d = large_first c.stats.available_hosts d.stats.available_hosts (by_heartbeat c d)

  unfoldable pub by_blank_warm : Candidate S → Candidate S → Bool
  by_blank_warm c d = large_first c.stats.blank_warm d.stats.blank_warm (by_hosts c d)

  unfoldable pub by_function_warm : Candidate S → Candidate S → Bool
  by_function_warm c d = large_first c.stats.function_warm d.stats.function_warm (by_blank_warm c d)

  unfoldable pub by_backlog : Candidate S → Candidate S → Bool
  by_backlog c d = small_first c.backlog d.backlog (by_function_warm c d)

  unfoldable pub by_artifact : Candidate S → Candidate S → Bool
  by_artifact c d = true_first c.artifact_local d.artifact_local (by_backlog c d)

  unfoldable pub ranks_before : Candidate S → Candidate S → Bool
  unfolding by_artifact by_backlog by_function_warm by_blank_warm by_hosts by_heartbeat
  ranks_before c d = true_first c.healthy d.healthy (by_artifact c d)

abbrev has_region : Option Time → Bool
has_region none = false
has_region (some t) = true

module _ {S : Type 0} (svc : Service S) where
  open svc use {db}

  -- The regions that hold a copy of the artifact.
  unfoldable pub artifact_region_index : String → Exec S (String → Bool)
  artifact_region_index digest = if str_eq digest "" then pure (λ region. false) else do
    artifact ← db.get_artifact digest
    pure (λ region. has_region (get artifact.regions region))

  -- `if err != nil && !errors.Is(err, ErrNotFound) { return }` with the zero map on not found.
  abbrev pub index_or_empty : Result (String → Bool) → Exec S (String → Bool)
  index_or_empty (ok index) = pure index
  index_or_empty (err e) = if is_not_found e then pure (λ region. false) else raise e

  -- The candidate by the region's stored snapshot, or by the dispatcher's own numbers without one.
  abbrev assess :
      String → Dispatcher S → RegionStats → ℕ → Bool → Time → Result Region → Exec S (Candidate S)
  assess region dispatcher stats backlog artifact_local now (ok snapshot) = pure (record {
    region = region;
    dispatcher = dispatcher;
    stats = record {
      available_hosts = snapshot.available_hosts;
      available_full_network_slots = pos 0;
      blank_warm = snapshot.blank_warm;
      function_warm = snapshot.function_warm;
    };
    backlog = backlog;
    healthy = region_healthy snapshot now svc.healthy_within;
    artifact_local = artifact_local;
    last_heartbeat = snapshot.last_heartbeat_at;
  })
  assess region dispatcher stats backlog artifact_local now (err e) =
      if not (is_not_found e)
      then raise e
      else pure (record {
        region = region;
        dispatcher = dispatcher;
        stats = stats;
        backlog = backlog;
        healthy = true;
        artifact_local = artifact_local;
        last_heartbeat = 0;
      })

  unfoldable pub candidate_for :
      String → Dispatcher S → (String → Bool) → Time → Exec S (Candidate S)
  unfolding region_healthy
  candidate_for region dispatcher index now s =
      let stats = dispatcher.stats s in
      (do
        backlog ← db.count_active_execution_jobs_by_region region
        snapshot ← outcome (db.get_region region)
        assess region dispatcher stats backlog (index region) now snapshot)
        s

  unfoldable pub collect_candidates :
      List String → ℕ → (String → Bool) → (ℕ → Time) → Exec S (List (Candidate S))
  unfolding candidate_for
  collect_candidates [] k index now = pure []
  collect_candidates (region ∷ regions) k index now =
      let rest = collect_candidates regions (suc k) index now in
      elim (get svc.dispatchers region) [
        | none ↦ rest
        | some dispatcher ↦ do
          c ← candidate_for region dispatcher index (now k)
          cs ← rest
          pure (c ∷ cs)
      ]

  -- The list is refused when it is empty, and sorted otherwise.
  abbrev pub ranked : FunctionVersion → List (Candidate S) → Exec S (List (Candidate S))
  ranked version [] =
      raise (other ("no dispatcher available for [" ++ (join " " version.regions ++ "]")))
  ranked version (c ∷ cs) = pure (sort_stable ranks_before (c ∷ cs))

  unfoldable pub rank_dispatchers : FunctionVersion → (ℕ → Time) → Exec S (List (Candidate S))
  unfolding artifact_region_index collect_candidates
  rank_dispatchers version now = do
    found ← outcome (artifact_region_index version.artifact_digest)
    index ← index_or_empty found
    candidates ← collect_candidates version.regions 0 index now
    ranked version candidates
