-- ===== src/Scheduler/Rank/Order.antt =====
-- The ranking is a strict order, so the candidates come out best first.
use lecrev.Prelude.{Bool, String, ℕ, ◌≡◌, ◌≢◌, false, List, [], ◌∷◌, arith}
use lecrev.Prelude.Text.{str_ltb, str_ltb_asym, str_ltb_total, str_ltb_trans}
use lecrev.Errors.{ok, bind_ok, outcome, ◌>>=◌}
use lecrev.Domain.{FunctionVersion, Time}
use lecrev.Sorting.{IsStrictOrder, IsSorted, sort_stable-IsSorted, sort_stable-nonempty}
use lecrev.Scheduler.Rank.{
  Candidate, by_heartbeat, by_hosts, by_blank_warm, by_function_warm, by_backlog, by_artifact,
  ranks_before, ranked, index_or_empty, collect_candidates, artifact_region_index, rank_dispatchers,
}
use lecrev.Scheduler.State.{Service}

pub not_str_ltb_trans :
    (a b c : String) → str_ltb b a ≡ false → str_ltb c b ≡ false → str_ltb c a ≡ false
not_str_ltb_trans a b c h k = ground (arith, str_ltb_total b a, str_ltb_trans c a b)

module _ {S : Type 0} where
  by_heartbeat_order : IsStrictOrder (by_heartbeat {S = S})
  unfolding by_heartbeat
  by_heartbeat_order = record {
    asym = λ a b h. ground (arith, str_ltb_asym a.region b.region);
    not_less_trans = λ a b c h k. ground (arith, not_str_ltb_trans a.region b.region c.region);
  }

  by_hosts_order : IsStrictOrder (by_hosts {S = S})
  unfolding by_hosts
  by_hosts_order = record {
    asym = λ a b h. ground (arith, by_heartbeat_order.asym a b);
    not_less_trans = λ a b c h k. ground (arith, by_heartbeat_order.not_less_trans a b c);
  }

  by_blank_warm_order : IsStrictOrder (by_blank_warm {S = S})
  unfolding by_blank_warm
  by_blank_warm_order = record {
    asym = λ a b h. ground (arith, by_hosts_order.asym a b);
    not_less_trans = λ a b c h k. ground (arith, by_hosts_order.not_less_trans a b c);
  }

  by_function_warm_order : IsStrictOrder (by_function_warm {S = S})
  unfolding by_function_warm
  by_function_warm_order = record {
    asym = λ a b h. ground (arith, by_blank_warm_order.asym a b);
    not_less_trans = λ a b c h k. ground (arith, by_blank_warm_order.not_less_trans a b c);
  }

  by_backlog_order : IsStrictOrder (by_backlog {S = S})
  unfolding by_backlog
  by_backlog_order = record {
    asym = λ a b h. ground (arith, by_function_warm_order.asym a b);
    not_less_trans = λ a b c h k. ground (arith, by_function_warm_order.not_less_trans a b c);
  }

  by_artifact_order : IsStrictOrder (by_artifact {S = S})
  unfolding by_artifact
  by_artifact_order = record {
    asym = λ a b h. ground (arith, by_backlog_order.asym a b);
    not_less_trans = λ a b c h k. ground (arith, by_backlog_order.not_less_trans a b c);
  }

  ranks_before_order : IsStrictOrder (ranks_before {S = S})
  unfolding ranks_before
  ranks_before_order = record {
    asym = λ a b h. ground (arith, by_artifact_order.asym a b);
    not_less_trans = λ a b c h k. ground (arith, by_artifact_order.not_less_trans a b c);
  }

ranked-IsSorted :
    {S : Type 0} (svc : Service S) (version : FunctionVersion) (cs : List (Candidate S)) (s : S)
    {ranking : List (Candidate S)} {s' : S}
    → ranked svc version cs s ≡ (ok ranking, s')
    → (ranking ≢ []) × IsSorted ranks_before ranking
ranked-IsSorted svc version [] s e = cc e
ranked-IsSorted svc version (c ∷ cs) s {ranking} e = ground (
  arith,
  sort_stable-nonempty ranks_before c cs,
  sort_stable-IsSorted ranks_before ranks_before_order (c ∷ cs),
)

-- A ranking that is returned is not empty, and no region comes after one that ranks before it.
pub rank_dispatchers-IsSorted :
    {S : Type 0} (svc : Service S) (version : FunctionVersion) (now : ℕ → Time) (s : S)
    {ranking : List (Candidate S)} {s' : S}
    → rank_dispatchers svc version now s ≡ (ok ranking, s')
    → (ranking ≢ []) × IsSorted ranks_before ranking
unfolding rank_dispatchers
rank_dispatchers-IsSorted svc version now s {ranking} e =
    let rest = λ (index : String → Bool).
      collect_candidates svc version.regions 0 index now >>= ranked svc version in
    let (found, _, e1) =
      bind_ok (outcome (artifact_region_index svc version.artifact_digest))
        (λ found. index_or_empty svc found >>= rest) s e in
    let (index, _, e2) = bind_ok (index_or_empty svc found) rest _ e1 in
    let (cs, _, e3) =
      bind_ok (collect_candidates svc version.regions 0 index now) (ranked svc version) _ e2 in
    ranked-IsSorted svc version cs _ e3
