-- ===== src/Store/Jobs/Claim/Order.antt =====
-- The answer of ClaimNextExecutionJob does not depend on the order of the map.
use lecrev.Prelude.{
  ◌≡◌, ◌↔◌, inl, inr, true, false, none, some, List, arith, In, In-All, Option-cases,
}
use lecrev.Prelude.Text.{str_ltb_total}
use lecrev.Maps.{Assoc, values}
use lecrev.Maps.Keyed.{IsKeyed, get_of_In}
use lecrev.Domain.{Time, ExecutionJob, JobState}
use lecrev.Store.State.{Store}
use lecrev.Store.Jobs.{claim_before, claim_loop, claim_next_execution_job}
use lecrev.Store.Jobs.Claim.{waits, Least, claim_loop-Least, claim_loop_from, claim_loop-none}

waiting-Least :
    (allowed : List JobState) (c x : ExecutionJob) (jobs : List ExecutionJob)
    → Least allowed c jobs
    → In x jobs
    → waits allowed x ≡ true
    → claim_before x c ≡ false
waiting-Least allowed c x jobs l i w =
    In-All (λ job. waits allowed job ≡ true → claim_before job c ≡ false) x jobs l i w

same_rank : (c d : ExecutionJob) → claim_before c d ≡ false → claim_before d c ≡ false → c.id ≡ d.id
unfolding claim_before
same_rank c d h k = ground (arith, str_ltb_total c.id d.id)

abbrev pub SameJobs : Assoc ExecutionJob → Assoc ExecutionJob → Type 0
SameJobs m n = (j : ExecutionJob) → In j (values m) ↔ In j (values n)

module _ (allowed : List JobState) (m n : Assoc ExecutionJob) (same : SameJobs m n) where
  chosen_alike :
      IsKeyed (λ j. j.id) m
      → (c d : ExecutionJob)
      → In c (values m) × (waits allowed c ≡ true) × Least allowed c (values m)
      → In d (values n) × (waits allowed d ≡ true) × Least allowed d (values n)
      → c ≡ d
  chosen_alike keyed c d hc hd =
      let i = (same d).1 hd.0 in
      let e =
        same_rank c d (waiting-Least allowed d c (values n) hd.2 ((same c).0 hc.0) hc.1)
          (waiting-Least allowed c d (values m) hc.2 i hd.1) in
      ground (arith, e, get_of_In (λ j. j.id) m c keyed hc.0, get_of_In (λ j. j.id) m d keyed i)

loop_chosen :
    (allowed : List JobState) (m : Assoc ExecutionJob) (c : ExecutionJob)
    → claim_loop allowed (values m) none ≡ some c
    → In c (values m) × (waits allowed c ≡ true) × Least allowed c (values m)
loop_chosen allowed m c h = elim (claim_loop_from allowed (values m) none c h) [
  | inl p ↦ cc p
  | inr p ↦ (p.0, p.1, (claim_loop-Least allowed (values m) none c h).0)
]

-- A loop over a table with a waiting job does not end with nothing.
loop_finds :
    (allowed : List JobState) (m : Assoc ExecutionJob) (c : ExecutionJob)
    → In c (values m)
    → waits allowed c ≡ true
    → claim_loop allowed (values m) none ≡ none
    → ⊥
loop_finds allowed m c i w n =
    let e =
      In-All (λ job. waits allowed job ≡ false) c (values m)
        (claim_loop-none allowed (values m) none n).1 i in
    ground (arith, e, w)

loop_alike :
    (allowed : List JobState) (m n : Assoc ExecutionJob)
    → SameJobs m n
    → IsKeyed (λ j. j.id) m
    → claim_loop allowed (values m) none ≡ claim_loop allowed (values n) none
loop_alike allowed m n same keyed = elim (Option-cases (claim_loop allowed (values m) none)) [
  | inl e ↦ elim (Option-cases (claim_loop allowed (values n) none)) [
    | inl e' ↦ cc (e, e')
    | inr (d, e') ↦
        let h = loop_chosen allowed n d e' in absurd (loop_finds allowed m d ((same d).1 h.0) h.1 e)
  ]
  | inr (c, e) ↦ elim (Option-cases (claim_loop allowed (values n) none)) [
    | inl e' ↦
        let h = loop_chosen allowed m c e in absurd (loop_finds allowed n c ((same c).0 h.0) h.1 e')
    | inr (d, e') ↦ cc (
      e,
      e',
      chosen_alike allowed m n same keyed c d (loop_chosen allowed m c e)
          (loop_chosen allowed n d e'),
    )
  ]
]

-- Two stores whose job tables hold the same jobs, the first keyed by the jobs' ids, give the same
-- answer to a claim: the order in which Go iterates over the map does not matter.
pub claim_next_order :
    (from_states : List JobState) (to_state : JobState) (now : Time) (s t : Store)
    → IsKeyed (λ j. j.id) s.execution_jobs
    → SameJobs s.execution_jobs t.execution_jobs
    → (claim_next_execution_job from_states to_state now s).0
      ≡ (claim_next_execution_job from_states to_state now t).0
unfolding claim_next_execution_job
claim_next_order from_states to_state now s t keyed same =
    ground (arith, loop_alike from_states s.execution_jobs t.execution_jobs same keyed)
