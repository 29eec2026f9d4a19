-- ===== src/Store/Jobs/Claim.antt =====
-- ClaimNextExecutionJob takes the oldest waiting job, whatever order the map is iterated in.
pub mod Order
use lecrev.Prelude.{
  ◌+◌, ◌≡◌, refl, ◌⊎◌, ◌↔◌, inl, inr, Bool, true, false, ◌&&◌, Option, none, some, List, [], ◌∷◌,
  arith, All, In, In-All, if◌then◌else◌, Bool-cases, Option-cases,
}
use lecrev.Prelude.Text.{str_ltb_asym, str_ltb_total, str_ltb_trans}
use lecrev.Maps.{Assoc, put, values, count_if, count_if-put}
use lecrev.Maps.Keyed.{IsKeyed, get_of_In, count_if-pos}
use lecrev.Errors.{ok, err, nothing_found}
use lecrev.Domain.{Time, ExecutionJob, JobState, allows}
use lecrev.Store.State.{Store}
use lecrev.Store.Jobs.{claim_before, replaces, claim_loop, claim_next_execution_job}

claim_before_asym : (a b : ExecutionJob) → claim_before a b ≡ true → claim_before b a ≡ false
unfolding claim_before
claim_before_asym a b h = ground (arith, str_ltb_asym a.id b.id)

-- What is not before `c` is not before anything that comes before `c`.
claim_before_trans :
    (x c d : ExecutionJob)
    → claim_before x c ≡ false
    → claim_before d c ≡ true
    → claim_before x d ≡ false
unfolding claim_before
claim_before_trans x c d h k = ground (arith, str_ltb_trans x.id d.id c.id)

abbrev waits : List JobState → ExecutionJob → Bool
waits allowed job = allows allowed job.state

claim_before_irrefl : (a : ExecutionJob) → claim_before a a ≡ false
claim_before_irrefl a = ground (arith, claim_before_asym a a)

not_before_trans :
    (a b c : ExecutionJob)
    → claim_before a b ≡ false
    → claim_before b c ≡ false
    → claim_before a c ≡ false
unfolding claim_before
not_before_trans a b c h k = ground (arith, str_ltb_trans a.id c.id b.id, str_ltb_total b.id c.id)

abbrev NotBefore : Option ExecutionJob → ExecutionJob → Type 0
NotBefore none c = Unit
NotBefore (some d) c = claim_before d c ≡ false

-- No waiting job of the list comes before `c`.
abbrev pub Least : List JobState → ExecutionJob → List ExecutionJob → Type 0
Least allowed c = All (λ job. waits allowed job ≡ true → claim_before job c ≡ false)

-- One round keeps the loop's choice the first of what it has seen.
round_least :
    (allowed : List JobState) (job c : ExecutionJob) (chosen : Option ExecutionJob)
    → NotBefore (if waits allowed job && replaces job chosen then some job else chosen) c
    → (waits allowed job ≡ true → claim_before job c ≡ false) × NotBefore chosen c
round_least allowed job c none h = ground arith
round_least allowed job c (some d) h =
    ground (arith, claim_before_trans job c d, not_before_trans job d c)

claim_loop-Least :
    (allowed : List JobState) (jobs : List ExecutionJob) (chosen : Option ExecutionJob)
    (c : ExecutionJob)
    → claim_loop allowed jobs chosen ≡ some c
    → Least allowed c jobs × NotBefore chosen c
unfolding claim_loop
claim_loop-Least allowed [] none c e = (tt, tt)
claim_loop-Least allowed [] (some d) c e = (tt, ground (arith, claim_before_irrefl c))
claim_loop-Least allowed (job ∷ jobs) chosen c e =
    let rest = claim_loop-Least allowed jobs _ c e in
    let now = round_least allowed job c chosen rest.1 in ((now.0, rest.0), now.1)

claim_loop_from :
    (allowed : List JobState) (jobs : List ExecutionJob) (chosen : Option ExecutionJob)
    (c : ExecutionJob)
    → claim_loop allowed jobs chosen ≡ some c
    → (chosen ≡ some c) ⊎ (In c jobs × (waits allowed c ≡ true))
unfolding claim_loop
claim_loop_from allowed [] chosen c e = inl e
claim_loop_from allowed (job ∷ jobs) chosen c e =
    elim (Bool-cases (waits allowed job && replaces job chosen)) [
      | inl t ↦ from_taken t (claim_loop_from allowed jobs _ c e)
      | inr t ↦ from_kept t (claim_loop_from allowed jobs _ c e)
    ]
  where
    from_taken :
        (waits allowed job && replaces job chosen) ≡ true
        → ((if waits allowed job && replaces job chosen then some job else chosen) ≡ some c)
          ⊎ (In c jobs × (waits allowed c ≡ true))
        → (chosen ≡ some c) ⊎ (In c (job ∷ jobs) × (waits allowed c ≡ true))
    from_taken t (inl p) = inr (inl (ground arith), ground arith)
    from_taken t (inr p) = inr (inr p.0, p.1)

    from_kept :
        (waits allowed job && replaces job chosen) ≡ false
        → ((if waits allowed job && replaces job chosen then some job else chosen) ≡ some c)
          ⊎ (In c jobs × (waits allowed c ≡ true))
        → (chosen ≡ some c) ⊎ (In c (job ∷ jobs) × (waits allowed c ≡ true))
    from_kept t (inl p) = inl (ground arith)
    from_kept t (inr p) = inr (inr p.0, p.1)

-- The loop ends with nothing only if it began so and no job of the list waits.
claim_loop-none :
    (allowed : List JobState) (jobs : List ExecutionJob) (chosen : Option ExecutionJob)
    → claim_loop allowed jobs chosen ≡ none
    → (chosen ≡ none) × All (λ job. waits allowed job ≡ false) jobs
unfolding claim_loop
claim_loop-none allowed [] chosen e = (e, tt)
claim_loop-none allowed (job ∷ jobs) none e =
    ground
      (arith, claim_loop-none allowed jobs (if waits allowed job && true then some job else none))
claim_loop-none allowed (job ∷ jobs) (some d) e = ground (
  arith,
  claim_loop-none allowed jobs
      (if waits allowed job && claim_before job d then some job else some d),
)

count_if-zero :
    (allowed : List JobState) (m : Assoc ExecutionJob)
    → All (λ job. waits allowed job ≡ false) (values m)
    → count_if (waits allowed) m ≡ 0
unfolding values count_if
count_if-zero allowed [] h = refl
count_if-zero allowed ((id, job) ∷ m) h = ground (arith, count_if-zero allowed m h.1)

-- The same as an equation of the two tests, for statements.
abbrev pub NoneBefore : List JobState → ExecutionJob → List ExecutionJob → Type 0
NoneBefore allowed c = All (λ job. (allows allowed job.state && claim_before job c) ≡ false)

Least-NoneBefore :
    (allowed : List JobState) (c : ExecutionJob) (jobs : List ExecutionJob)
    → Least allowed c jobs
    → NoneBefore allowed c jobs
Least-NoneBefore allowed c [] h = tt
Least-NoneBefore allowed c (job ∷ jobs) h = (ground arith, Least-NoneBefore allowed c jobs h.1)

abbrev pub claimed_job : ExecutionJob → JobState → Time → ExecutionJob
claimed_job c to_state now = record c { state = to_state; updated_at = now }

-- A successful claim returns a job of the table that waited in one of the given states and that no
-- waiting job of the table comes before in the claim order; only its state and time of update are
-- new, and the store changes only by writing it back under its id.
pub claim_next-least :
    (from_states : List JobState) (to_state : JobState) (now : Time) (s : Store)
    {job : ExecutionJob} {s' : Store}
    → claim_next_execution_job from_states to_state now s ≡ (ok job, s')
    → (c : ExecutionJob) × In c (values s.execution_jobs)
      × (waits from_states c ≡ true)
      × NoneBefore from_states c (values s.execution_jobs)
      × (job ≡ claimed_job c to_state now)
      × (s' ≡ record s { execution_jobs = put s.execution_jobs c.id (claimed_job c to_state now) })
unfolding claim_next_execution_job
claim_next-least from_states to_state now s e =
    elim (Option-cases (claim_loop from_states (values s.execution_jobs) none)) [
      | inl n ↦ cc n
      | inr (c, h) ↦ elim (claim_loop_from from_states _ none c h) [
        | inl p ↦ cc p
        | inr p ↦ (
          c,
          p.0,
          p.1,
          Least-NoneBefore from_states c _ (claim_loop-Least from_states _ none c h).0,
          ground (arith, h),
          ground (arith, h),
        )
      ]
    ]

-- The claim finds nothing exactly when no job of the table is in one of the given states.
claim_next-none :
    (from_states : List JobState) (to_state : JobState) (now : Time) (s : Store)
    → (claim_next_execution_job from_states to_state now s ≡ (err nothing_found, s))
      ↔ (count_if (λ job. allows from_states job.state) s.execution_jobs ≡ 0)
unfolding claim_next_execution_job
claim_next-none from_states to_state now s = (
  λ e. elim (Option-cases (claim_loop from_states (values s.execution_jobs) none)) [
    | inl n ↦ count_if-zero from_states s.execution_jobs (claim_loop-none from_states _ none n).1
    | inr (c, h) ↦ cc h
  ],
  λ e. elim (Option-cases (claim_loop from_states (values s.execution_jobs) none)) [
    | inl n ↦ ground (arith, n)
    | inr (c, h) ↦ elim (claim_loop_from from_states _ none c h) [
      | inl p ↦ cc p
      | inr p ↦ absurd (
          omega
            (arith, count_if-pos (λ job. allows from_states job.state) s.execution_jobs c p.0 p.1))
    ]
  ],
)

-- On a table keyed by the jobs' ids, a claim into a state outside the given ones leaves exactly
-- one job fewer in them.
claim_next-count :
    (from_states : List JobState) (to_state : JobState) (now : Time) (s : Store)
    {job : ExecutionJob} {s' : Store}
    → IsKeyed (λ j. j.id) s.execution_jobs
    → allows from_states to_state ≡ false
    → claim_next_execution_job from_states to_state now s ≡ (ok job, s')
    → count_if (λ j. allows from_states j.state) s'.execution_jobs + 1
      ≡ count_if (λ j. allows from_states j.state) s.execution_jobs
claim_next-count from_states to_state now s keyed out e =
    let (c, i, w, l, eq, eq') = claim_next-least from_states to_state now s e in
    ground (
      arith,
      eq',
      get_of_In (λ j. j.id) s.execution_jobs c keyed i,
      count_if-put (λ j. allows from_states j.state) s.execution_jobs c.id
          (claimed_job c to_state now),
    )

-- A claim rewrites one job, or writes nothing.
pub claim_next_effect :
    (from_states : List JobState) (to_state : JobState) (now : Time) (s : Store)
    → ((c : ExecutionJob) × ((claim_next_execution_job from_states to_state now s).1
          ≡ record s { execution_jobs = put s.execution_jobs c.id (claimed_job c to_state now) }))
      ⊎ ((claim_next_execution_job from_states to_state now s).1 ≡ s)
unfolding claim_next_execution_job
claim_next_effect from_states to_state now s =
    elim (Option-cases (claim_loop from_states (values s.execution_jobs) none)) [
      | inl h ↦ inr (ground (arith, h))
      | inr (c, h) ↦ inl (c, ground (arith, h))
    ]
