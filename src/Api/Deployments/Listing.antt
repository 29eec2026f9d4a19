-- ===== src/Api/Deployments/Listing.antt =====
-- What a listing of deployments is.
use lecrev.Prelude.{
  ℕ, zero, suc, ◌≤◌, String, Bool, true, false, ◌≡◌, List, [], ◌∷◌, All, In, All-In, select-All,
  length, leb, arith, Bool-cases, inl, inr,
}
use lecrev.Prelude.Take.{take, length-take, take-All}
use lecrev.Prelude.Text.{str_ltb_asym}
use lecrev.Scheduler.Rank.Order.{not_str_ltb_trans}
use lecrev.Sorting.{IsStrictOrder, IsSorted, sort_stable-IsSorted, sort_stable-All}
use lecrev.Api.Deployments.{
  DeploymentSummary, list_deployments, filter_deployment_summaries, sort_deployments, limit_items,
  keeps, newer,
}

newer_order : IsStrictOrder newer
newer_order = record {
  asym = λ a b h. ground (arith, str_ltb_asym b.id a.id);
  not_less_trans = λ a b c h k. ground (arith, not_str_ltb_trans c.id b.id a.id);
}

take-IsSorted :
    {A : Type 0} (less : A → A → Bool) (n : ℕ) (xs : List A)
    → IsSorted less xs
    → IsSorted less (take n xs)
unfolding take
take-IsSorted less zero xs h = tt
take-IsSorted less (suc n) [] h = tt
take-IsSorted less (suc n) (x ∷ xs) h =
    (take-All (λ y. less y x ≡ false) n xs h.0, take-IsSorted less n xs h.1)

-- What holds of a list under the limit.
limited :
    {A : Type 0} (P : List A → Type 0) (xs : List A) (limit : ℕ)
    → P xs
    → P (take limit xs)
    → P (limit_items xs limit)
unfolding limit_items
limited P xs limit h k = elim (Bool-cases (leb (length xs) limit)) [
  | inl e ↦ rw e h
  | inr e ↦ rw e k
]

limit-length : {A : Type 0} (xs : List A) (limit : ℕ) → length (limit_items xs limit) ≤ limit
unfolding limit_items
limit-length xs limit = elim (Bool-cases (leb (length xs) limit)) [
  | inl e ↦ rw e (ground (arith, e))
  | inr e ↦ rw e (length-take limit xs)
]

-- A listing is within its limit, newest first and by falling identifier at one time, and each entry
-- is one of the deployments and passes both filters.
pub listing-IsSorted :
    (lower : String → String) (items : List DeploymentSummary)
    (status_filter environment_filter : String) (limit : ℕ)
    → let listed = list_deployments lower items status_filter environment_filter limit in
      (length listed ≤ limit)
      × IsSorted newer listed
      × All (λ d. In d items × (keeps lower status_filter environment_filter d ≡ true)) listed
unfolding list_deployments filter_deployment_summaries sort_deployments
listing-IsSorted lower items status_filter environment_filter limit =
    let kept = filter_deployment_summaries lower items status_filter environment_filter in
    let sorted = sort_deployments kept in
    let P = λ (d : DeploymentSummary).
      In d items × (keeps lower status_filter environment_filter d ≡ true) in
    let in_order = sort_stable-IsSorted newer newer_order kept in
    let passed = sort_stable-All newer P kept (
      select-All (λ d. In d items) (keeps lower status_filter environment_filter) items
        (All-In items)) in
    (
      limit-length sorted limit,
      limited (IsSorted newer) sorted limit in_order (take-IsSorted newer limit sorted in_order),
      limited (All P) sorted limit passed (take-All P limit sorted passed),
    )
