-- ===== src/Sorting.antt =====
-- sort.SliceStable of the Go standard library: a stable sort by a `less` function.
use mathlib.Core.List.{Perm}
use mathlib.Core.List.Perm
use lecrev.Prelude.{
  ◌≡◌, ◌≢◌, ap, subst, Bool, true, false, List, [], ◌∷◌, All, Bool-cases, inl, inr, if◌then◌else◌,
  arith,
}

module _ {ℓ} {A : Type ℓ} (less : A → A → Bool) where
  -- An element goes before the first one that is not less than it.
  unfoldable pub insert : A → List A → List A
  insert x [] = x ∷ []
  insert x (y ∷ ys) = if less y x then y ∷ insert x ys else x ∷ (y ∷ ys)

  unfoldable pub sort_stable : List A → List A
  unfolding insert
  sort_stable [] = []
  sort_stable (x ∷ xs) = insert x (sort_stable xs)

  -- No element is less than one that stands before it.
  abbrev pub IsSorted : List A → Type 0
  IsSorted [] = Unit
  IsSorted (x ∷ xs) = All (λ y. less y x ≡ false) xs × IsSorted xs

  insert-perm : (x : A) (xs : List A) → Perm (insert x xs) (x ∷ xs)
  unfolding insert
  insert-perm x [] = Perm.refl _
  insert-perm x (y ∷ ys) = elim (Bool-cases (less y x)) [
    | inl e ↦ rw e (Perm.trans (Perm.cons y (insert-perm x ys)) (Perm.swap x y ys))
    | inr e ↦ rw e (Perm.refl _)
  ]

  pub sort_stable-perm : (xs : List A) → Perm (sort_stable xs) xs
  unfolding sort_stable
  sort_stable-perm [] = Perm.refl _
  sort_stable-perm (x ∷ xs) =
      Perm.trans (insert-perm x (sort_stable xs)) (Perm.cons x (sort_stable-perm xs))

  insert-nonempty : (x : A) (xs : List A) → insert x xs ≢ []
  unfolding insert
  insert-nonempty x [] e = cc e
  insert-nonempty x (y ∷ ys) e = ground arith

  pub sort_stable-nonempty : (x : A) (xs : List A) → sort_stable (x ∷ xs) ≢ []
  unfolding sort_stable
  sort_stable-nonempty x xs = insert-nonempty x (sort_stable xs)

-- What `sort` asks of a `less` function: a strict weak order.
pub record IsStrictOrder {ℓ} {A : Type ℓ} (less : A → A → Bool) : Type ℓ where
  pub asym : (a b : A) → less a b ≡ true → less b a ≡ false
  pub not_less_trans : (a b c : A) → less b a ≡ false → less c b ≡ false → less c a ≡ false

module _ {ℓ} {A : Type ℓ} (less : A → A → Bool) where
  insert-All {κ} :
      (P : A → Type κ) (x : A) (xs : List A) → P x → All P xs → All P (insert less x xs)
  unfolding insert
  insert-All P x [] px h = (px, tt)
  insert-All P x (y ∷ ys) px h = elim (Bool-cases (less y x)) [
    | inl e ↦ rw e (h.0, insert-All P x ys px h.1)
    | inr e ↦ rw e (px, h)
  ]

  pub sort_stable-All {κ} : (P : A → Type κ) (xs : List A) → All P xs → All P (sort_stable less xs)
  unfolding sort_stable
  sort_stable-All P [] h = tt
  sort_stable-All P (x ∷ xs) h = insert-All P x (sort_stable less xs) h.0 (sort_stable-All P xs h.1)

module _ {A : Type 0} (less : A → A → Bool) where
  All-insert : (P : A → Type 0) (x : A) (xs : List A) → All P (insert less x xs) → P x × All P xs
  unfolding insert
  All-insert P x [] h = h
  All-insert P x (y ∷ ys) h = elim (Bool-cases (less y x)) [
    | inl e ↦
        let h' : All P (y ∷ insert less x ys) =
          subst (All P) (ap (λ b. if b then y ∷ insert less x ys else x ∷ (y ∷ ys)) e) h in
        let r = All-insert P x ys h'.1 in (r.0, (h'.0, r.1))
    | inr e ↦ subst (All P) (ap (λ b. if b then y ∷ insert less x ys else x ∷ (y ∷ ys)) e) h
  ]

  -- What holds of all elements of the sorted list holds of all elements.
  pub All-sort_stable : (P : A → Type 0) (xs : List A) → All P (sort_stable less xs) → All P xs
  unfolding sort_stable
  All-sort_stable P [] h = tt
  All-sort_stable P (x ∷ xs) h =
      let r = All-insert P x (sort_stable less xs) h in (r.0, All-sort_stable P xs r.1)

module _ {ℓ} {A : Type ℓ} (less : A → A → Bool) (order : IsStrictOrder less) where
  not_less_All :
      (x y : A) (ys : List A)
      → less y x ≡ false
      → All (λ z. less z y ≡ false) ys
      → All (λ z. less z x ≡ false) ys
  not_less_All x y [] h all = tt
  not_less_All x y (z ∷ zs) h all =
      (order.not_less_trans x y z h all.0, not_less_All x y zs h all.1)

  insert-IsSorted : (x : A) (xs : List A) → IsSorted less xs → IsSorted less (insert less x xs)
  unfolding insert
  insert-IsSorted x [] h = (tt, tt)
  insert-IsSorted x (y ∷ ys) h = elim (Bool-cases (less y x)) [
    | inl e ↦ rw e (
      insert-All less (λ z. less z y ≡ false) x ys (order.asym y x e) h.0,
      insert-IsSorted x ys h.1,
    )
    | inr e ↦ rw e ((e, not_less_All x y ys e h.0), h)
  ]

  pub sort_stable-IsSorted : (xs : List A) → IsSorted less (sort_stable less xs)
  unfolding sort_stable
  sort_stable-IsSorted [] = tt
  sort_stable-IsSorted (x ∷ xs) = insert-IsSorted x _ (sort_stable-IsSorted xs)
