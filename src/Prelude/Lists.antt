-- ===== src/Prelude/Lists.antt =====
-- Lists measured by native numbers, membership tests and predicates by recursion.
use Prim.Native.Nat.{ℕ, suc, ◌+◌}
use Prim.Native.String.{String}
use mathlib.Core.Path.{◌≡◌, refl, sym, subst}
use mathlib.Core.Logic.{◌⊎◌, inl, inr}
use mathlib.Core.Bool.{Bool, true, false, ◌||◌, ◌&&◌}
use mathlib.Core.List.{List, [], ◌∷◌, ◌++◌}
use native.Mathlib.Omega.{arith}
use text.Mathlib.Text.{◌==◌ as str_eq}

module _ {ℓ} {A : Type ℓ} where
  abbrev pub length : List A → ℕ
  length [] = 0
  length (x ∷ xs) = suc (length xs)

  -- The elements that pass a Boolean test, in order.
  abbrev pub select : (A → Bool) → List A → List A
  select p [] = []
  select p (x ∷ xs) = elim (p x) [ true ↦ x ∷ select p xs | false ↦ select p xs ]

  abbrev pub All {κ} : (A → Type κ) → List A → Type κ
  All P [] = Unit
  All P (x ∷ xs) = P x × All P xs

  pub length-append : (xs ys : List A) → length (xs ++ ys) ≡ length xs + length ys
  length-append [] ys = omega arith
  length-append (x ∷ xs) ys = omega (arith, length-append xs ys)

-- Membership by recursion, which the tactics take apart.
abbrev pub In : {A : Type 0} → A → List A → Type 0
In a [] = ⊥
In a (x ∷ xs) = (a ≡ x) ⊎ In a xs

pub In-All : {A : Type 0} (P : A → Type 0) (a : A) (xs : List A) → All P xs → In a xs → P a
In-All P a [] h m = elim m [ ]
In-All P a (x ∷ xs) h (inl e) = subst P (sym e) h.0
In-All P a (x ∷ xs) h (inr m) = In-All P a xs h.1 m

-- slices.Contains at string.
abbrev pub contains : List String → String → Bool
contains [] s = false
contains (x ∷ xs) s = str_eq x s || contains xs s

pub List-cases : {A : Type 0} (xs : List A) → (xs ≡ []) ⊎ ((x : A) × (ys : List A) × (xs ≡ x ∷ ys))
List-cases [] = inl refl
List-cases (x ∷ xs) = inr (x, xs, refl)

tabulate : {A : Type 0} (B : A → Type 0) (xs : List A) → ((a : A) → In a xs → B a) → All B xs
tabulate B [] f = tt
tabulate B (x ∷ xs) f = (f x (inl refl), tabulate B xs (λ a i. f a (inr i)))

-- Every element is one of the list.
pub All-In : {A : Type 0} (xs : List A) → All (λ a. In a xs) xs
All-In xs = tabulate (λ a. In a xs) xs (λ a i. i)

pub select-All :
    {A : Type 0} (B : A → Type 0) (p : A → Bool) (xs : List A)
    → All B xs
    → All (λ a. B a × (p a ≡ true)) (select p xs)
select-All B p [] h = tt
select-All B p (x ∷ xs) h = kept (select-All B p xs h.1) (p x) refl
  where
    kept :
        All (λ a. B a × (p a ≡ true)) (select p xs)
        → (b : Bool) → p x ≡ b
        → All (λ a. B a × (p a ≡ true)) (elim b [ true ↦ x ∷ select p xs | false ↦ select p xs ])
    kept rest true e = ((h.0, e), rest)
    kept rest false e = rest

-- What holds of the selected elements, as a test on all of them.
pub All-select :
    {A : Type 0} (p q : A → Bool) (xs : List A)
    → All (λ a. q a ≡ false) (select p xs)
    → All (λ a. (p a && q a) ≡ false) xs
All-select p q [] h = tt
All-select p q (x ∷ xs) h = ground (arith, All-select p q xs)

-- Nothing is selected exactly if no element passes the test.
pub select-none :
    {A : Type 0} (p : A → Bool) (xs : List A)
    → All (λ a. true ≡ false) (select p xs)
    → All (λ a. p a ≡ false) xs
select-none p [] h = tt
select-none p (x ∷ xs) h = ground (arith, select-none p xs)

pub none-select :
    {A : Type 0} (p : A → Bool) (xs : List A) → All (λ a. p a ≡ false) xs → select p xs ≡ []
none-select p [] h = refl
none-select p (x ∷ xs) h = ground (arith, h.0, none-select p xs h.1)
