-- ===== src/Regions/Normal.antt =====
-- What a normalised list of regions is.
use lecrev.Prelude.{
  String, ◌≡◌, ◌≢◌, refl, true, false, List, [], ◌∷◌, All, contains, arith, eq_iff, str_eq, ◌||◌,
  if◌then◌else◌, In, In-All, Bool-cases, inl, inr,
}
use lecrev.Prelude.Text.{trim_space}
use mathlib.Core.List.{◌++◌ as append, append-nil, append_assoc}
use lecrev.Errors.{ok}
use lecrev.Regions.{default_execution_regions, normalize_loop, normalize_execution_regions}

-- No name stands twice.
abbrev pub IsUnique : List String → Type 0
IsUnique [] = Unit
IsUnique (r ∷ rs) = (contains rs r ≡ false) × IsUnique rs

abbrev pub AllKnown : List String → Type 0
AllKnown = All (λ r. contains default_execution_regions r ≡ true)

contains-append :
    (xs : List String) (y k : String)
    → contains (append xs (y ∷ [])) k ≡ (contains xs k || str_eq y k)
contains-append [] y k = ground arith
contains-append (x ∷ xs) y k = ground (arith, contains-append xs y k)

append-AllKnown :
    (xs : List String) (y : String)
    → AllKnown xs
    → contains default_execution_regions y ≡ true
    → AllKnown (append xs (y ∷ []))
append-AllKnown [] y h k = (k, tt)
append-AllKnown (x ∷ xs) y h k = (h.0, append-AllKnown xs y h.1 k)

append-IsUnique :
    (xs : List String) (y : String)
    → IsUnique xs
    → contains xs y ≡ false
    → IsUnique (append xs (y ∷ []))
append-IsUnique [] y h k = ground arith
append-IsUnique (x ∷ xs) y h k =
    ground (arith, contains-append xs y x, eq_iff x y, eq_iff y x, append-IsUnique xs y h.1)

abbrev Good : List String → Type 0
Good rs = AllKnown rs × IsUnique rs

-- One round on the list that follows it.
abbrev kept : List String → String → List String
kept out trimmed =
    if str_eq trimmed "" || contains out trimmed then out else append out (trimmed ∷ [])

kept-Good :
    (out : List String) (trimmed : String)
    → contains default_execution_regions trimmed ≡ true
    → Good out
    → Good (kept out trimmed)
kept-Good out trimmed k h = ground (arith, append-AllKnown out trimmed, append-IsUnique out trimmed)

loop-Good :
    (requested out : List String) {rs : List String}
    → Good out
    → normalize_loop requested out ≡ ok rs
    → Good rs
unfolding normalize_loop
loop-Good [] out h e = ground arith
loop-Good (r ∷ requested) out {rs} h e =
    let t = trim_space r in
    ground (
      arith,
      loop-Good requested out {rs = rs},
      loop-Good requested (append out (t ∷ [])) {rs = rs},
      append-AllKnown out t,
      append-IsUnique out t,
    )

default-Good : Good default_execution_regions
default-Good = ground arith

-- A list that the normalisation returns is not empty, holds only regions of the catalogue, and
-- none of them twice.
pub normalize_regions-good :
    (requested : List String) {rs : List String}
    → normalize_execution_regions requested ≡ ok rs
    → (rs ≢ []) × AllKnown rs × IsUnique rs
unfolding normalize_execution_regions
normalize_regions-good [] e = ground (arith, default-Good)
normalize_regions-good (r ∷ requested) {rs} e =
    ground (arith, loop-Good (r ∷ requested) [] {rs = rs})

-- The regions of the catalogue have no blanks around them.
trim-default : All (λ r. (trim_space r ≡ r) × (str_eq r "" ≡ false)) default_execution_regions
unfolding trim_space
trim-default = ((refl, refl), ((refl, refl), ((refl, refl), tt)))

contains-In : (xs : List String) (r : String) → contains xs r ≡ true → In r xs
contains-In [] r h = ground arith
contains-In (x ∷ xs) r h = elim (Bool-cases (str_eq x r)) [
  | inl e ↦ inl (ground (arith, eq_iff x r))
  | inr e ↦ inr (contains-In xs r (ground arith))
]

trim-known :
    (r : String)
    → contains default_execution_regions r ≡ true
    → (trim_space r ≡ r) × (str_eq r "" ≡ false)
trim-known r h =
    In-All (λ r. (trim_space r ≡ r) × (str_eq r "" ≡ false)) r default_execution_regions
      trim-default (contains-In default_execution_regions r h)

abbrev Apart : List String → List String → Type 0
Apart out = All (λ r. contains out r ≡ false)

append-Apart :
    (out rs : List String) (r : String)
    → Apart out rs
    → contains rs r ≡ false
    → Apart (append out (r ∷ [])) rs
append-Apart out [] r a u = tt
append-Apart out (s ∷ rs) r a u =
    ground (arith, contains-append out r s, eq_iff r s, eq_iff s r, append-Apart out rs r a.1)

loop-stable :
    (rs out : List String) → Good rs → Apart out rs → normalize_loop rs out ≡ ok (append out rs)
unfolding normalize_loop
loop-stable [] out g a = ground (arith, append-nil out)
loop-stable (r ∷ rs) out g a = ground (
  arith,
  trim-known r g.0.0,
  append_assoc out (r ∷ []) rs,
  append-Apart out rs r a.1,
  loop-stable rs (append out (r ∷ [])),
)

empty-Apart : (rs : List String) → Apart [] rs
empty-Apart [] = tt
empty-Apart (r ∷ rs) = (refl, empty-Apart rs)

good-stable :
    (rs : List String)
    → (rs ≢ []) × AllKnown rs × IsUnique rs
    → normalize_execution_regions rs ≡ ok rs
unfolding normalize_execution_regions
good-stable [] g = elim (g.0 refl) [ ]
good-stable (r ∷ rs) g = ground (arith, loop-stable (r ∷ rs) [] (g.1, g.2) (empty-Apart (r ∷ rs)))

-- A normalised list is a fixed point of the normalisation.
pub normalize_regions-stable :
    (requested : List String) {rs : List String}
    → normalize_execution_regions requested ≡ ok rs
    → normalize_execution_regions rs ≡ ok rs
normalize_regions-stable requested {rs} e =
    good-stable rs (normalize_regions-good requested {rs = rs} e)
