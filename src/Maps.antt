-- ===== src/Maps.antt =====
-- Go maps with string keys as association lists: the order of the entries is the order in which
-- this run of the program meets them under `range`, which Go leaves open.
pub mod Keyed
use lecrev.Prelude.{
  ℕ, ◌+◌, String, ◌≡◌, refl, Bool, Option, none, some, List, [], ◌∷◌, arith, str_eq, eq_iff,
  if◌then◌else◌, bit,
}

abbrev pub Assoc {ℓ} : Type ℓ → Type ℓ
Assoc V = List (String × V)

module _ {ℓ} {V : Type ℓ} where
  -- m[k], with the second result `ok` as `some`.
  unfoldable pub get : Assoc V → String → Option V
  get [] k = none
  get ((j, v) ∷ m) k = if str_eq j k then some v else get m k

  -- m[k] = v.
  unfoldable pub put : Assoc V → String → V → Assoc V
  put [] k v = (k, v) ∷ []
  put ((j, w) ∷ m) k v = if str_eq j k then (j, v) ∷ m else (j, w) ∷ put m k v

  -- delete(m, k).
  unfoldable pub remove : Assoc V → String → Assoc V
  remove [] k = []
  remove ((j, w) ∷ m) k = let rest = remove m k in if str_eq j k then rest else (j, w) ∷ rest

  -- The values, in the order of iteration.
  unfoldable pub values : Assoc V → List V
  values [] = []
  values ((j, v) ∷ m) = v ∷ values m

  -- How many values pass a test.
  unfoldable pub count_if : (V → Bool) → Assoc V → ℕ
  count_if p [] = 0
  count_if p ((j, v) ∷ m) = bit (p v) + count_if p m

  abbrev pub bit_at : (V → Bool) → Option V → ℕ
  bit_at p none = 0
  bit_at p (some v) = bit (p v)

  pub get-put :
      (m : Assoc V) (k j : String) (v : V)
      → get (put m k v) j ≡ (if str_eq k j then some v else get m j)
  unfolding get put
  get-put [] k j v = refl
  get-put ((i, w) ∷ m) k j v = ground (arith, get-put m k j v, eq_iff i k, eq_iff i j, eq_iff k j)

  pub get-remove :
      (m : Assoc V) (k j : String) → get (remove m k) j ≡ (if str_eq k j then none else get m j)
  unfolding get remove
  get-remove [] k j = ground arith
  get-remove ((i, w) ∷ m) k j = ground (arith, get-remove m k j, eq_iff i k, eq_iff i j, eq_iff k j)

  -- A write moves the count by what it overwrites and what it writes.
  pub count_if-put :
      (p : V → Bool) (m : Assoc V) (k : String) (v : V)
      → count_if p (put m k v) + bit_at p (get m k) ≡ count_if p m + bit (p v)
  unfolding get put count_if
  count_if-put p [] k v = ground arith
  count_if-put p ((i, w) ∷ m) k v = ground (arith, count_if-put p m k v)

  -- Every entry satisfies a relation between its key and its value.
  abbrev pub Entries : (String → V → Type 0) → Assoc V → Type 0
  Entries R [] = Unit
  Entries R ((j, v) ∷ m) = R j v × Entries R m

  pub put-Entries :
      (R : String → V → Type 0) (m : Assoc V) (k : String) (v : V)
      → Entries R m
      → R k v
      → Entries R (put m k v)
  unfolding put
  put-Entries R [] k v h r = (r, tt)
  put-Entries R ((i, w) ∷ m) k v h r = ground (arith, eq_iff i k, put-Entries R m k v h.1 r)

  pub remove-Entries :
      (R : String → V → Type 0) (m : Assoc V) (k : String) → Entries R m → Entries R (remove m k)
  unfolding remove
  remove-Entries R [] k h = tt
  remove-Entries R ((i, w) ∷ m) k h = ground (arith, remove-Entries R m k h.1)

  pub get-Entries :
      (R : String → V → Type 0) (m : Assoc V) (k : String) (v : V)
      → Entries R m
      → get m k ≡ some v
      → R k v
  unfolding get
  get-Entries R [] k v h e = cc
  get-Entries R ((i, w) ∷ m) k v h e = ground (arith, eq_iff i k, get-Entries R m k v h.1)

pub ruleset map_laws = (get-put, get-remove)
