-- ===== src/Maps/Keyed.antt =====
-- Maps that hold each value under a key of its own, once: the shape of all the store's tables.
use lecrev.Prelude.{◌≤◌, String, ◌≡◌, Bool, true, inl, inr, none, some, [], ◌∷◌, arith, eq_iff, In}
use lecrev.Maps.{Assoc, get, put, remove, values, count_if, get-put, get-remove}

module _ {V : Type 0} (key : V → String) where
  abbrev pub IsKeyed : Assoc V → Type 0
  IsKeyed [] = Unit
  IsKeyed ((j, v) ∷ m) = (j ≡ key v) × (get m j ≡ none) × IsKeyed m

  pub put-IsKeyed : (m : Assoc V) (v : V) → IsKeyed m → IsKeyed (put m (key v) v)
  unfolding put get
  put-IsKeyed [] v h = ground arith
  put-IsKeyed ((j, w) ∷ m) v h =
      ground (arith, eq_iff j (key v), eq_iff (key v) j, get-put m (key v) j v, put-IsKeyed m v h.2)

  pub remove-IsKeyed : (m : Assoc V) (k : String) → IsKeyed m → IsKeyed (remove m k)
  unfolding remove
  remove-IsKeyed [] k h = tt
  remove-IsKeyed ((j, w) ∷ m) k h =
      ground (arith, eq_iff j k, get-remove m k j, remove-IsKeyed m k h.2)

  -- A value that is met under iteration is found under its key.
  pub get_of_In : (m : Assoc V) (v : V) → IsKeyed m → In v (values m) → get m (key v) ≡ some v
  unfolding get values
  get_of_In [] v h i = elim i [ ]
  get_of_In ((j, w) ∷ m) v h (inl e) = ground (arith, eq_iff j (key v))
  get_of_In ((j, w) ∷ m) v h (inr i) = ground (arith, eq_iff j (key v), get_of_In m v h.2 i)

module _ {V : Type 0} where
  pub In-get : (m : Assoc V) (k : String) (v : V) → get m k ≡ some v → In v (values m)
  unfolding get values
  In-get [] k v e = cc
  In-get ((j, w) ∷ m) k v e = ground (arith, In-get m k v)

  pub count_if-pos :
      (p : V → Bool) (m : Assoc V) (v : V) → In v (values m) → p v ≡ true → 1 ≤ count_if p m
  unfolding values count_if
  count_if-pos p [] v i h = elim i [ ]
  count_if-pos p ((j, w) ∷ m) v (inl e) h = ground (arith, e, h)
  count_if-pos p ((j, w) ∷ m) v (inr i) h = omega (arith, count_if-pos p m v i h)
