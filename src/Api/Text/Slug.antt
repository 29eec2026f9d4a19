-- ===== src/Api/Text/Slug.antt =====
-- What a normalised project identifier is.
use Prim.Native.Char.{Char, code}
use lecrev.Prelude.{
  ℕ, zero, suc, ◌-◌, ◌≤◌, String, Bool, true, false, not, ◌&&◌, ◌||◌, ◌≡◌, refl, subst, arith, ◌==◌,
  if◌then◌else◌, str_eq, Bool-cases, inl, inr,
}
use lecrev.Prelude.Text.{trim_space}
use lecrev.Api.Text.{
  lower_code, is_slug_code, nth_char, lower_char, slug_loop, cons_undashed, trim_dashes_right,
  trim_dashes_left, normalize_project_id,
}

-- Letters and digits in lower case with single dashes between them; `dash` says that no dash may
-- come first.
abbrev pub Clean : Bool → String → Type 0
Clean dash String.[] = Unit
Clean dash (String.◌∷◌ c s) =
    ((is_slug_code (code c) || (code c == 45 && not dash)) ≡ true) × Clean (code c == 45) s

-- No dash at the end.
abbrev pub EndsPlain : String → Type 0
EndsPlain String.[] = Unit
EndsPlain (String.◌∷◌ c String.[]) = (code c == 45) ≡ false
EndsPlain (String.◌∷◌ c (String.◌∷◌ d s)) = EndsPlain (String.◌∷◌ d s)

cons-Clean :
    (dash : Bool) (c : Char) (s : String)
    → is_slug_code (code c) ≡ true
    → Clean false s
    → Clean dash (String.◌∷◌ c s)
cons-Clean dash c s h k =
    let e : (code c == 45) ≡ false = ground (arith, h) in (ground (arith, h), rw e k)

abbrev letters : String → Bool
letters String.[] = true
letters (String.◌∷◌ c s) = is_slug_code (code c) && letters s

abbrev size : String → ℕ
size String.[] = 0
size (String.◌∷◌ c s) = suc (size s)

nth-letters :
    (n : ℕ) (s : String) (other : Char)
    → letters s ≡ true
    → suc n ≤ size s
    → is_slug_code (code (nth_char n s other)) ≡ true
nth-letters n String.[] other l h = absurd (omega (arith, h))
nth-letters zero (String.◌∷◌ c s) other l h = ground (arith, l)
nth-letters (suc n) (String.◌∷◌ c s) other l h =
    nth-letters n s other (ground (arith, l)) (omega arith)

lower_char_lem :
    (c : Char)
    → is_slug_code (lower_code (code c)) ≡ true
    → is_slug_code (code (lower_char c)) ≡ true
unfolding lower_char
lower_char_lem c h = elim (Bool-cases (lower_code (code c) == code c)) [
  | inl e ↦ ground (arith, h, e)
  | inr e ↦ rw e (
      nth-letters (lower_code (code c) - 97) "abcdefghijklmnopqrstuvwxyz" c refl
        (ground (arith, e, h)))
]

-- What the loop writes is clean, whatever it has written before.
loop-Clean :
    (s : String) (started last_dash : Bool)
    → Clean (not started || last_dash) (slug_loop s started last_dash)
unfolding slug_loop
loop-Clean String.[] started last_dash = tt
loop-Clean (String.◌∷◌ c s) started last_dash =
    elim (Bool-cases (is_slug_code (lower_code (code c)))) [
      | inl h ↦
          rw (slug_loop, h)
            (cons-Clean (not started || last_dash) (lower_char c) (slug_loop s true false)
              (lower_char_lem c h) (loop-Clean s true false))
      | inr h ↦ elim (Bool-cases (not started || last_dash)) [
        | inl b ↦
            rw (slug_loop, h, b)
              (subst (λ d. Clean d (slug_loop s started last_dash)) b
                (loop-Clean s started last_dash))
        | inr b ↦ rw (slug_loop, h, b) (refl, loop-Clean s true true)
      ]
    ]

left-Clean : (s : String) → Clean true s → trim_dashes_left s ≡ s
unfolding trim_dashes_left
left-Clean String.[] h = refl
left-Clean (String.◌∷◌ c s) h = ground (arith, h.0)

right-Clean : (dash : Bool) (s : String) → Clean dash s → Clean dash (trim_dashes_right s)
unfolding trim_dashes_right
right-Clean dash String.[] h = tt
right-Clean dash (String.◌∷◌ c s) h = ends (trim_dashes_right s) (right-Clean (code c == 45) s h.1)
  where
    ends : (t : String) → Clean (code c == 45) t → Clean dash (cons_undashed c t)
    ends String.[] k = elim (Bool-cases (code c == 45)) [ inl e ↦ rw e tt | inr e ↦ rw e (h.0, tt) ]
    ends (String.◌∷◌ d t) k = (h.0, k)

right-EndsPlain : (s : String) → EndsPlain (trim_dashes_right s)
unfolding trim_dashes_right
right-EndsPlain String.[] = tt
right-EndsPlain (String.◌∷◌ c s) = ends (trim_dashes_right s) (right-EndsPlain s)
  where
    ends : (t : String) → EndsPlain t → EndsPlain (cons_undashed c t)
    ends String.[] k = elim (Bool-cases (code c == 45)) [ inl e ↦ rw e tt | inr e ↦ rw e e ]
    ends (String.◌∷◌ d t) k = k

-- A project's identifier consists of lower-case letters and digits of ASCII, with single dashes
-- between them and none at its start or its end, whatever text it is made from.
pub normalize_project_id-Clean :
    (raw_id name : String)
    → Clean true (normalize_project_id raw_id name) × EndsPlain (normalize_project_id raw_id name)
unfolding normalize_project_id
normalize_project_id-Clean raw_id name =
    let source = if str_eq (trim_space raw_id) "" then name else trim_space raw_id in
    let slug = slug_loop source false false in
    let clean = loop-Clean source false false in
    rw (left-Clean slug clean) (right-Clean true slug clean, right-EndsPlain slug)
