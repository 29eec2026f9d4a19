-- ===== src/Prelude/Text.antt =====
-- Text as the Go code treats it: strings.TrimSpace, the byte order of strings, strings.Join, the
-- %q and %d verbs of fmt. A `String` is a list of code points, whose order is that of the UTF-8.
use Prim.Native.Nat.{Ordering}
use Prim.Native.Char.{Char, code}
use Prim.Native.String.{String, compare}
use Prim.Native.String.compare
use text.Mathlib.TextEquality.{Char-path}
use Prim.Native.String.{◌++◌}
use lecrev.Prelude.Tests.{leb, ltb, ◌==◌, if◌then◌else◌}
use Prim.Native.Nat.{ℕ, zero, suc, ◌/◌, ◌%◌}
use mathlib.Core.Path.{◌≡◌, refl}
use mathlib.Core.Bool.{Bool, true, false, ◌&&◌, ◌||◌}
use mathlib.Core.List.{List, [], ◌∷◌}
use native.Mathlib.Omega.{arith}

-- unicode.IsSpace.
pub is_space : Char → Bool
is_space c =
    let n : ℕ = code c in
    (leb 9 n && leb n 13)
    || n == 32
    || n == 133
    || n == 160
    || n == 5760
    || (leb 8192 n && leb n 8202)
    || n == 8232
    || n == 8233
    || n == 8239
    || n == 8287
    || n == 12288

pub trim_left : String → String
unfolding is_space
trim_left String.[] = String.[]
trim_left (String.◌∷◌ c s) = let rest = trim_left s in if is_space c then rest else String.◌∷◌ c s

-- A character in front of a text that is trimmed already: dropped if it is a blank at the end.
abbrev cons_trimmed : Char → String → String
cons_trimmed c String.[] = if is_space c then String.[] else String.◌∷◌ c String.[]
cons_trimmed c (String.◌∷◌ d s) = String.◌∷◌ c (String.◌∷◌ d s)

pub trim_right : String → String
unfolding is_space
trim_right String.[] = String.[]
trim_right (String.◌∷◌ c s) = cons_trimmed c (trim_right s)

-- strings.TrimSpace.
unfoldable pub trim_space : String → String
unfolding trim_left trim_right
trim_space s = trim_right (trim_left s)

-- `a < b` on Go strings.
abbrev pub str_ltb : String → String → Bool
str_ltb a b = elim (compare a b) [ Ordering.lt ↦ true | _ ↦ false ]

-- strings.Join.
unfoldable pub join : String → List String → String
join sep [] = ""
join sep (s ∷ []) = s
join sep (s ∷ (t ∷ rest)) = s ++ sep ++ join sep (t ∷ rest)

-- The verb %q, on texts without control characters.
unfoldable pub escape : String → String
escape String.[] = ""
escape (String.◌∷◌ c s) =
    if code c == 34 || code c == 92
    then "\\" ++ (String.◌∷◌ c (escape s))
    else String.◌∷◌ c (escape s)

unfoldable pub quote : String → String
unfolding escape
quote s = "\"" ++ (escape s ++ "\"")

digit : ℕ → String
digit n =
    if n == 0
    then "0"
    else if n == 1
    then "1"
    else if n == 2
    then "2"
    else if n == 3
    then "3"
    else if n == 4
    then "4"
    else if n == 5
    then "5"
    else if n == 6
    then "6"
    else if n == 7
    then "7"
    else if n == 8
    then "8"
    else "9"

decimal_fuel : ℕ → ℕ → String → String
unfolding digit
decimal_fuel zero n acc = acc
decimal_fuel (suc f) n acc =
    let rest = decimal_fuel f (n / 10) (digit (n % 10) ++ acc) in
    if ltb n 10 then digit n ++ acc else rest

-- The verb %d on a count; twenty digits hold every 64-bit number.
unfoldable pub decimal : ℕ → String
unfolding decimal_fuel
decimal n = decimal_fuel 20 n ""

trims : trim_space "  ap-south-1\n" ≡ "ap-south-1"
unfolding trim_space
trims = refl

quotes : quote "a\"b" ≡ "\"a\\\"b\""
unfolding quote
quotes = refl

prints : decimal 2040 ≡ "2040"
unfolding decimal
prints = refl

-- The order of strings is strict and total.
pub str_ltb_asym : (a b : String) → str_ltb a b ≡ true → str_ltb b a ≡ false
str_ltb_asym String.[] String.[] h = refl
str_ltb_asym String.[] (String.◌∷◌ d t) h = ground (arith, compare.cons-nil d t)
str_ltb_asym (String.◌∷◌ c s) String.[] h = ground (arith, compare.cons-nil c s)
str_ltb_asym (String.◌∷◌ c s) (String.◌∷◌ d t) h =
    ground (arith, compare.cons-cons c d s t, compare.cons-cons d c t s, str_ltb_asym s t)

pub str_ltb_total : (a b : String) → str_ltb a b ≡ false → str_ltb b a ≡ false → a ≡ b
str_ltb_total String.[] String.[] h k = refl
str_ltb_total String.[] (String.◌∷◌ d t) h k = ground (arith, compare.nil-cons d t)
str_ltb_total (String.◌∷◌ c s) String.[] h k = ground (arith, compare.nil-cons c s)
str_ltb_total (String.◌∷◌ c s) (String.◌∷◌ d t) h k =
    ground (
      arith,
      compare.cons-cons c d s t,
      compare.cons-cons d c t s,
      str_ltb_total s t,
      Char-path c d,
    )

pub str_ltb_trans : (a b c : String) → str_ltb a b ≡ true → str_ltb b c ≡ true → str_ltb a c ≡ true
str_ltb_trans String.[] String.[] c h k = k
str_ltb_trans String.[] (String.◌∷◌ d t) String.[] h k = ground (arith, compare.cons-nil d t)
str_ltb_trans String.[] (String.◌∷◌ d t) (String.◌∷◌ e u) h k = ground (arith, compare.nil-cons e u)
str_ltb_trans (String.◌∷◌ c s) String.[] e h k = ground (arith, compare.cons-nil c s)
str_ltb_trans (String.◌∷◌ c s) (String.◌∷◌ d t) String.[] h k = ground (arith, compare.cons-nil d t)
str_ltb_trans (String.◌∷◌ c s) (String.◌∷◌ d t) (String.◌∷◌ e u) h k = ground (
  arith,
  compare.cons-cons c d s t,
  compare.cons-cons d e t u,
  compare.cons-cons c e s u,
  str_ltb_trans s t u,
)
