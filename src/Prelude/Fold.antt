-- ===== src/Prelude/Fold.antt =====
-- strings.EqualFold.
use Prim.Native.Nat.{ℕ, ◌+◌}
use Prim.Native.Char.{code}
use Prim.Native.String.{String}
use mathlib.Core.Bool.{Bool, true, false, ◌&&◌}
use mathlib.Core.Path.{◌≡◌, refl}
use lecrev.Prelude.Tests.{leb, ◌==◌, if◌then◌else◌}

-- The simple case folding of the characters that fold to an ASCII letter.
abbrev fold_code : ℕ → ℕ
fold_code n =
    if leb 65 n && leb n 90 then n + 32 else if n == 383 then 115 else if n == 8490 then 107 else n

-- strings.EqualFold, at an ASCII text as its second argument.
unfoldable pub equal_fold : String → String → Bool
equal_fold String.[] String.[] = true
equal_fold String.[] (String.◌∷◌ d t) = false
equal_fold (String.◌∷◌ c s) String.[] = false
equal_fold (String.◌∷◌ c s) (String.◌∷◌ d t) =
    fold_code (code c) == fold_code (code d) && equal_fold s t

folds : equal_fold "WebſiTe" "website" ≡ true
unfolding equal_fold
folds = refl
