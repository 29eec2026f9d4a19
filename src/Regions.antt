-- ===== src/Regions.antt =====
-- internal/regions/catalog.go: the execution regions and the normalisation of requested ones.
pub mod Normal
use Prim.Native.String.{◌++◌}
use mathlib.Core.List.{◌++◌ as append}
use lecrev.Prelude.{String, not, List, [], ◌∷◌, contains, str_eq, if◌then◌else◌}
use lecrev.Prelude.Text.{join, quote, trim_space}
use lecrev.Errors.{Error, Result, ok, err, other}

abbrev pub default_execution_regions : List String
default_execution_regions = "ap-south-1" ∷ "ap-south-2" ∷ "ap-southeast-1" ∷ []

unfoldable pub default_primary : String
default_primary = "ap-south-1"

abbrev pub unsupported_region : String → Error
unsupported_region region = other (
    "unsupported region "
    ++ (quote region
        ++ (": only APAC execution regions are enabled ("
            ++ (join ", " default_execution_regions ++ ")"))))

abbrev pub no_region : Error
no_region = other "at least one APAC execution region is required"

-- The loop over the requested regions; `normalized` holds what `seen` holds.
unfoldable pub normalize_loop : List String → List String → Result (List String)
normalize_loop [] normalized = ok normalized
normalize_loop (region ∷ requested) normalized =
    let trimmed = trim_space region in
    let skip = normalize_loop requested normalized in
    let keep = normalize_loop requested (append normalized (trimmed ∷ [])) in
    if str_eq trimmed ""
    then skip
    else if not (contains default_execution_regions trimmed)
    then err (unsupported_region trimmed)
    else if contains normalized trimmed
    then skip
    else keep

abbrev pub nonempty : Result (List String) → Result (List String)
nonempty (ok []) = err no_region
nonempty (ok (r ∷ rs)) = ok (r ∷ rs)
nonempty (err e) = err e

unfoldable pub normalize_execution_regions : List String → Result (List String)
unfolding normalize_loop
normalize_execution_regions [] = ok default_execution_regions
normalize_execution_regions (r ∷ rs) = nonempty (normalize_loop (r ∷ rs) [])
