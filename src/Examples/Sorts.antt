-- ===== src/Examples/Sorts.antt =====
-- Sort keys, and the check that runs before a query.
use sqlx_data.Prelude.{
  ◌≡◌, ◌↔◌, ◌≤◌, ◌+◌, ◌/◌, max, arith, Text, codes, List, [], ◌∷◌, none, some, All,
}
use sqlx_data.Error.{ok}
use sqlx_data.Sort
use sqlx_data.Sorting
use sqlx_data.Sorting.{SortingParams}
use sqlx_data.Sorting.Tracking.{Made, IsTracked, Made-IsTracked}
use sqlx_data.Sorting.Whitelist.{Permitted, validate_fields_iff}
use sqlx_data.Serial
use sqlx_data.Serial.Bounds.{IsOn, offset-new}
use sqlx_data.Params
use sqlx_data.Params.{Params}
use sqlx_data.Validation
use sqlx_data.Validation.Laws.{PermittedSorts, ShortCursor, validate_fields_iff_safe}

abbrev columns : List Text
columns = codes "name" ∷ codes "age" ∷ []

-- A key of the source text, and one from a dynamic string that the whitelist has.
abbrev two_keys : SortingParams
two_keys =
    Sorting.push (Sort.desc_unsafe (codes "age"))
      (Sorting.with_allowed_columns columns (Sorting.push (Sort.asc (codes "id")) Sorting.new))

two_keys-Made : Made two_keys
two_keys-Made =
    Made.push (Sort.desc_unsafe (codes "age"))
      (Made.with_allowed_columns columns (Made.push (Sort.asc (codes "id")) Made.new))

abbrev sorted : Params
sorted = record Params.default { sort_by = some two_keys }

Made-IsTracked_example : IsTracked two_keys
Made-IsTracked_example = Made-IsTracked two_keys-Made

validate_fields_iff_example :
    (Sorting.validate_fields two_keys ≡ ok tt)
    ↔ All (Permitted two_keys.allowed_columns) two_keys.sorts
validate_fields_iff_example = validate_fields_iff two_keys two_keys-Made

validate_fields_iff_safe_example :
    (Validation.validate_fields sorted ≡ ok tt)
    ↔ (PermittedSorts (some two_keys) × ShortCursor none)
validate_fields_iff_safe_example = validate_fields_iff_safe sorted two_keys-Made

-- Row 45 is on page 3 of 20 rows each.
offset-new_example :
    (1 ≤ (Serial.new 3 20).page)
    × (1 ≤ Serial.limit (Serial.new 3 20))
    × (IsOn 45 (Serial.new 3 20) ↔ (max 3 1 ≡ 45 / max 20 1 + 1))
offset-new_example = offset-new 3 20 45 (omega arith)
