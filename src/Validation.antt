-- ===== src/Validation.antt =====
-- sqlx-data-parser/src/dynamic/validation.rs: the check that generated code makes before it runs a
-- dynamic query.
pub mod Laws
use sqlx_data.Prelude.{
  ℕ, Text, codes, Option, none, some, ◌++◌, length, ltb, to_string, if◌then◌else◌,
}
use sqlx_data.Error.{SqlxError, invalid_argument, Result, ok, err, ◌>>=◌, map_err}
use sqlx_data.Sorting
use sqlx_data.Sorting.{SortingParams}
use sqlx_data.Params.{Params, Pagination}

abbrev pub max_cursor_fields : ℕ
max_cursor_fields = 10

abbrev pub sort_failed : Text → SqlxError
sort_failed msg = invalid_argument (codes "Sort validation failed: " ++ msg)

abbrev pub cursor_too_large : ℕ → SqlxError
cursor_too_large n = invalid_argument (
    codes "Cursor too large: "
    ++ to_string n
    ++ codes " fields (max "
    ++ to_string max_cursor_fields
    ++ codes ")")

abbrev validate_sorts : Option SortingParams → Result SqlxError (Unit {0})
validate_sorts none = ok tt
validate_sorts (some sorting) =
    if Sorting.has_unsafe_fields sorting
    then map_err sort_failed (Sorting.validate_fields sorting)
    else ok tt

abbrev validate_cursor : Option Pagination → Result SqlxError (Unit {0})
validate_cursor (some (Pagination.cursor c)) =
    if ltb max_cursor_fields (length c.values)
    then err (cursor_too_large (length c.values))
    else ok tt
validate_cursor _ = ok tt

unfoldable pub validate_fields : Params → Result SqlxError (Unit {0})
validate_fields params = validate_sorts params.sort_by >>= λ _. validate_cursor params.pagination
