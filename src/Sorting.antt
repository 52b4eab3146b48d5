-- ===== src/Sorting.antt =====
-- sqlx-data-params/src/sort.rs: `SortingParams`, the sort keys of a query with the record of those
-- that came from dynamic strings. Every method takes and returns the whole value.
pub mod Tracking
pub mod Whitelist
use sqlx_data.Prelude.{
  Text, codes, contains, Bool, not, Option, none, some, List, [], ◌∷◌, ◌++◌,
  is_empty as list_is_empty, update_last, if◌then◌else◌,
}
use sqlx_data.Error.{Result, ok, err}
use sqlx_data.SortOrder.{SortDirection, NullOrdering}
use sqlx_data.Sort
use sqlx_data.Sort.{Sort}

pub record SortingParams : Type 0 where
  pub sorts : List Sort
  pub unsafe_fields : List Text
  pub allowed_columns : Option (List Text)

abbrev pub new : SortingParams
new = record { sorts = []; unsafe_fields = []; allowed_columns = none }

abbrev pub has_unsafe_fields : SortingParams → Bool
has_unsafe_fields p = not (list_is_empty p.unsafe_fields)

unfoldable pub with_allowed_columns : List Text → SortingParams → SortingParams
with_allowed_columns columns p = record p { allowed_columns = some columns }

abbrev pub no_allowed_columns : Text
no_allowed_columns = codes "Unsafe fields present but no allowed_columns specified"

abbrev pub not_allowed : Text → Text
not_allowed field = codes "Field '" ++ field ++ codes "' is not in allowed columns list"

-- The loop of `validate_fields`.
unfoldable pub validate_all : List Text → List Text → Result Text (Unit {0})
validate_all allowed [] = ok tt
validate_all allowed (field ∷ fields) =
    let rest = validate_all allowed fields in
    if contains allowed field then rest else err (not_allowed field)

abbrev validate_against : Option (List Text) → List Text → Result Text (Unit {0})
validate_against none fields = err no_allowed_columns
validate_against (some allowed) fields = validate_all allowed fields

unfoldable pub validate_fields : SortingParams → Result Text (Unit {0})
validate_fields p =
    if has_unsafe_fields p then validate_against p.allowed_columns p.unsafe_fields else ok tt

unfoldable pub push : Sort → SortingParams → SortingParams
push s p = record p {
  sorts = p.sorts ++ s ∷ [];
  unsafe_fields = if Sort.is_unsafe s then p.unsafe_fields ++ s.field ∷ [] else p.unsafe_fields;
}

unfoldable pub sort_by : Text → SortDirection → SortingParams → SortingParams
sort_by field direction p = record p { sorts = p.sorts ++ Sort.new field direction ∷ [] }

unfoldable pub asc : Text → SortingParams → SortingParams
unfolding sort_by
asc field p = sort_by field SortDirection.asc p

unfoldable pub desc : Text → SortingParams → SortingParams
unfolding sort_by
desc field p = sort_by field SortDirection.desc p

abbrev pub is_empty : SortingParams → Bool
is_empty p = list_is_empty p.sorts

unfoldable pub apply_nulls : NullOrdering → SortingParams → SortingParams
apply_nulls n p = record p { sorts = update_last (Sort.with_nulls n) p.sorts }

abbrev pub apply_nulls_first : SortingParams → SortingParams
apply_nulls_first = apply_nulls NullOrdering.first

abbrev pub apply_nulls_last : SortingParams → SortingParams
apply_nulls_last = apply_nulls NullOrdering.last

abbrev pub apply_nulls_default : SortingParams → SortingParams
apply_nulls_default = apply_nulls NullOrdering.default

abbrev or_else : Option (List Text) → Option (List Text) → Option (List Text)
or_else none o = o
or_else (some a) o = some a

unfoldable pub extend_with : SortingParams → SortingParams → SortingParams
extend_with p other = record p {
  sorts = p.sorts ++ other.sorts;
  unsafe_fields = p.unsafe_fields ++ other.unsafe_fields;
  allowed_columns = or_else p.allowed_columns other.allowed_columns;
}
