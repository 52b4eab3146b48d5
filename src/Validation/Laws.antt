-- ===== src/Validation/Laws.antt =====
-- What a validated query is allowed to hold.
use sqlx_data.Prelude.{
  ◌≤◌, ◌≡◌, ◌↔◌, Bool, true, false, Option, none, some, Text, if◌then◌else◌, length, All,
  Bool-cases, inl, inr, arith,
}
use sqlx_data.Error.{SqlxError, Result, ok, err, map_err}
use sqlx_data.Sorting
use sqlx_data.Sorting.{SortingParams}
use sqlx_data.Sorting.Tracking.{Made}
use sqlx_data.Sorting.Whitelist.{Permitted, validate_fields_iff}
use sqlx_data.Params.{Params, Pagination}
use sqlx_data.Validation.{validate_fields, validate_sorts, validate_cursor, sort_failed}

-- The sort keys of a query come from the methods, and each is permitted.
abbrev pub MadeSorts : Option SortingParams → Type 0
MadeSorts none = Unit
MadeSorts (some p) = Made p

abbrev pub PermittedSorts : Option SortingParams → Type 0
PermittedSorts none = Unit
PermittedSorts (some p) = All (Permitted p.allowed_columns) p.sorts

abbrev pub ShortCursor : Option Pagination → Type 0
ShortCursor (some (Pagination.cursor c)) = length c.values ≤ 10
ShortCursor _ = Unit

map_err_iff :
    (f : Text → SqlxError) (r : Result Text (Unit {0})) → (map_err f r ≡ ok tt) ↔ (r ≡ ok tt)
map_err_iff f (ok u) = ground arith
map_err_iff f (err e) = ground arith

guarded_iff :
    (b : Bool) (f : Text → SqlxError) (r : Result Text (Unit {0}))
    → ((if b then map_err f r else ok tt) ≡ ok tt) ↔ ((if b then r else ok tt) ≡ ok tt)
guarded_iff true f r = map_err_iff f r
guarded_iff false f r = ground arith

-- The guard on unsafe fields stands in `validate_fields` of the sort keys as well.
validate_guarded :
    (p : SortingParams) → (validate_sorts (some p) ≡ ok tt) ↔ (Sorting.validate_fields p ≡ ok tt)
unfolding Sorting.validate_fields
validate_guarded p = elim (Bool-cases (Sorting.has_unsafe_fields p)) [
  | inl some_unsafe ↦ rw (some_unsafe, Sorting.validate_fields) (map_err_iff sort_failed _)
  | inr all_safe ↦ rw (all_safe, Sorting.validate_fields) (guarded_iff false sort_failed (ok tt))
]

validate_sorts_iff :
    (o : Option SortingParams) → MadeSorts o → (validate_sorts o ≡ ok tt) ↔ PermittedSorts o
validate_sorts_iff none m = ground arith
validate_sorts_iff (some p) m =
    let (to, from) = validate_guarded p in
    let (up, down) = validate_fields_iff p m in (λ e. up (to e), λ a. from (down a))

validate_cursor_iff : (o : Option Pagination) → (validate_cursor o ≡ ok tt) ↔ ShortCursor o
validate_cursor_iff none = ground arith
validate_cursor_iff (some (Pagination.serial s)) = ground arith
validate_cursor_iff (some (Pagination.slice s)) = ground arith
validate_cursor_iff (some (Pagination.cursor c)) = ground arith

-- If the sort keys are made by the methods of their type, then the check passes exactly when every
-- key that came from a dynamic string names an allowed column and a cursor has at most ten values.
pub validate_fields_iff_safe :
    (params : Params)
    → MadeSorts params.sort_by
    → (validate_fields params ≡ ok tt)
      ↔ (PermittedSorts params.sort_by × ShortCursor params.pagination)
unfolding validate_fields
validate_fields_iff_safe params m =
    ground (arith, validate_sorts_iff params.sort_by m, validate_cursor_iff params.pagination)
