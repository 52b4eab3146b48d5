-- ===== src/Sorting/Whitelist.antt =====
-- `validate_fields` decides the whitelist: it passes exactly when every dynamic sort field is
-- listed among the allowed columns.
use sqlx_data.Prelude.{
  Text, false, Option, none, some, List, [], ◌∷◌, ◌≡◌, ◌↔◌, ◌⊎◌, All, Listed, contains_iff, arith,
}
use sqlx_data.Error.{ok}
use sqlx_data.Sort
use sqlx_data.Sort.{Sort}
use sqlx_data.Sorting
use sqlx_data.Sorting.{SortingParams}
use sqlx_data.Sorting.Tracking.{Made, Made-IsTracked, unsafe_of}

-- A whitelist is set and lists the field.
abbrev pub Allowed : Option (List Text) → Text → Type 0
Allowed none field = ⊥
Allowed (some columns) field = Listed field columns

-- A key of the source text may name any field, a dynamic one only what is allowed.
abbrev pub Permitted : Option (List Text) → Sort → Type 0
Permitted columns s = (Sort.is_unsafe s ≡ false) ⊎ Allowed columns s.field

validate_all_iff :
    (columns fields : List Text)
    → (Sorting.validate_all columns fields ≡ ok tt) ↔ All (λ f. Listed f columns) fields
unfolding Sorting.validate_all
validate_all_iff columns [] = ground arith
validate_all_iff columns (f ∷ fs) =
    ground (arith, contains_iff columns f, validate_all_iff columns fs)

Permitted-iff :
    (columns : Option (List Text)) (ss : List Sort)
    → All (Allowed columns) (unsafe_of ss) ↔ All (Permitted columns) ss
Permitted-iff columns [] = ground arith
Permitted-iff columns (s ∷ ss) = ground (arith, Permitted-iff columns ss)

Allowed-iff :
    (columns : Option (List Text)) (fields : List Text)
    → (Sorting.validate_fields
          (record { sorts = []; unsafe_fields = fields; allowed_columns = columns })
        ≡ ok tt)
      ↔ All (Allowed columns) fields
unfolding Sorting.validate_fields
Allowed-iff none [] = ground arith
Allowed-iff (some columns) [] = ground arith
Allowed-iff none (f ∷ fs) = ground arith
Allowed-iff (some columns) (f ∷ fs) = validate_all_iff columns (f ∷ fs)

fields_of_sorts :
    (p : SortingParams)
    → Made p
    → All (Allowed p.allowed_columns) p.unsafe_fields ↔ All (Permitted p.allowed_columns) p.sorts
fields_of_sorts p m = rw (Made-IsTracked m).tracked (Permitted-iff p.allowed_columns p.sorts)

-- For every value that the methods can make, validation passes exactly when each sort key is
-- either from the source text or names an allowed column.
pub validate_fields_iff :
    (p : SortingParams)
    → Made p
    → (Sorting.validate_fields p ≡ ok tt) ↔ All (Permitted p.allowed_columns) p.sorts
unfolding Sorting.validate_fields
validate_fields_iff p m =
    let (to, from) = Allowed-iff p.allowed_columns p.unsafe_fields in
    let (up, down) = fields_of_sorts p m in (λ e. up (to e), λ a. from (down a))
