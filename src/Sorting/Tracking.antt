-- ===== src/Sorting/Tracking.antt =====
-- The invariant of `SortingParams`: the fields kept for validation are those of the sort keys that
-- came from dynamic strings. The struct's fields are private, so its values are the `Made` ones.
use sqlx_data.Prelude.{
  Text, List, [], ◌∷◌, ◌++◌, ◌≡◌, refl, sym, ◌∙◌, append-nil, update_last, arith, if◌then◌else◌,
}
use sqlx_data.SortOrder.{SortDirection, NullOrdering}
use sqlx_data.Sort
use sqlx_data.Sort.{Sort}
use sqlx_data.Sorting
use sqlx_data.Sorting.{SortingParams}

-- The fields of the keys that are marked unsafe, in order.
abbrev pub unsafe_of : List Sort → List Text
unsafe_of [] = []
unsafe_of (s ∷ ss) = if Sort.is_unsafe s then s.field ∷ unsafe_of ss else unsafe_of ss

pub record IsTracked (p : SortingParams) : Type 0 where
  pub tracked : p.unsafe_fields ≡ unsafe_of p.sorts

unsafe_of-append : (ss ts : List Sort) → unsafe_of (ss ++ ts) ≡ unsafe_of ss ++ unsafe_of ts
unsafe_of-append [] ts = refl
unsafe_of-append (s ∷ ss) ts = ground (arith, unsafe_of-append ss ts)

unsafe_of-with_nulls :
    (n : NullOrdering) (ss : List Sort)
    → unsafe_of (update_last (Sort.with_nulls n) ss) ≡ unsafe_of ss
unsafe_of-with_nulls n [] = refl
unsafe_of-with_nulls n (s ∷ []) = refl
unsafe_of-with_nulls n (s ∷ t ∷ ss) = ground (arith, unsafe_of-with_nulls n (t ∷ ss))

pub push-IsTracked : (s : Sort) {p : SortingParams} → IsTracked p → IsTracked (Sorting.push s p)
unfolding Sorting.push
push-IsTracked s {p} h = record {
  tracked = ground (arith, unsafe_of-append p.sorts (s ∷ []), append-nil p.unsafe_fields);
}

pub sort_by-IsTracked :
    (field : Text) (d : SortDirection) {p : SortingParams}
    → IsTracked p
    → IsTracked (Sorting.sort_by field d p)
unfolding Sorting.sort_by
sort_by-IsTracked field d {p} h = record {
  tracked =
      ground (arith, unsafe_of-append p.sorts (Sort.new field d ∷ []), append-nil p.unsafe_fields);
}

-- The ways to make a value: one constructor for each public method that returns one.
pub data Made : SortingParams → Type 0 where
  new : Made Sorting.new
  with_allowed_columns :
      (columns : List Text) {p : SortingParams}
      → Made p
      → Made (Sorting.with_allowed_columns columns p)
  push : (s : Sort) {p : SortingParams} → Made p → Made (Sorting.push s p)
  sort_by :
      (field : Text) (d : SortDirection) {p : SortingParams}
      → Made p
      → Made (Sorting.sort_by field d p)
  apply_nulls : (n : NullOrdering) {p : SortingParams} → Made p → Made (Sorting.apply_nulls n p)
  extend_with : {p q : SortingParams} → Made p → Made q → Made (Sorting.extend_with p q)

extend_with-IsTracked :
    {p q : SortingParams} → IsTracked p → IsTracked q → IsTracked (Sorting.extend_with p q)
unfolding Sorting.extend_with
extend_with-IsTracked {p} {q} h k = record {
  tracked = ground (arith, unsafe_of-append p.sorts q.sorts);
}

apply_nulls-IsTracked :
    (n : NullOrdering) {p : SortingParams} → IsTracked p → IsTracked (Sorting.apply_nulls n p)
unfolding Sorting.apply_nulls
apply_nulls-IsTracked n {p} h = record {
  tracked = h.tracked ∙ sym (unsafe_of-with_nulls n p.sorts);
}

with_allowed_columns-IsTracked :
    (columns : List Text) {p : SortingParams}
    → IsTracked p
    → IsTracked (Sorting.with_allowed_columns columns p)
unfolding Sorting.with_allowed_columns
with_allowed_columns-IsTracked columns h = record { tracked = h.tracked }

-- Every value of the type is tracked.
pub Made-IsTracked : {p : SortingParams} → Made p → IsTracked p
Made-IsTracked new = record { tracked = refl }
Made-IsTracked (with_allowed_columns columns m) =
    with_allowed_columns-IsTracked columns (Made-IsTracked m)
Made-IsTracked (push s m) = push-IsTracked s (Made-IsTracked m)
Made-IsTracked (sort_by field d m) = sort_by-IsTracked field d (Made-IsTracked m)
Made-IsTracked (apply_nulls n m) = apply_nulls-IsTracked n (Made-IsTracked m)
Made-IsTracked (extend_with m n) = extend_with-IsTracked (Made-IsTracked m) (Made-IsTracked n)
