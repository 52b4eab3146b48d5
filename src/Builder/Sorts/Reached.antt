-- ===== src/Builder/Sorts/Reached.antt =====
-- What a sort builder holds, by the calls that made it.
use sqlx_data.Prelude.{
  ◌≡◌, refl, sym, Text, true, List, [], ◌∷◌, ◌++◌, append-nil, is_empty, Option, none, some,
  Bool-cases, inl, inr,
}
use sqlx_data.Error.{ok}
use sqlx_data.Sort
use sqlx_data.Sort.{Sort}
use sqlx_data.Params.{Params}
use sqlx_data.Sorting
use sqlx_data.Sorting.{SortingParams}
use sqlx_data.SortOrder.{SortDirection, NullOrdering}
use sqlx_data.Sorting.Tracking.{Made}
use sqlx_data.Validation.Laws.{MadeSorts}
use sqlx_data.Builder.Root.{ParamsBuilder, root_params}
use sqlx_data.Builder.States.{Security, safe, unsafe}
use sqlx_data.Builder.Sorts
use sqlx_data.Builder.Sorts.{SortBuilder, merge, add_to}

-- One constructor for each call. The standalone builder is the same without a parent.
pub data Reached (P : Type 0) : (S : Security) → SortBuilder P S → Type 0 where
  start : (parent : P) → Reached P safe (Sorts.with_parent parent)
  asc :
      (field : Text) {b : SortBuilder P safe}
      → Reached P safe b
      → Reached P safe (Sorts.asc field b)
  desc :
      (field : Text) {b : SortBuilder P safe}
      → Reached P safe b
      → Reached P safe (Sorts.desc field b)
  allowed :
      (columns : List Text) {b : SortBuilder P safe}
      → Reached P safe b
      → Reached P unsafe (Sorts.with_allowed_columns columns b)
  asc_unsafe :
      (field : Text) {b : SortBuilder P unsafe}
      → Reached P unsafe b
      → Reached P unsafe (Sorts.asc_unsafe field b)
  desc_unsafe :
      (field : Text) {b : SortBuilder P unsafe}
      → Reached P unsafe b
      → Reached P unsafe (Sorts.desc_unsafe field b)
  nulls_first :
      {S : Security} {b : SortBuilder P S} → Reached P S b → Reached P S (Sorts.nulls_first b)
  nulls_last :
      {S : Security} {b : SortBuilder P S} → Reached P S b → Reached P S (Sorts.nulls_last b)
  nulls_default :
      {S : Security} {b : SortBuilder P S} → Reached P S b → Reached P S (Sorts.nulls_default b)

pub Reached-Made : {P : Type 0} {S : Security} {b : SortBuilder P S} → Reached P S b → Made b.sorts
unfolding Sorts.with_parent Sorts.asc Sorts.desc Sorts.with_allowed_columns Sorts.asc_unsafe
    Sorts.desc_unsafe Sorts.nulls_first Sorts.nulls_last Sorts.nulls_default Sorting.asc
    Sorting.desc
Reached-Made (start parent) = Made.new
Reached-Made (asc field r) = Made.sort_by field SortDirection.asc (Reached-Made r)
Reached-Made (desc field r) = Made.sort_by field SortDirection.desc (Reached-Made r)
Reached-Made (allowed columns r) = Made.with_allowed_columns columns (Reached-Made r)
Reached-Made (asc_unsafe field r) = Made.push (Sort.asc_unsafe field) (Reached-Made r)
Reached-Made (desc_unsafe field r) = Made.push (Sort.desc_unsafe field) (Reached-Made r)
Reached-Made (nulls_first r) = Made.apply_nulls NullOrdering.first (Reached-Made r)
Reached-Made (nulls_last r) = Made.apply_nulls NullOrdering.last (Reached-Made r)
Reached-Made (nulls_default r) = Made.apply_nulls NullOrdering.default (Reached-Made r)

-- A builder that never left the state Safe keeps no field for validation.
no_unsafe : {P : Type 0} {b : SortBuilder P safe} → Reached P safe b → b.sorts.unsafe_fields ≡ []
unfolding Sorts.with_parent Sorts.asc Sorts.desc Sorts.nulls_first Sorts.nulls_last
    Sorts.nulls_default Sorting.asc Sorting.desc Sorting.apply_nulls
no_unsafe (start parent) = refl
no_unsafe (asc field r) = no_unsafe r
no_unsafe (desc field r) = no_unsafe r
no_unsafe (nulls_first r) = no_unsafe r
no_unsafe (nulls_last r) = no_unsafe r
no_unsafe (nulls_default r) = no_unsafe r

-- The sort keys of every builder that is still in the state Safe pass validation, whatever fields its
-- calls named.
pub Reached-safe :
    {P : Type 0} (b : SortBuilder P safe)
    → Reached P safe b
    → Sorting.validate_fields b.sorts ≡ ok tt
unfolding Sorting.validate_fields
Reached-safe b r = rw (no_unsafe r) refl

added-MadeSorts :
    (existing : Option SortingParams) (sorts : SortingParams)
    → MadeSorts existing
    → Made sorts
    → Made (merge existing sorts)
added-MadeSorts none sorts h m = m
added-MadeSorts (some e) sorts h m = Made.extend_with h m

-- The sort keys in order, none without a value.
abbrev pub keys_of : Option SortingParams → List Sort
keys_of none = []
keys_of (some p) = p.sorts

merge-keys :
    (existing : Option SortingParams) (sorts : SortingParams)
    → (merge existing sorts).sorts ≡ keys_of existing ++ sorts.sorts
unfolding Sorting.extend_with
merge-keys none sorts = refl
merge-keys (some e) sorts = refl

empty-keys : (ks : List Sort) (l : List Sort) → is_empty ks ≡ true → l ≡ l ++ ks
empty-keys [] l h = sym (append-nil l)
empty-keys (k ∷ ks) l h = cc

-- What `done` makes of the parameters of the parent: the keys of the sort builder stand behind those it
-- had, all other parameters are the same, and the keys come from the methods of their type.
abbrev pub Joins : SortingParams → Params → Params → Type 0
Joins sorts p p' =
    (keys_of p'.sort_by ≡ keys_of p.sort_by ++ sorts.sorts)
    × (record p' { sort_by = p.sort_by } ≡ p)
    × MadeSorts p'.sort_by

add_to-Joins :
    (sorts : SortingParams) (parent : ParamsBuilder)
    → MadeSorts parent.params.sort_by
    → Made sorts
    → Joins sorts parent.params (add_to sorts parent).params
add_to-Joins sorts parent h m = elim (Bool-cases (Sorting.is_empty sorts)) [
  | inl empty ↦ rw empty (empty-keys sorts.sorts (keys_of parent.params.sort_by) empty, refl, h)
  | inr some_keys ↦ rw some_keys (
    merge-keys parent.params.sort_by sorts,
    refl,
    added-MadeSorts parent.params.sort_by sorts h m,
  )
]

-- If the sort keys of the root builder come from the methods of their type, then a sort builder on top of
-- it, in either state, gives back a root builder with its own keys behind those of the root builder, in
-- order, and with all other parameters unchanged; its sort keys come from the methods of their type, so
-- that they meet the premise of the theorems on validation.
pub done-Joins :
    {S : Security} (b : SortBuilder ParamsBuilder S) (parent : ParamsBuilder)
    → Reached ParamsBuilder S b
    → b.parent ≡ some parent
    → MadeSorts parent.params.sort_by
    → (parent' : ParamsBuilder) × (Sorts.done b ≡ some parent')
      × Joins b.sorts parent.params parent'.params
unfolding Sorts.done
done-Joins b parent r e h =
    (add_to b.sorts parent, rw (e, Sorts.done) refl, add_to-Joins b.sorts parent h (Reached-Made r))
