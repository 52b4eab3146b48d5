-- ===== src/Builder/Sorts.antt =====
-- sqlx-data-params/src/builder.rs: `SortBuilder`. The typestate is an index that no value carries:
-- `asc` and `desc` want `safe`, `asc_unsafe` and `desc_unsafe` want `unsafe`.
pub mod Reached
use sqlx_data.Prelude.{Text, Option, none, some, List, if◌then◌else◌}
use sqlx_data.Sort
use sqlx_data.Sorting
use sqlx_data.Sorting.{SortingParams}
use sqlx_data.Params
use sqlx_data.Params.{IntoParams, Params}
use sqlx_data.Builder.Root.{HasParams}
use sqlx_data.Builder.States.{Security, safe, unsafe}

pub record SortBuilder (P : Type 0) (S : Security) : Type 0 where
  pub parent : Option P
  pub sorts : SortingParams
  pub allowed_columns : Option (List Text)

-- SortBuilder::new
abbrev pub new : SortBuilder (Unit {0}) safe
new = record { parent = none; sorts = Sorting.new; allowed_columns = none }

module _ {P : Type 0} where
  unfoldable pub with_parent : P → SortBuilder P safe
  with_parent parent = record { parent = some parent; sorts = Sorting.new; allowed_columns = none }

  unfoldable pub asc : Text → SortBuilder P safe → SortBuilder P safe
  asc field b = record b { sorts = Sorting.asc field b.sorts }

  unfoldable pub desc : Text → SortBuilder P safe → SortBuilder P safe
  desc field b = record b { sorts = Sorting.desc field b.sorts }

  unfoldable pub with_allowed_columns : List Text → SortBuilder P safe → SortBuilder P unsafe
  with_allowed_columns allowed b = record {
    parent = b.parent;
    sorts = Sorting.with_allowed_columns allowed b.sorts;
    allowed_columns = some allowed;
  }

  unfoldable pub asc_unsafe : Text → SortBuilder P unsafe → SortBuilder P unsafe
  asc_unsafe field b = record b { sorts = Sorting.push (Sort.asc_unsafe field) b.sorts }

  unfoldable pub desc_unsafe : Text → SortBuilder P unsafe → SortBuilder P unsafe
  desc_unsafe field b = record b { sorts = Sorting.push (Sort.desc_unsafe field) b.sorts }

-- `build` of either state, when standalone
unfoldable pub build : {S : Security} → SortBuilder (Unit {0}) S → Option SortingParams
build b = if Sorting.is_empty b.sorts then none else some b.sorts

module _ {P : Type 0} {S : Security} where
  unfoldable pub nulls_first : SortBuilder P S → SortBuilder P S
  nulls_first b = record b { sorts = Sorting.apply_nulls_first b.sorts }

  unfoldable pub nulls_last : SortBuilder P S → SortBuilder P S
  nulls_last b = record b { sorts = Sorting.apply_nulls_last b.sorts }

  unfoldable pub nulls_default : SortBuilder P S → SortBuilder P S
  nulls_default b = record b { sorts = Sorting.apply_nulls_default b.sorts }

abbrev merge : Option SortingParams → SortingParams → SortingParams
merge none sorts = sorts
merge (some existing) sorts = Sorting.extend_with existing sorts

module _ {P : Type 0} ⦃h : HasParams P⦄ where
  abbrev add_to : SortingParams → P → P
  add_to sorts parent =
      let p = h.read parent in
      if Sorting.is_empty sorts
      then parent
      else h.write (record p { sort_by = some (merge p.sort_by sorts) }) parent

  unfoldable pub done : {S : Security} → SortBuilder P S → Option P
  done b = elim b.parent [ none ↦ none | some parent ↦ some (add_to b.sorts parent) ]

instance abbrev pub from_sort_builder : {S : Security} → IntoParams (SortBuilder (Unit {0}) S)
from_sort_builder = record { into_params = λ b. record Params.default { sort_by = build b } }
