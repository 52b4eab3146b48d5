-- ===== src/Sort.antt =====
-- sqlx-data-params/src/sort.rs: one sort key.
use sqlx_data.Prelude.{Text, Bool, true, false, Option}
use sqlx_data.SortOrder
use sqlx_data.SortOrder.{SortDirection, NullOrdering, SortSafety}

pub record Sort : Type 0 where
  pub field : Text
  pub direction : SortDirection
  pub nulls : NullOrdering
  pub safety_type : SortSafety

abbrev pub new : Text → SortDirection → Sort
new field direction = record {
  field = field;
  direction = direction;
  nulls = NullOrdering.default;
  safety_type = SortSafety.safe;
}

abbrev pub new_unsafe : Text → SortDirection → Sort
new_unsafe field direction = record {
  field = field;
  direction = direction;
  nulls = NullOrdering.default;
  safety_type = SortSafety.unsafe;
}

abbrev safety_is_unsafe : SortSafety → Bool
safety_is_unsafe SortSafety.safe = false
safety_is_unsafe SortSafety.unsafe = true

abbrev pub is_unsafe : Sort → Bool
is_unsafe s = safety_is_unsafe s.safety_type

abbrev pub asc : Text → Sort
asc field = new field SortDirection.asc

abbrev pub desc : Text → Sort
desc field = new field SortDirection.desc

abbrev pub asc_unsafe : Text → Sort
asc_unsafe field = new_unsafe field SortDirection.asc

abbrev pub desc_unsafe : Text → Sort
desc_unsafe field = new_unsafe field SortDirection.desc

abbrev pub is_asc : Sort → Bool
is_asc s = SortOrder.is_asc s.direction

-- nulls_as_bool
abbrev pub nulls_as_bool : Sort → Option Bool
nulls_as_bool s = SortOrder.as_bool_option s.nulls

abbrev pub with_nulls : NullOrdering → Sort → Sort
with_nulls n s = record s { nulls = n }
