-- ===== src/SortOrder.antt =====
-- sqlx-data-params/src/sort.rs: the enumerations of a sort and their tests.
use sqlx_data.Prelude.{Bool, true, false, Option, none, some}

pub data SortDirection : Type 0 where
  asc desc : SortDirection

pub data NullOrdering : Type 0 where
  first last default : NullOrdering

pub data SortSafety : Type 0 where
  safe unsafe : SortSafety

abbrev pub is_asc : SortDirection → Bool
is_asc asc = true
is_asc desc = false

abbrev pub is_desc : SortDirection → Bool
is_desc asc = false
is_desc desc = true

unfoldable pub flip : SortDirection → SortDirection
flip asc = desc
flip desc = asc

abbrev pub as_bool_option : NullOrdering → Option Bool
as_bool_option first = some true
as_bool_option last = some false
as_bool_option default = none
