-- ===== src/Params.antt =====
-- sqlx-data-params/src/params.rs, pagination.rs and the `IntoParams` of each parameter type.
use sqlx_data.Prelude.{ℕ, Bool, false, not, ◌&&◌, Option, none, some, is_none}
use sqlx_data.Filter.{FilterParams}
use sqlx_data.Search.{SearchParams}
use sqlx_data.Sorting.{SortingParams}
use sqlx_data.Serial
use sqlx_data.Serial.{SerialParams}
use sqlx_data.Slice
use sqlx_data.Slice.{SliceParams}
use sqlx_data.Cursor.{CursorParams}

pub data Pagination : Type 0 where
  serial : SerialParams → Pagination
  slice : SliceParams → Pagination
  cursor : CursorParams → Pagination

-- `LimitParam` and `OffsetParam` wrap one u32 each.
pub record Params : Type 0 where
  pub filters : Option FilterParams
  pub search : Option SearchParams
  pub sort_by : Option SortingParams
  pub limit : Option ℕ
  pub offset : Option ℕ
  pub pagination : Option Pagination

-- `Default`
abbrev pub default : Params
default = record {
  filters = none;
  search = none;
  sort_by = none;
  limit = none;
  offset = none;
  pagination = none;
}

unfoldable pub is_empty : Params → Bool
is_empty p =
    is_none p.filters
    && is_none p.search
    && is_none p.sort_by
    && is_none p.pagination
    && is_none p.limit
    && is_none p.offset

abbrev pub has_modifications : Params → Bool
has_modifications p = not (is_empty p)

abbrev total_count_disabled : Option Pagination → Bool
total_count_disabled (some (slice s)) = s.disable_total_count
total_count_disabled _ = false

unfoldable pub is_disable_total_count : Params → Bool
is_disable_total_count p = total_count_disabled p.pagination

abbrev extra_rows : Option Pagination → ℕ
extra_rows (some (slice s)) = 1
extra_rows (some (cursor c)) = 1
extra_rows (some (serial s)) = 0
extra_rows none = 0

unfoldable pub limit_plus_one : Params → ℕ
limit_plus_one p = extra_rows p.pagination

-- `IntoParams`
pub record IntoParams {ℓ} (A : Type ℓ) : Type ℓ where
  pub into_params : A → Params

instance abbrev pub from_params : IntoParams Params
from_params = record { into_params = λ p. p }

instance abbrev pub from_filters : IntoParams FilterParams
from_filters = record { into_params = λ f. record default { filters = some f } }

instance abbrev pub from_search : IntoParams SearchParams
from_search = record { into_params = λ s. record default { search = some s } }

instance abbrev pub from_sorting : IntoParams SortingParams
from_sorting = record { into_params = λ s. record default { sort_by = some s } }

instance abbrev pub from_serial : IntoParams SerialParams
from_serial = record {
  into_params = λ s. record default {
    pagination = some (serial s);
    limit = some (s.page_size);
    offset = some (Serial.offset s);
  };
}

instance abbrev pub from_slice : IntoParams SliceParams
from_slice = record {
  into_params = λ s. record default {
    pagination = some (slice s);
    limit = some (s.page_size);
    offset = some (Slice.offset s);
  };
}

instance abbrev pub from_cursor : IntoParams CursorParams
from_cursor = record {
  into_params = λ c. record default { pagination = some (cursor c); limit = some 20 };
}
