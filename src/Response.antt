-- ===== src/Response.antt =====
-- sqlx-data-params/src/response.rs: the pages that a query returns. A `usize` has 64 bits, so the
-- casts between u32 and it keep the number; `as u32` keeps the low 32 bits.
pub mod Pages
pub mod Tokens
pub mod Rows
use sqlx_data.Prelude.{
  ℕ, ◌+◌, ◌-◌, ◌/◌, ◌%◌, ◌^◌, max, Text, codes, Bool, true, false, not, Option, none, some, List,
  reverse, is_empty, length, take, unwrap_or, ◌>>=?◌, if◌then◌else◌, ltb, ◌==◌,
}
use sqlx_data.Prelude.Int.{ℤ, add_ℕ, in_i64, checked_div, max_zero}
use sqlx_data.Error.{SqlxError, decode_error, Result, ok, err, ◌>>=◌, map_err, sqlx_of_cursor}
use sqlx_data.Serial
use sqlx_data.Serial.{max_u32}
use sqlx_data.Sorting.{SortingParams}
use sqlx_data.Cursor
use sqlx_data.Cursor.{CursorParams, CursorDirection, SecureExtract}
use sqlx_data.Params.{Params, Pagination}

pub record SerialPage (T : Type 0) : Type 0 where
  pub items : List T
  pub page : ℕ
  pub size : ℕ
  pub total_items : ℤ
  pub total_pages : ℕ

pub record SlicePage (T : Type 0) : Type 0 where
  pub items : List T
  pub page : ℕ
  pub size : ℕ
  pub has_next : Bool
  pub has_previous : Bool
  pub total_items : Option ℤ

pub record CursorPage (T : Type 0) : Type 0 where
  pub items : List T
  pub per_page : ℕ
  pub has_next : Bool
  pub has_prev : Bool
  pub next_cursor : Option Text
  pub prev_cursor : Option Text

abbrev pub default_limit : ℕ
default_limit = 20

-- `page_size` of all three
unfoldable pub page_size : Params → ℕ
page_size params = max (unwrap_or params.limit default_limit) 1

-- u32::try_from
abbrev try_u32 : ℕ → Option ℕ
try_u32 n = if ltb max_u32 n then none else some n

unfoldable pub calculate_total_pages : ℤ → ℕ → ℕ
calculate_total_pages total_items size =
    unwrap_or
      (in_i64 (add_ℕ total_items (size - 1)) >>=? λ sum.
        checked_div sum size >>=? λ pages. try_u32 (max_zero pages))
      1

module _ {T : Type 0} where
  abbrev serial_page : List T → ℤ → ℕ → Option Pagination → SerialPage T
  serial_page items total size (some (Pagination.serial s)) =
      let n = max (Serial.limit s) 1 in
      record {
        items = items;
        page = s.page;
        size = n;
        total_items = total;
        total_pages = calculate_total_pages total n;
      }
  serial_page items total size _ = record {
    items = items;
    page = 1;
    size = size;
    total_items = total;
    total_pages = 1;
  }

  -- Serial::new
  unfoldable pub serial : List T → Params → ℤ → SerialPage T
  unfolding page_size
  serial items params total = serial_page items total (page_size params) params.pagination

  -- `trim_to_page`: the rows that stay, and whether any was cut off.
  unfoldable pub trim_to_page : List T → ℕ → List T × Bool
  trim_to_page items size =
      if ltb size (length items) then (take size items, true) else (items, false)

-- The checked operations cannot fail: an offset is below 2 ^ 32 and the size is positive.
unfoldable pub page_offset : Params → ℕ → ℕ
page_offset params size =
    unwrap_or (params.offset >>=? λ o. if size == 0 then none else some (o / size + 1)) 1 % 2 ^ 32

module _ {T : Type 0} where
  abbrev slice_page : List T × Bool → ℕ → ℕ → Option ℤ → SlicePage T
  slice_page trimmed size page total = record {
    items = trimmed.0;
    page = page;
    size = size;
    has_next = trimmed.1;
    has_previous = ltb 1 page;
    total_items = total;
  }

  abbrev slice_by : Params → ℤ → ℕ → List T × Bool → Option Pagination → SlicePage T
  slice_by params total size trimmed (some (Pagination.slice s)) =
      slice_page trimmed size s.page (if s.disable_total_count then none else some total)
  slice_by params total size trimmed _ =
      slice_page trimmed size (page_offset params size) (some total)

  -- Slice::new
  unfoldable pub slice : List T → Params → ℤ → SlicePage T
  unfolding page_size trim_to_page page_offset
  slice items params total =
      let size = page_size params in
      slice_by params total size (trim_to_page items size) params.pagination

abbrev pub requires_sort_by : Text
requires_sort_by = codes "Cursor pagination requires ORDER BY (sort_by)"

abbrev pub no_cursor_params : Text
no_cursor_params = codes "Cursor params is not present"

abbrev pub is_before : Option CursorDirection → Bool
is_before (some CursorDirection.before) = true
is_before _ = false

module _ {T : Type 0} where
  -- The rows of a page of at most `limit` rows.
  abbrev pub truncated : ℕ → List T → List T
  truncated limit items = if ltb limit (length items) then take limit items else items

  -- The result of `Cursor::new`. Backward, the rows are reversed and the flags exchanged.
  abbrev pub with_tokens :
      (is_backward has_more had_prev : Bool) → List T → ℕ → Option Text × Option Text → CursorPage T
  with_tokens is_backward has_more had_prev page limit tokens = record {
    items = if is_backward then reverse page else page;
    per_page = limit;
    has_next = if is_backward then had_prev else has_more;
    has_prev = if is_backward then has_more else had_prev;
    next_cursor = tokens.0;
    prev_cursor = tokens.1;
  }

module _ {T : Type 0} (x : SecureExtract T) where
  -- `generate_cursors`: the next and the previous token
  unfoldable pub generate_cursors :
      List T → Bool → Bool → SortingParams → Result SqlxError (Option Text × Option Text)
  generate_cursors items has_more had_previous sorting =
      if is_empty items then ok (none, none) else do
        next ←
            (if has_more
              then map_err sqlx_of_cursor (Cursor.generate_next_cursor x items has_more sorting)
              else ok none)
        prev ←
            (if had_previous
              then map_err sqlx_of_cursor (Cursor.generate_prev_cursor x items had_previous sorting)
              else ok none)
        ok (next, prev)

  -- The rest of `Cursor::new`, once the sort keys and the cursor are known.
  unfoldable pub cursor_page :
      List T → ℕ → SortingParams → CursorParams → Result SqlxError (CursorPage T)
  cursor_page items limit sorting cursor =
      let is_backward = is_before cursor.direction in
      let has_more = ltb limit (length items) in
      let page = truncated limit items in
      let had_prev = not (Cursor.is_empty cursor) in
      generate_cursors page has_more had_prev sorting >>= λ tokens.
      ok (with_tokens is_backward has_more had_prev page limit tokens)

  abbrev cursor_by :
      List T → ℕ → SortingParams → Option Pagination → Result SqlxError (CursorPage T)
  cursor_by items limit sorting (some (Pagination.cursor c)) = cursor_page items limit sorting c
  cursor_by items limit sorting _ = err (sqlx_of_cursor (decode_error no_cursor_params))

  -- Cursor::new
  unfoldable pub cursor : List T → Params → Result SqlxError (CursorPage T)
  unfolding page_size
  cursor items params = elim params.sort_by [
    | none ↦ err (sqlx_of_cursor (decode_error requires_sort_by))
    | some sorting ↦ cursor_by items (page_size params) sorting params.pagination
  ]
