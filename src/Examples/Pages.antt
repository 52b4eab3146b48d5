-- ===== src/Examples/Pages.antt =====
-- Pages of rows that are numbers.
use sqlx_data.Prelude.{
  ℕ, ◌+◌, ◌*◌, ◌≤◌, ◌<◌, ◌≡◌, refl, true, false, none, some, is_some, List, [], ◌∷◌, length, take,
  reverse, not, ltb, arith, codes, map,
}
use sqlx_data.Prelude.Int.{pos}
use sqlx_data.Error.{ok}
use sqlx_data.Value.{FilterValue}
use sqlx_data.Sort
use sqlx_data.Sorting
use sqlx_data.Sorting.{SortingParams}
use sqlx_data.Slice
use sqlx_data.Slice.{SliceParams}
use sqlx_data.Cursor
use sqlx_data.Cursor.{CursorParams, CursorDirection, CursorValue, SecureExtract}
use sqlx_data.Params.{Params, Pagination, from_slice}
use sqlx_data.Dynamic.Query.{actual_limit}
use sqlx_data.Response.{
  generate_cursors, cursor, page_size, slice, calculate_total_pages, cursor_page, CursorPage,
}
use sqlx_data.Response.Pages.{slice_of_limited, calculate_total_pages_covers}
use sqlx_data.Response.Rows.{cursor_of_limited}
use sqlx_data.Params
use sqlx_data.Response.Tokens.{cursor_page-tokens}

abbrev rows : List ℕ
rows = 10 ∷ 20 ∷ 30 ∷ []

abbrev first_two : SliceParams
first_two = Slice.new 1 2

abbrev sliced : Params
sliced = from_slice.into_params first_two

calculate_total_pages_covers_example :
    (7 ≤ calculate_total_pages (pos 7) 3 * 3) × (calculate_total_pages (pos 7) 3 * 3 < 7 + 3)
calculate_total_pages_covers_example =
    calculate_total_pages_covers 7 3 (omega arith) (omega arith) (omega arith)

slice_of_limited_example :
    ((slice (take (actual_limit sliced 2) rows) sliced (pos 3)).items ≡ take 2 rows)
    × ((slice (take (actual_limit sliced 2) rows) sliced (pos 3)).has_next ≡ ltb 2 (length rows))
    × ((slice (take (actual_limit sliced 2) rows) sliced (pos 3)).size ≡ 2)
unfolding Slice.new
slice_of_limited_example =
    slice_of_limited rows sliced first_two 2 (pos 3) refl refl (omega arith) (omega arith)

-- Rows whose only field is their number; a token is the text of that field.
abbrev by_number : SecureExtract ℕ
by_number = record {
  extract_whitelisted_fields = λ n fields. ok (map (λ f. CursorValue.uint n) fields);
  encode = λ c. ok (codes "token");
  decode = λ t. ok (FilterValue.uint 20 ∷ []);
}

abbrev by_id : SortingParams
by_id = Sorting.push (Sort.asc (codes "id")) Sorting.new

abbrev before_40 : CursorParams
before_40 = Cursor.new (FilterValue.uint 40) CursorDirection.before

-- The last rows backward: there is a next page, but no token for it.
abbrev backward_page : CursorPage ℕ
backward_page = record {
  items = 30 ∷ 20 ∷ 10 ∷ [];
  per_page = 3;
  has_next = true;
  has_prev = false;
  next_cursor = none;
  prev_cursor = some (codes "token");
}

backward_page-made : cursor_page by_number rows 3 by_id before_40 ≡ ok backward_page
unfolding cursor_page Sorting.push generate_cursors Cursor.generate_prev_cursor
    Cursor.cursor_of_item
backward_page-made = refl

cursor_page-tokens_example :
    (is_some backward_page.next_cursor ≡ backward_page.has_prev)
    × (is_some backward_page.prev_cursor ≡ backward_page.has_next)
cursor_page-tokens_example =
    cursor_page-tokens by_number 10 (20 ∷ 30 ∷ []) 3 by_id before_40 backward_page (omega arith)
      backward_page-made

abbrev backward : Params
backward = record Params.default {
  sort_by = some by_id;
  limit = some 3;
  pagination = some (Pagination.cursor before_40);
}

backward-made : cursor by_number (take (actual_limit backward 3) rows) backward ≡ ok backward_page
unfolding cursor actual_limit Params.limit_plus_one page_size cursor_page Sorting.push
    generate_cursors Cursor.generate_prev_cursor Cursor.cursor_of_item
backward-made = refl

cursor_of_limited_example :
    (backward_page.items ≡ reverse (take 3 rows))
    × (backward_page.has_prev ≡ ltb 3 (length rows))
    × (backward_page.has_next ≡ not (Cursor.is_empty before_40))
cursor_of_limited_example =
    cursor_of_limited by_number rows backward by_id before_40 3 backward_page refl refl refl
      (omega arith) (omega arith) backward-made
