-- ===== src/Examples/Orders.antt =====
-- The ORDER BY of a cursor over two keys, with rows whose columns hold natural numbers.
use Prim.Native.Nat.{Ordering, compare}
use sqlx_data.Prelude.{
  ℕ, ◌≡◌, refl, ◌↔◌, ◌++◌, Text, codes, true, none, some, Option, List, [], ◌∷◌, arith,
}
use sqlx_data.Error.{ok}
use sqlx_data.Value.{FilterValue}
use sqlx_data.Sort
use sqlx_data.Sort.{Sort}
use sqlx_data.Sorting.{SortingParams}
use sqlx_data.Cursor.{CursorParams, CursorDirection}
use sqlx_data.Params
use sqlx_data.Params.{Params, Pagination}
use sqlx_data.Ast.{Expr, OrderBy}
use sqlx_data.Dynamic.Binder.{Database, Binder}
use sqlx_data.Dynamic.Binder.Numbering.{resolve}
use sqlx_data.Dynamic.Semantics.{Values, eval}
use sqlx_data.Dynamic.Cursors.{cursor_expr}
use sqlx_data.Dynamic.Query.{new_order}
use sqlx_data.Dynamic.Query.Order.{swap, by_order, new_order-reversed, new_order-cursor}

abbrev number : FilterValue → ℕ
number (FilterValue.uint n) = n
number _ = 0

abbrev numbers : Values
numbers = record { V = ℕ; cmp = compare; meaning = number }

-- `id` has two letters and `age` three.
abbrev first_row : Text → ℕ
first_row (a ∷ b ∷ c ∷ _) = 3
first_row _ = 2

abbrev second_row : Text → ℕ
second_row (a ∷ b ∷ c ∷ _) = 5
second_row _ = 2

abbrev sorting : SortingParams
sorting = record {
  sorts = Sort.asc (codes "id") ∷ Sort.desc (codes "age") ∷ [];
  unsafe_fields = [];
  allowed_columns = none;
}

-- At the second row.
abbrev cursor : CursorDirection → CursorParams
cursor dir = record {
  direction = some dir;
  values = FilterValue.uint 2 ∷ FilterValue.uint 5 ∷ [];
  error = none;
}

abbrev with_cursor : CursorDirection → Params
with_cursor dir = record Params.default {
  sort_by = some sorting;
  pagination = some (Pagination.cursor (cursor dir));
}

abbrev old : Option (OrderBy Text)
old = none

new_order-reversed_example :
    by_order numbers (new_order (with_cursor CursorDirection.before) old) first_row second_row
    ≡ swap
        (by_order numbers (new_order (with_cursor CursorDirection.after) old) first_row second_row)
new_order-reversed_example =
    new_order-reversed numbers first_row second_row Text (with_cursor CursorDirection.after) sorting
      old (cursor CursorDirection.before) (cursor CursorDirection.after) refl (omega arith) refl
      refl

abbrev empty : Binder
empty = record { binds = []; next = 1 }

new_order-cursor_example :
    (e : Expr Text) × (b' : Binder) × (cursor_expr Database.postgres CursorDirection.before
        sorting.sorts
        (cursor CursorDirection.before).values
        empty
      ≡ ok (e, b'))
    × ((more : List FilterValue)
        → (eval numbers first_row (resolve 0 0 (b'.binds ++ more)) e ≡ true) ↔ (
            by_order numbers
              (new_order (with_cursor CursorDirection.before) old)
              first_row
              second_row
            ≡ Ordering.gt))
new_order-cursor_example =
    new_order-cursor numbers first_row second_row Text (with_cursor CursorDirection.before) sorting
      old Database.postgres CursorDirection.before (cursor CursorDirection.before) 0 0 empty refl
      refl refl (λ h. cc) (record { after_text = omega arith; step = refl }) (omega arith)
      (refl, (refl, tt)) (omega arith)
