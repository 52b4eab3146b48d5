-- ===== src/Examples/Keysets.antt =====
-- Cursor pagination over two keys, with rows whose columns hold natural numbers.
use Prim.Native.Nat.{compare}
use sqlx_data.Prelude.{ℕ, ◌≡◌, refl, ◌↔◌, ◌++◌, Text, codes, true, none, some, List, [], ◌∷◌, arith}
use sqlx_data.Error.{ok, err, protocol}
use sqlx_data.Value.{FilterValue}
use sqlx_data.Sort
use sqlx_data.Sort.{Sort}
use sqlx_data.Sorting.{SortingParams}
use sqlx_data.Cursor
use sqlx_data.Cursor.{CursorParams, CursorDirection, SecureExtract}
use sqlx_data.Params.{Pagination}
use sqlx_data.Response.{is_before}
use sqlx_data.Builder.Cursors.{decoded_cursor}
use sqlx_data.Ast.{Expr}
use sqlx_data.Dynamic.Binder.{Database, Binder}
use sqlx_data.Dynamic.Binder.Numbering.{InStep, resolve}
use sqlx_data.Dynamic.Semantics.{Values, eval, Follows}
use sqlx_data.Dynamic.Cursors.{cursor_expr, where_cursor}
use sqlx_data.Dynamic.Cursors.Keyset.{cursor_expr-Follows}
use sqlx_data.Dynamic.Cursors.Mysql.{tested, cursor_expr-mysql_order}
use sqlx_data.Dynamic.Cursors.Accepted.{Handled, where_cursor-Handled, where_cursor-decoded_cursor}

abbrev number : FilterValue → ℕ
number (FilterValue.uint n) = n
number _ = 0

abbrev numbers : Values
numbers = record { V = ℕ; cmp = compare; meaning = number }

-- A row that holds 3 in each column with a name of three letters or more, and 2 in the others.
abbrev row : Text → ℕ
row (a ∷ b ∷ c ∷ _) = 3
row _ = 2

abbrev two_keys : List Sort
two_keys = Sort.asc (codes "id") ∷ Sort.desc (codes "age") ∷ []

abbrev position : List FilterValue
position = FilterValue.uint 2 ∷ FilterValue.uint 5 ∷ []

abbrev empty : Binder
empty = record { binds = []; next = 1 }

empty-InStep : InStep 0 0 empty
empty-InStep = record { after_text = omega arith; step = refl }

cursor_expr-Follows_example :
    (e : Expr Text) × (b' : Binder) × (cursor_expr Database.postgres CursorDirection.after two_keys
        position empty
      ≡ ok (e, b'))
    × (b'.binds ≡ position)
    × ((more : List FilterValue)
        → (eval numbers row (resolve 0 0 (b'.binds ++ more)) e ≡ true)
          ↔ Follows numbers row (is_before (some CursorDirection.after)) two_keys position)
cursor_expr-Follows_example =
    cursor_expr-Follows numbers row Text Database.postgres CursorDirection.after 0 0 two_keys
      position empty (λ h. cc) empty-InStep (omega arith) refl (omega arith)

abbrev sorting : SortingParams
sorting = record { sorts = two_keys; unsafe_fields = []; allowed_columns = none }

-- Two values for two keys: this cursor is accepted.
abbrev after_position : CursorParams
after_position = record { direction = some CursorDirection.after; values = position; error = none }

where_cursor-Handled_example : Handled Text Database.mysql after_position (some sorting) empty
where_cursor-Handled_example =
    where_cursor-Handled Text Database.mysql after_position (some sorting) empty (λ h. cc)

-- A decoder that takes no token.
abbrev strict : SecureExtract ℕ
strict = record {
  extract_whitelisted_fields = λ n fields. ok [];
  encode = λ c. ok [];
  decode = λ t. err (protocol (codes "bad token"));
}

abbrev tampered : CursorParams
tampered = decoded_cursor strict (λ e. codes "bad token") (codes "x") CursorDirection.after

where_cursor-decoded_cursor_example :
    (where_cursor {X = Text} Database.sqlite
        (some (Pagination.cursor tampered))
        (some sorting)
        empty
      ≡ where_cursor Database.sqlite (some (Pagination.cursor Cursor.default)) (some sorting) empty)
    × (where_cursor {X = Text} Database.sqlite
          (some (Pagination.cursor tampered))
          (some sorting)
          empty
        ≡ ok (none, empty))
    × (tampered.error ≡ some (codes "bad token"))
where_cursor-decoded_cursor_example =
    where_cursor-decoded_cursor strict (λ e. codes "bad token") (codes "x") CursorDirection.after
      (protocol (codes "bad token")) Text Database.sqlite (some sorting) empty refl

cursor_expr-mysql_order_example :
    (e : Expr Text) × (b' : Binder) × (cursor_expr Database.mysql CursorDirection.after two_keys
        position empty
      ≡ ok (e, b'))
    × (tested e ≡ codes "id" ∷ codes "id" ∷ codes "age" ∷ [])
    × (b'.binds ≡ FilterValue.uint 2 ∷ FilterValue.uint 5 ∷ FilterValue.uint 2 ∷ [])
cursor_expr-mysql_order_example =
    cursor_expr-mysql_order Text CursorDirection.after two_keys position empty (omega arith) refl
