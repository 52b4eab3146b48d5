-- ===== src/Dynamic/Cursors.antt =====
-- sqlx-data-parser/src/dynamic/builder.rs: the part of `process_select` for cursor pagination, with
-- `build_cursor_condition_recursive`. Its index becomes the rest of the two lists; an index out of
-- range panics.
pub mod Keyset
pub mod Accepted
pub mod Mysql
use sqlx_data.Prelude.{
  ℕ, Text, codes, Bool, true, false, not, List, [], ◌∷◌, ◌++◌, length, to_string, Option, none,
  some, unwrap_or, ◌==◌, if◌then◌else◌,
}
use sqlx_data.Error.{SqlxError, invalid_argument, panicked}
use sqlx_data.Value.{FilterValue}
use sqlx_data.Sort
use sqlx_data.Sort.{Sort}
use sqlx_data.Sorting.{SortingParams}
use sqlx_data.Cursor
use sqlx_data.Cursor.{CursorParams, CursorDirection}
use sqlx_data.Params.{Pagination}
use sqlx_data.Ast.{BinaryOperator, Expr}
use sqlx_data.Dynamic.Binder.{Database, M, pure, fail, ◌>>=◌, bind}
use sqlx_data.Dynamic.Exprs

abbrev pub decode_failed : Text → SqlxError
decode_failed msg = invalid_argument (codes "Cursor decode failed: " ++ msg)

abbrev pub unknown_error : Text
unknown_error = codes "unknown error"

abbrev pub needs_order_by : SqlxError
needs_order_by =
    invalid_argument (codes "Cursor pagination requires ORDER BY clause to be defined in sort_by")

abbrev pub count_mismatch : ℕ → ℕ → SqlxError
count_mismatch values fields = invalid_argument (
    codes "Number of cursor values ("
    ++ to_string values
    ++ codes ") must match number of sort fields ("
    ++ to_string fields
    ++ codes ")")

abbrev pub missing_direction : SqlxError
missing_direction = invalid_argument (codes "Cursor pagination is missing direction")

abbrev pub index_out_of_bounds : SqlxError
index_out_of_bounds = invalid_argument (codes "Index out of bounds in cursor condition")

module _ {X : Type 0} where
  abbrev pub cursor_operator : CursorDirection → Bool → BinaryOperator X
  cursor_operator CursorDirection.after true = BinaryOperator.gt
  cursor_operator CursorDirection.after false = BinaryOperator.lt
  cursor_operator CursorDirection.before true = BinaryOperator.lt
  cursor_operator CursorDirection.before false = BinaryOperator.gt

  -- The condition for the keys that are left, when there are some: bare for the last key.
  abbrev pub wrap_rest : List Sort → Expr X → Expr X
  wrap_rest (s ∷ []) rest = rest
  wrap_rest _ rest = Expr.nested rest

  abbrev pub key_or_rest : BinaryOperator X → Text → Expr X → Expr X → Expr X → Expr X
  key_or_rest op field ph eq_ph rest =
      Exprs.or (Exprs.bin op (Exprs.id field) ph)
        (Expr.nested (Exprs.and (Exprs.bin BinaryOperator.eq (Exprs.id field) eq_ph) rest))

  -- MySQL cannot use a placeholder twice, so the value is bound again; others use it again.
  abbrev pub equal_value : Database → FilterValue → Expr X → M (Expr X)
  equal_value Database.mysql cursor_value ph = bind Database.mysql cursor_value
  equal_value _ cursor_value ph = pure ph

  unfoldable pub build_cursor_condition :
      Database → CursorDirection → List Sort → List FilterValue → M (Expr X)
  unfolding bind
  build_cursor_condition db dir [] values = fail index_out_of_bounds
  build_cursor_condition db dir (s ∷ sorts) [] = fail panicked
  build_cursor_condition db dir (s ∷ []) (v ∷ values) = do
    ph ← bind db v
    pure (Exprs.bin (cursor_operator dir (Sort.is_asc s)) (Exprs.id s.field) ph)
  build_cursor_condition db dir (s ∷ s' ∷ sorts) (v ∷ values) = do
    ph ← bind db v
    rest ← build_cursor_condition db dir (s' ∷ sorts) values
    eq_ph ← equal_value db v ph
    pure (
        key_or_rest (cursor_operator dir (Sort.is_asc s)) s.field ph eq_ph
          (wrap_rest (s' ∷ sorts) rest))

  -- A single value has a branch of its own.
  unfoldable pub cursor_expr :
      Database → CursorDirection → List Sort → List FilterValue → M (Expr X)
  unfolding build_cursor_condition
  cursor_expr db dir (s ∷ sorts) (v ∷ []) = do
    ph ← bind db v
    pure (Exprs.bin (cursor_operator dir (Sort.is_asc s)) (Exprs.id s.field) ph)
  cursor_expr db dir [] (v ∷ []) = fail panicked
  cursor_expr db dir sorts values = build_cursor_condition db dir sorts values

  abbrev pub directed :
      Database → Option CursorDirection → List Sort → List FilterValue → M (Expr X)
  directed db none sorts values = fail missing_direction
  directed db (some dir) sorts values = cursor_expr db dir sorts values

  abbrev ordered : Database → CursorParams → Option SortingParams → M (Expr X)
  ordered db c none = fail needs_order_by
  ordered db c (some sorting) =
      if not (length (Cursor.sort_fields sorting) == Cursor.len c)
      then fail (count_mismatch (Cursor.len c) (length (Cursor.sort_fields sorting)))
      else directed db c.direction sorting.sorts c.values

  unfoldable pub nonempty_cursor : Database → CursorParams → Option SortingParams → M (Expr X)
  unfolding cursor_expr
  nonempty_cursor db c sort_by =
      if Cursor.has_error c
      then fail (decode_failed (unwrap_or c.error unknown_error))
      else ordered db c sort_by

  unfoldable pub where_cursor :
      Database → Option Pagination → Option SortingParams → M (Option (Expr X))
  unfolding nonempty_cursor
  where_cursor db (some (Pagination.cursor c)) sort_by =
      if Cursor.is_empty c then pure none else do e ← nonempty_cursor db c sort_by; pure (some e)
  where_cursor db _ sort_by = pure none
