-- ===== src/Dynamic/Query.antt =====
-- sqlx-data-parser/src/dynamic/builder.rs: `process_query`. The sum of the limit and its extra row is
-- a u32, and wraps as a release build does.
pub mod Binds
pub mod Order
use sqlx_data.Prelude.{
  ℕ, ◌+◌, ◌%◌, ◌^◌, Bool, false, not, List, [], ◌∷◌, map, length, to_string, Option, none, some,
  is_some, ◌||◌, ltb, if◌then◌else◌,
}
use sqlx_data.Error.{SqlxError, Result, ok, err}
use sqlx_data.Value.{FilterValue}
use sqlx_data.Sort
use sqlx_data.Sort.{Sort}
use sqlx_data.Params
use sqlx_data.Params.{Params, Pagination}
use sqlx_data.Response.{is_before}
use sqlx_data.Ast.{Expr, Value, OrderByExpr, OrderBy, Offset, LimitClause, Query}
use sqlx_data.Dynamic.Binder.{Config, make_generator}
use sqlx_data.Dynamic.Exprs
use sqlx_data.Dynamic.Select.{process_set_expr}

abbrev pub should_invert_order : Option Pagination → Bool
should_invert_order (some (Pagination.cursor c)) = is_before c.direction
should_invert_order _ = false

abbrev pub final_direction : Bool → Sort → Bool
final_direction invert s = if invert then not (Sort.is_asc s) else Sort.is_asc s

unfoldable pub actual_limit : Params → ℕ → ℕ
actual_limit params n = (n + Params.limit_plus_one params) % 2 ^ 32

module _ {X : Type 0} where
  abbrev pub order_expr : Bool → Sort → OrderByExpr X
  order_expr invert s = record {
    expr = Exprs.id s.field;
    asc = some (final_direction invert s);
    nulls_first = Sort.nulls_as_bool s;
  }

  abbrev pub order_of : Bool → List Sort → Option (OrderBy X) → Option (OrderBy X)
  order_of invert [] old = old
  order_of invert (s ∷ sorts) old = some (OrderBy.expressions (map (order_expr invert) (s ∷ sorts)))

  unfoldable pub new_order : Params → Option (OrderBy X) → Option (OrderBy X)
  new_order params old = elim params.sort_by [
    | none ↦ old
    | some sorting ↦ order_of (should_invert_order params.pagination) sorting.sorts old
  ]

  abbrev pub number_expr : ℕ → Expr X
  number_expr n = Expr.value (Value.number (to_string n) false)

  unfoldable pub limit_expr : Params → Option (Expr X)
  unfolding actual_limit
  limit_expr params = elim params.limit [
    | none ↦ none
    | some n ↦ some (number_expr (actual_limit params n))
  ]

  unfoldable pub offset_expr : Params → Option (Offset X)
  offset_expr params = elim params.offset [
    | none ↦ none
    | some n ↦ some (record { value = number_expr n; rows = none })
  ]

  unfoldable pub new_limit : Params → Option (LimitClause X) → Option (LimitClause X)
  unfolding limit_expr offset_expr
  new_limit params old =
      if is_some params.limit || is_some params.offset
      then some (LimitClause.limit_offset (limit_expr params) (offset_expr params) [])
      else old

-- The generator starts after the placeholders in the text, or after the values bound so far.
unfoldable pub start_index : List FilterValue → ℕ → ℕ
start_index binds max_existing =
    if ltb 0 max_existing then max_existing % 256 else length binds % 256

module _ {X : Type 0} (cfg : Config) (params : Params) where
  abbrev pub finish : Query X → Query X
  finish q = record q {
    order_by = new_order params q.order_by;
    limit_clause = new_limit params q.limit_clause;
  }

  unfoldable pub process_query :
      Query X → List FilterValue → ℕ → Result SqlxError (Query X × List FilterValue)
  unfolding make_generator start_index process_set_expr new_order new_limit
  process_query q binds max_existing =
      elim (process_set_expr cfg params q.body
        (make_generator (start_index binds max_existing) binds)) [
          | ok r ↦ let q' = record q { body = r.0 } in ok (finish q', (r.1).binds)
          | err e ↦ err e
        ]
