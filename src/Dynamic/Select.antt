-- ===== src/Dynamic/Select.antt =====
-- sqlx-data-parser/src/dynamic/builder.rs: `process_select` and `process_set_expr`.
pub mod Binds
use sqlx_data.Prelude.{List, [], ◌∷◌, Option, none, some, if◌then◌else◌}
use sqlx_data.Params.{Params}
use sqlx_data.Ast.{Expr, SetExpr}
use sqlx_data.Dynamic.Binder.{Config, M, pure, ◌>>=◌}
use sqlx_data.Dynamic.Exprs
use sqlx_data.Dynamic.Exprs.{contains_or}
use sqlx_data.Dynamic.Filters.{where_filters}
use sqlx_data.Dynamic.Searches.{where_search}
use sqlx_data.Dynamic.Cursors.{where_cursor}

module _ {X : Type 0} where
  -- `flatten` over the three optional parts
  abbrev pub keep_some : List (Option (Expr X)) → List (Expr X)
  keep_some [] = []
  keep_some (none ∷ os) = keep_some os
  keep_some (some e ∷ os) = e ∷ keep_some os

  -- A combined condition that joins an existing one is put in parentheses if it has an OR.
  unfoldable pub dynamic_where :
      Option (Expr X) → Option (Expr X) → Option (Expr X) → Option (Expr X)
  dynamic_where filters search cursor =
      Exprs.reduce Exprs.grouped_and (keep_some (filters ∷ search ∷ cursor ∷ []))

  unfoldable pub add_selection : Option (Expr X) → Option (Expr X) → Option (Expr X)
  add_selection selection none = selection
  add_selection none (some combined) = some combined
  add_selection (some existing) (some combined) =
      some (Exprs.and existing (if contains_or combined then Expr.nested combined else combined))

module _ {X : Type 0} (cfg : Config) (params : Params) where
  unfoldable pub process_select : Option (Expr X) → M (Option (Expr X))
  unfolding dynamic_where add_selection
  process_select selection = do
    filters ← where_filters cfg params.filters
    search ← where_search cfg params.search
    cursor ← where_cursor cfg.database params.pagination params.sort_by
    pure (add_selection selection (dynamic_where (Exprs.reduce Exprs.and filters) search cursor))

  unfoldable pub process_set_expr : SetExpr X → M (SetExpr X)
  process_set_expr (SetExpr.select selection rest) = do
    selection' ← process_select selection
    pure (SetExpr.select selection' rest)
  process_set_expr (SetExpr.set_operation left right rest) = do
    left' ← process_set_expr left
    right' ← process_set_expr right
    pure (SetExpr.set_operation left' right' rest)
  process_set_expr (SetExpr.query body rest) = do
    body' ← process_set_expr body
    pure (SetExpr.query body' rest)
  process_set_expr (SetExpr.other rest) = pure (SetExpr.other rest)
