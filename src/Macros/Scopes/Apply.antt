-- ===== src/Macros/Scopes/Apply.antt =====
-- `apply_scopes_to_sql`. The parser and the printer of sqlparser are parameters.
use sqlx_data.Prelude.{
  Text, codes, List, [], ◌∷◌, ◌++◌, is_empty, Option, none, some, if◌then◌else◌,
}
use sqlx_data.Error.{Result, ok, err, ◌>>=◌}
use sqlx_data.Macros.SynResult.{SynResult}
use sqlx_data.Macros.Aliases.{AliasManager, substitute_aliases}
use sqlx_data.Macros.Scopes.{
  ScopeTarget, ScopeDefinition, Scopes, ScopeManager, add_scope, has_active_scopes,
  get_scopes_by_target,
}
use sqlx_data.Macros.Scopes.Clauses.{
  as_query, as_select, parsed, combine_where_conditions, where_condition, having_condition, collect,
  build_where_conditions, parse_scope_as_select_item, build_order_by_expressions, add_from,
  add_joins, add_groups,
}
use sqlx_data.Core.Tree.{
  Expr, OrderBy, order_expressions, order_all, Query, SetExpr, Select, Statement, projection_of,
  from_of, selection_of, group_of, having_of, set_projection, set_from, set_selection, set_group,
  set_having, order_by_of, set_order_by, set_body,
}

abbrev pub only_select : Text
only_select = codes "Only SELECT queries support scope application"

module _ {X : Type 0} where
  -- Nothing is combined without a condition.
  unfoldable pub combined : Option (Expr X) → List (Expr X) → SynResult (Option (Expr X))
  unfolding combine_where_conditions
  combined existing conditions =
      if is_empty conditions
      then ok existing
      else (combine_where_conditions existing conditions >>= λ c. ok (some c))

  abbrev extend_order : List X → Option (OrderBy X) → OrderBy X
  extend_order exprs none = record { kind = order_expressions exprs; interpolate = none }
  extend_order exprs (some order) = elim (order.kind) [
    | order_expressions existing ↦ record {
      kind = order_expressions (existing ++ exprs);
      interpolate = order.interpolate;
    }
    | order_all x ↦ record { kind = order_expressions exprs; interpolate = order.interpolate }
  ]

  abbrev pub with_order : List X → Option (OrderBy X) → Option (OrderBy X)
  with_order exprs order = if is_empty exprs then order else some (extend_order exprs order)

module _ {X : Type 0} (parse_sql : Text → SynResult (Option (Statement X)))
    (scopes_at : ScopeTarget → List ScopeDefinition) where
  abbrev pub add_where : Select X → SynResult (Select X)
  add_where s =
      build_where_conditions parse_sql (scopes_at ScopeTarget.where_target)
      >>= combined (selection_of s)
      >>= λ cond. ok (set_selection cond s)

  abbrev pub add_items : Select X → SynResult (Select X)
  add_items s =
      collect (parse_scope_as_select_item parse_sql) (scopes_at ScopeTarget.select) >>= λ items.
      ok (set_projection (projection_of s ++ items) s)

  abbrev pub add_tables : Select X → SynResult (Select X)
  add_tables s = add_from parse_sql (scopes_at ScopeTarget.from) (from_of s) >>= λ tables.
      ok (set_from tables s)

  abbrev pub add_joined : Select X → SynResult (Select X)
  add_joined s = add_joins parse_sql (scopes_at ScopeTarget.join) (from_of s) >>= λ tables.
      ok (set_from tables s)

  abbrev pub add_group : Select X → SynResult (Select X)
  add_group s = add_groups parse_sql (scopes_at ScopeTarget.group_by) (group_of s) >>= λ group.
      ok (set_group group s)

  abbrev pub add_having : Select X → SynResult (Select X)
  add_having s =
      collect (having_condition parse_sql) (scopes_at ScopeTarget.having)
      >>= combined (having_of s)
      >>= λ cond. ok (set_having cond s)

  -- The clauses in their order.
  unfoldable pub apply_to : Query X → Select X → SynResult (Query X)
  unfolding combined collect where_condition having_condition parse_scope_as_select_item
      build_order_by_expressions add_from add_joins add_groups
  apply_to q s = add_where s >>= λ s1. add_items s1 >>= λ s2.
      build_order_by_expressions parse_sql (scopes_at ScopeTarget.order_by) >>= λ exprs.
      add_tables s2 >>= λ s3. add_joined s3 >>= λ s4. add_group s4 >>= λ s5. add_having s5 >>= λ s6.
      ok (set_order_by (with_order exprs (order_by_of q)) (set_body (SetExpr.select s6) q))

module _ {X : Type 0} (parse_sql : Text → SynResult (Option (Statement X))) (print : Query X → Text)
    (order : Scopes → Scopes) where
  abbrev pub applied : ScopeManager → Text → SynResult (Query X)
  applied m sql = parsed parse_sql sql >>= as_query only_select >>= λ q.
      as_select only_select q >>= apply_to parse_sql (get_scopes_by_target order m) q

  unfoldable pub apply_scopes_to_sql : ScopeManager → Text → SynResult Text
  unfolding apply_to parsed
  apply_scopes_to_sql m sql =
      if has_active_scopes m then (applied m sql >>= λ q. ok (print q)) else ok sql

-- As for `substitute_aliases`, `none` would be a loop without end.
module _ (captures : Text → Result Text (Option Text)) (aliases : AliasManager) where
  abbrev pub resolved :
      Option (SynResult Text)
      → (Text → Option (SynResult ScopeManager))
      → Option (SynResult ScopeManager)
  resolved none next = none
  resolved (some (err e)) next = some (err e)
  resolved (some (ok sql)) next = next sql

  unfoldable pub substitute_scopes : Scopes → ScopeManager → Option (SynResult ScopeManager)
  unfolding substitute_aliases
  substitute_scopes [] m = some (ok m)
  substitute_scopes ((scope_name, d) ∷ scopes) m =
      let rest : ScopeManager → Option (SynResult ScopeManager) = substitute_scopes scopes in
      resolved (substitute_aliases captures aliases d.sql)
        (λ sql. rest (add_scope scope_name sql d.target m))

  unfoldable pub substitute_scope_aliases : ScopeManager → Option (SynResult ScopeManager)
  unfolding substitute_scopes
  substitute_scope_aliases m =
      substitute_scopes m.scopes (record { scopes = []; ignored_scopes = m.ignored_scopes })
