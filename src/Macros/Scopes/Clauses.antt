-- ===== src/Macros/Scopes/Clauses.antt =====
-- What the text of a scope is parsed to, behind a SELECT that is put in front of it.
use sqlx_data.Prelude.{Text, codes, List, [], ◌∷◌, ◌++◌, first, Option, none, some}
use sqlx_data.Error.{ok, err, ◌>>=◌}
use sqlx_data.Macros.SynResult.{SynResult}
use sqlx_data.Macros.Scopes.{ScopeDefinition}
use sqlx_data.Core.Tree.{
  Expr, binary_op, Operator, SelectItem, OrderBy, order_expressions, order_all, Query, SetExpr,
  select, Select, Tables, no_table, table, Joins, no_join, join, GroupBy, expressions, all_columns,
  Statement, body_of, order_by_of, projection_of, from_of, selection_of, having_of, group_of,
}

abbrev pub or_err : {A : Type 0} → Text → Option A → SynResult A
or_err e none = err e
or_err e (some a) = ok a

abbrev quoted : Text → Text → Text → Text
quoted before name after = before ++ (name ++ after)

-- Each scope in turn, until one fails.
unfoldable pub collect :
    {A : Type 0} → (ScopeDefinition → SynResult A) → List ScopeDefinition → SynResult (List A)
collect f [] = ok []
collect f (scope ∷ scopes) =
    let rest = collect f scopes in f scope >>= λ a. rest >>= λ more. ok (a ∷ more)

module _ {X : Type 0} where
  abbrev pub as_query : Text → Statement X → SynResult (Query X)
  as_query e (Statement.query q) = ok q
  as_query e _ = err e

  abbrev pub select_of_body : Text → SetExpr X → SynResult (Select X)
  select_of_body e (select s) = ok s
  select_of_body e _ = err e

  abbrev pub as_select : Text → Query X → SynResult (Select X)
  as_select e q = select_of_body e (body_of q)

  abbrev pub and : Expr X → Expr X → Expr X
  and left right = binary_op left Operator.and right

  unfoldable pub all_of : Expr X → List (Expr X) → Expr X
  all_of combined [] = combined
  all_of combined (condition ∷ conditions) = all_of (and combined condition) conditions

  abbrev pub with_existing : Option (Expr X) → Expr X → Expr X
  with_existing none combined = combined
  with_existing (some existing) combined = and existing combined

  unfoldable pub combine_where_conditions : Option (Expr X) → List (Expr X) → SynResult (Expr X)
  unfolding all_of
  combine_where_conditions existing [] = or_err (codes "No conditions to combine") existing
  combine_where_conditions existing (c ∷ conditions) =
      ok (with_existing existing (all_of c conditions))

  abbrev order_exprs : Option (OrderBy X) → List X
  order_exprs none = []
  order_exprs (some order) = elim (order.kind) [
    | order_expressions exprs ↦ exprs
    | order_all x ↦ []
  ]

  abbrev pub append_tables : Tables X → Tables X → Tables X
  append_tables no_table more = more
  append_tables (table factor joins rest) more = table factor joins (append_tables rest more)

  abbrev pub append_joins : Joins X → Joins X → Joins X
  append_joins no_join more = more
  append_joins (join factor on rest) more = join factor on (append_joins rest more)

  abbrev pub join_last : Tables X → Joins X → Tables X
  join_last no_table more = no_table
  join_last (table factor joins no_table) more = table factor (append_joins joins more) no_table
  join_last (table factor joins (table factor' joins' rest)) more =
      table factor joins (join_last (table factor' joins' rest) more)

  -- Only the first table of what was parsed is looked at.
  abbrev pub attach : Tables X → Tables X → Tables X
  attach existing no_table = existing
  attach no_table (table factor joins rest) = table factor joins no_table
  attach (table factor' joins' rest') (table factor joins rest) =
      join_last (table factor' joins' rest') joins

  abbrev pub extend_group : GroupBy X → GroupBy X → GroupBy X
  extend_group (expressions es ms) (expressions es' ms') = expressions (es ++ es') (ms ++ ms')
  extend_group (all_columns ms) (expressions es' ms') = expressions es' ms'
  extend_group (all_columns ms) (all_columns ms') = all_columns (ms ++ ms')
  extend_group (expressions es ms) (all_columns ms') = all_columns ms'

-- `parse_sql`, with its error as a message.
module _ {X : Type 0} (parse_sql : Text → SynResult (Option (Statement X))) where
  unfoldable pub parsed : Text → SynResult (Statement X)
  parsed sql = parse_sql sql >>= or_err (codes "Failed to parse SQL")

  abbrev scope_error : ScopeDefinition → Text → Text
  scope_error scope what = quoted (codes "Scope '") scope.name (codes "' " ++ what)

  unfoldable pub where_condition : ScopeDefinition → SynResult (Expr X)
  unfolding parsed
  where_condition scope =
      parsed (codes "SELECT 1 WHERE " ++ scope.sql)
      >>= as_query (scope_error scope (codes "is not a valid SELECT query"))
      >>= as_select (scope_error scope (codes "is not a SELECT expression"))
      >>= λ s. or_err (scope_error scope (codes "produced no WHERE condition")) (selection_of s)

  unfoldable pub having_condition : ScopeDefinition → SynResult (Expr X)
  unfolding parsed
  having_condition scope =
      parsed (codes "SELECT 1 HAVING " ++ scope.sql)
      >>= as_query (scope_error scope (codes "is not a valid SELECT query"))
      >>= as_select (scope_error scope (codes "is not a SELECT expression"))
      >>= λ s. or_err (scope_error scope (codes "produced no HAVING condition")) (having_of s)

  abbrev pub build_where_conditions : List ScopeDefinition → SynResult (List (Expr X))
  build_where_conditions scopes = collect where_condition scopes

  unfoldable pub parse_scope_as_select_item : ScopeDefinition → SynResult (SelectItem X)
  unfolding parsed
  parse_scope_as_select_item scope =
      let invalid : Text → Text =
        λ what. codes "Invalid SELECT scope SQL (" ++ (what ++ (codes "): " ++ scope.sql)) in
      parsed (codes "SELECT " ++ scope.sql)
      >>= as_query (invalid (codes "not a query"))
      >>= as_select (invalid (codes "not a SELECT expr"))
      >>= λ s. or_err (invalid (codes "no projection")) (first (projection_of s))

  unfoldable pub build_order_by_expressions : List ScopeDefinition → SynResult (List X)
  unfolding parsed
  build_order_by_expressions [] = ok []
  build_order_by_expressions (scope ∷ scopes) =
      let rest = build_order_by_expressions scopes in
      parsed (codes "SELECT 1 ORDER BY " ++ scope.sql)
      >>= as_query (codes "Invalid ORDER BY scope (not a query): " ++ scope.sql)
      >>= λ q. rest >>= λ more. ok (order_exprs (order_by_of q) ++ more)

  -- The SELECT that a scope of the clause makes.
  abbrev clause_select : Text → Text → ScopeDefinition → SynResult (Select X)
  clause_select before clause scope =
      parsed (before ++ scope.sql)
      >>= as_query (codes "Invalid " ++ (clause ++ (codes " scope (not a query): " ++ scope.sql)))
      >>= as_select
          (codes "Invalid " ++ (clause ++ (codes " scope (not a SELECT expr): " ++ scope.sql)))

  unfoldable pub add_from : List ScopeDefinition → Tables X → SynResult (Tables X)
  unfolding parsed
  add_from [] tables = ok tables
  add_from (scope ∷ scopes) tables =
      let rest : Tables X → SynResult (Tables X) = add_from scopes in
      clause_select (codes "SELECT * FROM ") (codes "FROM") scope >>= λ s.
      rest (append_tables tables (from_of s))

  unfoldable pub add_joins : List ScopeDefinition → Tables X → SynResult (Tables X)
  unfolding parsed
  add_joins [] tables = ok tables
  add_joins (scope ∷ scopes) tables =
      let rest : Tables X → SynResult (Tables X) = add_joins scopes in
      clause_select (codes "SELECT * FROM __dummy__ ") (codes "JOIN") scope >>= λ s.
      rest (attach tables (from_of s))

  unfoldable pub add_groups : List ScopeDefinition → GroupBy X → SynResult (GroupBy X)
  unfolding parsed
  add_groups [] group = ok group
  add_groups (scope ∷ scopes) group =
      let rest : GroupBy X → SynResult (GroupBy X) = add_groups scopes in
      clause_select (codes "SELECT * GROUP BY ") (codes "GROUP BY") scope >>= λ s.
      rest (extend_group group (group_of s))
