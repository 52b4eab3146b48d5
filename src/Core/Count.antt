-- ===== src/Core/Count.antt =====
-- sqlx-data-parser/src/core/parser_count.rs. The printers of sqlparser are a parameter. The field `reason`, which nothing
-- reads, is left out, and so are log messages.
pub mod Kept
pub mod Rows
pub mod Cached
use sqlx_data.Prelude.{
  ℕ, Text, codes, Bool, true, false, not, ◌&&◌, ◌||◌, List, [], ◌∷◌, ◌++◌, length, is_empty, Option,
  none, some, is_some, if◌then◌else◌,
}
use sqlx_data.Core.Tree.{
  Expr, identifier, compound_identifier, function, binary_op, nested, placeholder, other_expr, Args,
  no_arg, wildcard_arg, expr_arg, SelectItem, unnamed_expr, expr_with_alias, wildcard,
  qualified_wildcard, GroupBy, all_columns, expressions, Top, Query, query_of, SetExpr, select,
  values, other_body, Select, select_of, Tables, no_table, table, Joins, no_join, join, TableFactor,
  derived, other_factor, Statement, body_of, with_of, distinct_of, top_of, projection_of, from_of,
  group_of, having_of, set_projection, no_distinct, set_body,
}

pub data CountStrategy (X : Type 0) : Type 0 where
  simple_count subquery_count : CountStrategy X
  count_distinct : List (Expr X) → CountStrategy X

module _ {X : Type 0} where
  abbrev with_ties_of : Option (Top X) → Bool
  with_ties_of none = false
  with_ties_of (some top) = top.with_ties

  abbrev pub has_with_ties : Select X → Bool
  has_with_ties s = with_ties_of (top_of s)

  -- (Only the windows that the source looks for.)
  unfoldable pub contains_window : Expr X → Bool
  contains_window (function name distinct args over rest) = is_some over
  contains_window (binary_op left op right) = contains_window left || contains_window right
  contains_window (nested e) = contains_window e
  contains_window _ = false

  abbrev item_has_window : SelectItem X → Bool
  item_has_window (unnamed_expr e) = contains_window e
  item_has_window (expr_with_alias e alias) = contains_window e
  item_has_window _ = false

  abbrev pub any_window : List (SelectItem X) → Bool
  any_window [] = false
  any_window (item ∷ items) = item_has_window item || any_window items

  unfoldable pub has_window_functions : Select X → Bool
  unfolding contains_window
  has_window_functions s = any_window (projection_of s)

  abbrev pub grouped : GroupBy X → Bool
  grouped (all_columns modifiers) = false
  grouped (expressions es modifiers) = not (is_empty es)

  abbrev pub has_group_by : Select X → Bool
  has_group_by s = grouped (group_of s)

  abbrev pub has_having : Select X → Bool
  has_having s = is_some (having_of s)

  abbrev has_joins : Joins X → Bool
  has_joins no_join = false
  has_joins (join factor on rest) = true

  abbrev pub any_join : Tables X → Bool
  any_join no_table = false
  any_join (table factor joins rest) = has_joins joins || any_join rest

  unfoldable pub has_join : Select X → Bool
  has_join s = any_join (from_of s)

  abbrev pub has_cte : Query X → Bool
  has_cte q = is_some (with_of q)

  abbrev is_derived : TableFactor X → Bool
  is_derived (derived q rest) = true
  is_derived (other_factor x) = false

  abbrev derived_in_joins : Joins X → Bool
  derived_in_joins no_join = false
  derived_in_joins (join factor on rest) = is_derived factor || derived_in_joins rest

  abbrev pub derived_in : Tables X → Bool
  derived_in no_table = false
  derived_in (table factor joins rest) =
      is_derived factor || (derived_in_joins joins || derived_in rest)

  unfoldable pub has_subquery_in_from_or_join : Select X → Bool
  has_subquery_in_from_or_join s = derived_in (from_of s)

  abbrev is_complex_body : SetExpr X → Bool
  is_complex_body (select s) =
      has_group_by s
      || has_having s
      || has_window_functions s
      || is_some (distinct_of s)
      || has_join s
  is_complex_body _ = true

  unfoldable pub is_complex_subquery : Query X → Bool
  unfolding has_window_functions has_join
  is_complex_subquery q = is_complex_body (body_of q)

  abbrev is_complex_factor : TableFactor X → Bool
  is_complex_factor (derived q rest) = is_complex_subquery q
  is_complex_factor (other_factor x) = false

  abbrev complex_in_joins : Joins X → Bool
  complex_in_joins no_join = false
  complex_in_joins (join factor on rest) = is_complex_factor factor || complex_in_joins rest

  abbrev complex_in : Tables X → Bool
  complex_in no_table = false
  complex_in (table factor joins rest) =
      is_complex_factor factor || (complex_in_joins joins || complex_in rest)

  unfoldable pub has_complex_subquery_in_from_or_join : Select X → Bool
  unfolding is_complex_subquery
  has_complex_subquery_in_from_or_join s = complex_in (from_of s)

  abbrev pub projected_exprs : List (SelectItem X) → List (Expr X)
  projected_exprs [] = []
  projected_exprs (unnamed_expr e ∷ items) = e ∷ projected_exprs items
  projected_exprs (expr_with_alias e alias ∷ items) = e ∷ projected_exprs items
  projected_exprs (wildcard x ∷ items) = projected_exprs items
  projected_exprs (qualified_wildcard x ∷ items) = projected_exprs items

  abbrev pub distinct_on : List (Expr X) → CountStrategy X
  distinct_on [] = subquery_count
  distinct_on (e ∷ es) = count_distinct (e ∷ es)

  unfoldable pub analyze_distinct : Select X → CountStrategy X
  analyze_distinct s = distinct_on (projected_exprs (projection_of s))

  abbrev with_primary_key : Option Text → CountStrategy X
  with_primary_key none = subquery_count
  with_primary_key (some pk) = count_distinct (identifier pk ∷ [])

  -- Both branches behind `is_projection_safe_for_simple_count` choose the simple count.
  abbrev pub analyze_select : Query X → Select X → Option Text → CountStrategy X
  analyze_select q s primary_key =
      if has_with_ties s
      then subquery_count
      else if has_cte q || has_group_by s || has_having s || has_window_functions s
      then subquery_count
      else if has_subquery_in_from_or_join s
      then subquery_count
      else if is_some (distinct_of s)
      then analyze_distinct s
      else if has_join s
      then with_primary_key primary_key
      else simple_count

  abbrev analyze_body : Query X → SetExpr X → Option Text → CountStrategy X
  analyze_body q (select s) primary_key = analyze_select q s primary_key
  analyze_body q _ primary_key = subquery_count

  unfoldable pub analyze_query_body : Query X → Option Text → CountStrategy X
  unfolding has_window_functions has_join has_subquery_in_from_or_join analyze_distinct
  analyze_query_body q primary_key = analyze_body q (body_of q) primary_key

  abbrev count_args : Option (Expr X) → Args X
  count_args none = wildcard_arg no_arg
  count_args (some e) = expr_arg e no_arg

  -- The flag is the treatment DISTINCT.
  abbrev pub count_expr : Option (Expr X) → Bool → Expr X
  count_expr maybe_expr distinct =
      function (codes "COUNT") distinct (count_args maybe_expr) none none

  -- Without ORDER BY, LIMIT and FETCH, and without its WITH, which is set aside.
  abbrev pub stripped : Query X → Query X
  stripped (query_of cte body order_by limit fetch rest) = query_of none body none none none rest

  abbrev pub can_optimize_to_select_1 : Select X → Bool
  can_optimize_to_select_1 s =
      not (is_some (distinct_of s))
      && not (has_group_by s)
      && not (has_having s)
      && not (has_window_functions s)
      && not (has_complex_subquery_in_from_or_join s)

  abbrev pub count_over : Option (Expr X) → Bool → Select X → Select X
  count_over e distinct s = set_projection (unnamed_expr (count_expr e distinct) ∷ []) s

  abbrev pub optimized : Select X → Select X
  optimized s =
      if can_optimize_to_select_1 s
      then set_projection (unnamed_expr (identifier (codes "1")) ∷ []) s
      else s

-- What is printed: a query as it is, or SELECT COUNT(*) around it, behind its WITH if that is put back.
pub data Emitted (X : Type 0) : Type 0 where
  direct : Query X → Emitted X
  wrapped : Query X → Emitted X
  behind : X → Emitted X → Emitted X

module _ {X : Type 0} where
  abbrev put_back : Option X → Emitted X → Emitted X
  put_back none e = e
  put_back (some cte) e = behind cte e

  -- Of one expression the count is returned at once.
  abbrev pub distinct_query : Option X → Query X → Select X → List (Expr X) → Emitted X
  distinct_query cte q s (e ∷ []) =
      direct (set_body (select (count_over (some e) true (no_distinct s))) q)
  distinct_query cte q s _ = put_back cte (wrapped q)

  abbrev pub emit_select : Option X → Query X → Select X → CountStrategy X → Emitted X
  emit_select cte q s simple_count =
      put_back cte (direct (set_body (select (count_over none false s)) q))
  emit_select cte q s (count_distinct es) = distinct_query cte q s es
  emit_select cte q s subquery_count = put_back cte (wrapped (set_body (select (optimized s)) q))

  abbrev emit_other : Option X → Query X → CountStrategy X → Emitted X
  emit_other cte q subquery_count = put_back cte (wrapped q)
  emit_other cte q _ = direct q

  abbrev pub emit_body : Option X → Query X → SetExpr X → CountStrategy X → Emitted X
  emit_body cte q (select s) strategy = emit_select cte q s strategy
  emit_body cte q _ strategy = emit_other cte q strategy

  unfoldable pub emit_query : Query X → Option Text → Emitted X
  unfolding analyze_query_body has_complex_subquery_in_from_or_join
  emit_query q primary_key =
      emit_body (with_of q) (stripped q) (body_of q) (analyze_query_body q primary_key)

-- `to_string` of the parts of a tree.
pub record Printer (X : Type 0) : Type 0 where
  pub statement_text : Statement X → Text
  pub query_text : Query X → Text
  pub with_text : X → Text

module _ {X : Type 0} (p : Printer X) where
  abbrev pub emitted_text : Emitted X → Text
  emitted_text (direct q) = p.query_text q
  emitted_text (wrapped q) = codes "SELECT COUNT(*) FROM (" ++ (p.query_text q ++ codes ") AS sub")
  emitted_text (behind cte e) = p.with_text cte ++ (b' ' ∷ emitted_text e)

  unfoldable pub generate_count_query : Statement X → Option Text → Text
  unfolding emit_query
  generate_count_query (Statement.query q) primary_key = emitted_text (emit_query q primary_key)
  generate_count_query st primary_key = p.statement_text st
