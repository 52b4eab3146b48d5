-- ===== src/Core/Tree.antt =====
-- The trees of the crate sqlparser once more, as far as sqlx-data-parser/src/core and sqlx-data-macros/src name
-- their constructors and fields. Whatever else a tree may hold is of the type `X`, a parameter.
use sqlx_data.Prelude.{Text, Bool, List, Option, none}

pub data Operator (X : Type 0) : Type 0 where
  and : Operator X
  other_operator : X → Operator X

mutual
  -- A function has its name, whether its arguments are DISTINCT, the arguments, its window, and what
  -- else it may have.
  pub data Expr (X : Type 0) : Type 0 where
    identifier : Text → Expr X
    compound_identifier : List Text → Expr X
    function : Text → Bool → Args X → Option X → Option X → Expr X
    binary_op : Expr X → Operator X → Expr X → Expr X
    nested : Expr X → Expr X
    placeholder : Text → Expr X
    other_expr : X → Expr X

  pub data Args (X : Type 0) : Type 0 where
    no_arg : Args X
    wildcard_arg : Args X → Args X
    expr_arg : Expr X → Args X → Args X
    other_arg : X → Args X → Args X

pub data SelectItem (X : Type 0) : Type 0 where
  unnamed_expr : Expr X → SelectItem X
  expr_with_alias : Expr X → Text → SelectItem X
  wildcard : X → SelectItem X
  qualified_wildcard : X → SelectItem X

pub data GroupBy (X : Type 0) : Type 0 where
  all_columns : List X → GroupBy X
  expressions : List (Expr X) → List X → GroupBy X

pub record Top (X : Type 0) : Type 0 where
  pub with_ties : Bool
  pub quantity : X

pub data OrderKind (X : Type 0) : Type 0 where
  order_expressions : List X → OrderKind X
  order_all : X → OrderKind X

pub record OrderBy (X : Type 0) : Type 0 where
  pub kind : OrderKind X
  pub interpolate : Option X

mutual
  -- WITH, the body, ORDER BY, LIMIT, FETCH, and the rest.
  pub data Query (X : Type 0) : Type 0 where
    query_of : Option X → SetExpr X → Option (OrderBy X) → Option X → Option X → X → Query X

  pub data SetExpr (X : Type 0) : Type 0 where
    select : Select X → SetExpr X
    values : List (List (Expr X)) → X → SetExpr X
    other_body : X → SetExpr X

  -- DISTINCT, TOP, the projection, FROM, WHERE, GROUP BY, HAVING, and the rest.
  pub data Select (X : Type 0) : Type 0 where
    select_of :
        Option X
        → Option (Top X)
        → List (SelectItem X)
        → Tables X
        → Option (Expr X)
        → GroupBy X
        → Option (Expr X)
        → X
        → Select X

  -- `TableWithJoins`
  pub data Tables (X : Type 0) : Type 0 where
    no_table : Tables X
    table : TableFactor X → Joins X → Tables X → Tables X

  pub data Joins (X : Type 0) : Type 0 where
    no_join : Joins X
    join : TableFactor X → X → Joins X → Joins X

  pub data TableFactor (X : Type 0) : Type 0 where
    derived : Query X → X → TableFactor X
    other_factor : X → TableFactor X

pub record Insert (X : Type 0) : Type 0 where
  pub columns : List Text
  pub source : Option (Query X)
  pub on : Option X
  pub returning : Option (List (SelectItem X))
  pub rest : X

pub data Statement (X : Type 0) : Type 0 where
  query : Query X → Statement X
  insert : Insert X → Statement X
  update delete : Option (List (SelectItem X)) → X → Statement X
  create_table create_index create_view create_virtual_table create_schema : X → Statement X
  create_database drop_object alter_table alter_view alter_index truncate : X → Statement X
  pragma other_statement : X → Statement X

module _ {X : Type 0} where
  abbrev pub body_of : Query X → SetExpr X
  body_of (query_of cte body order_by limit fetch rest) = body

  abbrev pub with_of : Query X → Option X
  with_of (query_of cte body order_by limit fetch rest) = cte

  abbrev pub distinct_of : Select X → Option X
  distinct_of (select_of distinct top items from cond group having rest) = distinct

  abbrev pub top_of : Select X → Option (Top X)
  top_of (select_of distinct top items from cond group having rest) = top

  abbrev pub projection_of : Select X → List (SelectItem X)
  projection_of (select_of distinct top items from cond group having rest) = items

  abbrev pub from_of : Select X → Tables X
  from_of (select_of distinct top items from cond group having rest) = from

  abbrev pub selection_of : Select X → Option (Expr X)
  selection_of (select_of distinct top items from cond group having rest) = cond

  abbrev pub group_of : Select X → GroupBy X
  group_of (select_of distinct top items from cond group having rest) = group

  abbrev pub having_of : Select X → Option (Expr X)
  having_of (select_of distinct top items from cond group having rest) = having

  abbrev pub set_projection : List (SelectItem X) → Select X → Select X
  set_projection items' (select_of distinct top items from cond group having rest) =
      select_of distinct top items' from cond group having rest

  abbrev pub no_distinct : Select X → Select X
  no_distinct (select_of distinct top items from cond group having rest) =
      select_of none top items from cond group having rest

  abbrev pub set_body : SetExpr X → Query X → Query X
  set_body body' (query_of cte body order_by limit fetch rest) =
      query_of cte body' order_by limit fetch rest

  abbrev pub set_from : Tables X → Select X → Select X
  set_from from' (select_of distinct top items from cond group having rest) =
      select_of distinct top items from' cond group having rest

  abbrev pub set_selection : Option (Expr X) → Select X → Select X
  set_selection cond' (select_of distinct top items from cond group having rest) =
      select_of distinct top items from cond' group having rest

  abbrev pub set_group : GroupBy X → Select X → Select X
  set_group group' (select_of distinct top items from cond group having rest) =
      select_of distinct top items from cond group' having rest

  abbrev pub set_having : Option (Expr X) → Select X → Select X
  set_having having' (select_of distinct top items from cond group having rest) =
      select_of distinct top items from cond group having' rest

  abbrev pub order_by_of : Query X → Option (OrderBy X)
  order_by_of (query_of cte body order_by limit fetch rest) = order_by

  abbrev pub set_order_by : Option (OrderBy X) → Query X → Query X
  set_order_by order_by' (query_of cte body order_by limit fetch rest) =
      query_of cte body order_by' limit fetch rest
