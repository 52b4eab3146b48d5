-- ===== src/Ast.antt =====
-- The syntax trees of the crate sqlparser, as far as sqlx-data-parser/src/dynamic/builder.rs names
-- their constructors and fields. Whatever else a tree may hold is of the type `X`, a parameter: the
-- code never looks into it.
use sqlx_data.Prelude.{Text, Bool, Option, List, [], ◌∷◌}

pub data BinaryOperator (X : Type 0) : Type 0 where
  eq not_eq gt lt gt_eq lt_eq and or : BinaryOperator X
  other : X → BinaryOperator X

pub data Value (X : Type 0) : Type 0 where
  placeholder : Text → Value X
  number : Text → Bool → Value X
  single_quoted_string : Text → Value X
  other : X → Value X

mutual
  pub data Expr (X : Type 0) : Type 0 where
    identifier : Text → Expr X
    binary_op : Expr X → BinaryOperator X → Expr X → Expr X
    like : Bool → Expr X → Expr X → Option (Value X) → Expr X
    ilike : Bool → Expr X → Expr X → Option (Value X) → Expr X
    in_list : Expr X → Exprs X → Bool → Expr X
    between : Expr X → Bool → Expr X → Expr X → Expr X
    is_null is_not_null nested : Expr X → Expr X
    -- a call with unnamed arguments and no other clause
    function : Text → Exprs X → Expr X
    value : Value X → Expr X
    other : X → Expr X

  pub data Exprs (X : Type 0) : Type 0 where
    nil : Exprs X
    cons : Expr X → Exprs X → Exprs X

abbrev pub exprs : {X : Type 0} → List (Expr X) → Exprs X
exprs [] = nil
exprs (e ∷ es) = cons e (exprs es)

pub record OrderByExpr (X : Type 0) : Type 0 where
  pub expr : Expr X
  pub asc : Option Bool
  pub nulls_first : Option Bool

pub data OrderBy (X : Type 0) : Type 0 where
  expressions : List (OrderByExpr X) → OrderBy X
  other : X → OrderBy X

-- `rows` is `none` for `OffsetRows::None`.
pub record Offset (X : Type 0) : Type 0 where
  pub value : Expr X
  pub rows : Option X

pub data LimitClause (X : Type 0) : Type 0 where
  limit_offset : Option (Expr X) → Option (Offset X) → List (Expr X) → LimitClause X
  offset_comma_limit : Expr X → Expr X → LimitClause X

-- `select` has the selection and all other clauses; `query` is a subquery, by its body.
pub data SetExpr (X : Type 0) : Type 0 where
  select : Option (Expr X) → X → SetExpr X
  set_operation : SetExpr X → SetExpr X → X → SetExpr X
  query : SetExpr X → X → SetExpr X
  other : X → SetExpr X

pub record Query (X : Type 0) : Type 0 where
  pub body : SetExpr X
  pub order_by : Option (OrderBy X)
  pub limit_clause : Option (LimitClause X)
  pub rest : X

pub data Statement (X : Type 0) : Type 0 where
  query : Query X → Statement X
  other : X → Statement X
