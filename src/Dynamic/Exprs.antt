-- ===== src/Dynamic/Exprs.antt =====
-- sqlx-data-parser/src/dynamic/builder.rs: the small constructors of expressions, and the grouping
-- of disjunctions.
use sqlx_data.Prelude.{Text, codes, Bool, true, false, ◌||◌, Option, none, some, if◌then◌else◌}
use sqlx_data.Prelude.{List, [], ◌∷◌}
use sqlx_data.Ast.{BinaryOperator, Expr, Value, exprs}
use sqlx_data.Dynamic.Binder.{Database}

module _ {X : Type 0} where
  abbrev pub id : Text → Expr X
  id name = Expr.identifier name

  abbrev pub bin : BinaryOperator X → Expr X → Expr X → Expr X
  bin op left right = Expr.binary_op left op right

  abbrev pub eq : Text → Expr X → Expr X
  eq col rhs = bin BinaryOperator.eq (id col) rhs

  abbrev pub ne : Text → Expr X → Expr X
  ne col rhs = bin BinaryOperator.not_eq (id col) rhs

  abbrev pub gt : Text → Expr X → Expr X
  gt col rhs = bin BinaryOperator.gt (id col) rhs

  abbrev pub lt : Text → Expr X → Expr X
  lt col rhs = bin BinaryOperator.lt (id col) rhs

  abbrev pub gte : Text → Expr X → Expr X
  gte col rhs = bin BinaryOperator.gt_eq (id col) rhs

  abbrev pub lte : Text → Expr X → Expr X
  lte col rhs = bin BinaryOperator.lt_eq (id col) rhs

  abbrev pub backslash : Option (Value X)
  backslash = some (Value.single_quoted_string (b'\\' ∷ []))

  -- MySQL gets no ESCAPE clause.
  abbrev pub escape_char : Database → Option (Value X)
  escape_char Database.mysql = none
  escape_char _ = backslash

  abbrev pub like : Database → Text → Expr X → Bool → Expr X
  like db col rhs negated = Expr.like negated (id col) rhs (escape_char db)

  abbrev pub unsafe_like : Text → Expr X → Bool → Expr X
  unsafe_like col rhs negated = Expr.like negated (id col) rhs none

  abbrev pub ilike : Text → Expr X → Bool → Expr X
  ilike col rhs negated = Expr.ilike negated (id col) rhs backslash

  abbrev pub in_list : Text → List (Expr X) → Bool → Expr X
  in_list col values negated = Expr.in_list (id col) (exprs values) negated

  abbrev pub between : Text → Expr X → Expr X → Bool → Expr X
  between col low high negated = Expr.between (id col) negated low high

  abbrev pub is_null : Text → Expr X
  is_null col = Expr.is_null (id col)

  abbrev pub is_not_null : Text → Expr X
  is_not_null col = Expr.is_not_null (id col)

  abbrev pub and : Expr X → Expr X → Expr X
  and left right = bin BinaryOperator.and left right

  abbrev pub or : Expr X → Expr X → Expr X
  or left right = bin BinaryOperator.or left right

  abbrev pub like_expr : Database → Expr X → Expr X → Expr X
  like_expr db col_expr pattern_expr = Expr.like false col_expr pattern_expr (escape_char db)

  abbrev pub lower_expr : Expr X → Expr X
  lower_expr expr = Expr.function (codes "LOWER") (exprs (expr ∷ []))

  abbrev is_or : BinaryOperator X → Bool
  is_or BinaryOperator.or = true
  is_or _ = false

  unfoldable pub contains_or : Expr X → Bool
  contains_or (Expr.binary_op left op right) = is_or op || (contains_or left || contains_or right)
  contains_or _ = false

  unfoldable pub group : Expr X → Expr X
  group e = if contains_or e then Expr.nested e else e

  unfoldable pub grouped_and : Expr X → Expr X → Expr X
  unfolding group
  grouped_and left right = bin BinaryOperator.and (group left) (group right)

module _ {X : Type 0} where
  abbrev pub reduce_from : (Expr X → Expr X → Expr X) → Expr X → List (Expr X) → Expr X
  reduce_from f acc [] = acc
  reduce_from f acc (e ∷ es) = reduce_from f (f acc e) es

  -- `Iterator::reduce`
  abbrev pub reduce : (Expr X → Expr X → Expr X) → List (Expr X) → Option (Expr X)
  reduce f [] = none
  reduce f (e ∷ es) = some (reduce_from f e es)
