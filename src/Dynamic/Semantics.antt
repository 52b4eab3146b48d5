-- ===== src/Dynamic/Semantics.antt =====
-- The meaning of a condition on one row, for the comparisons and connectives that cursor pagination
-- emits. The values of a column and their comparison are parameters; NULL is not among the values.
use Prim.Native.Nat.{Ordering}
use sqlx_data.Prelude.{Text, Bool, true, false, ◌&&◌, ◌||◌, ◌≡◌, ◌⊎◌, List, ◌∷◌, Option, none, some}
use sqlx_data.Value.{FilterValue}
use sqlx_data.Sort.{Sort}
use sqlx_data.Ast.{BinaryOperator, Expr, Value}
use sqlx_data.Dynamic.Query.{final_direction}

-- A database's view of column values: their order, and the value that a bind stands for.
pub record Values : Type 1 where
  pub V : Type 0
  pub cmp : V → V → Ordering
  pub meaning : FilterValue → V

abbrev is_gt : Ordering → Bool
is_gt Ordering.gt = true
is_gt _ = false

abbrev is_lt : Ordering → Bool
is_lt Ordering.lt = true
is_lt _ = false

abbrev is_eq : Ordering → Bool
is_eq Ordering.eq = true
is_eq _ = false

abbrev operand_of_bind : (w : Values) → Option FilterValue → Option w.V
operand_of_bind w none = none
operand_of_bind w (some v) = some (w.meaning v)

abbrev compare_with : (w : Values) → (Ordering → Bool) → Option w.V → Option w.V → Bool
compare_with w test (some a) (some b) = test (w.cmp a b)
compare_with w test _ _ = false

-- The row lies strictly past the value, for a key that is emitted ascending or descending.
abbrev pub Past : (w : Values) → Bool → w.V → w.V → Type 0
Past w true a b = w.cmp a b ≡ Ordering.gt
Past w false a b = w.cmp a b ≡ Ordering.lt

module _ (w : Values) (row : Text → w.V) where
  module _ {X : Type 0} (look : Text → Option FilterValue) where
    abbrev pub operand : Expr X → Option w.V
    operand (Expr.identifier name) = some (row name)
    operand (Expr.value (Value.placeholder t)) = operand_of_bind w (look t)
    operand _ = none

    abbrev apply_op : BinaryOperator X → Bool → Bool → Option w.V → Option w.V → Bool
    apply_op BinaryOperator.and p q a b = p && q
    apply_op BinaryOperator.or p q a b = p || q
    apply_op BinaryOperator.gt p q a b = compare_with w is_gt a b
    apply_op BinaryOperator.lt p q a b = compare_with w is_lt a b
    apply_op BinaryOperator.eq p q a b = compare_with w is_eq a b
    apply_op _ p q a b = false

    abbrev pub eval : Expr X → Bool
    eval (Expr.binary_op l op r) = apply_op op (eval l) (eval r) (operand l) (operand r)
    eval (Expr.nested e) = eval e
    eval _ = false

  -- The row comes strictly after the position of the cursor, in the lexicographic order of the
  -- keys with their emitted directions.
  abbrev pub Follows : Bool → List Sort → List FilterValue → Type 0
  Follows invert (s ∷ sorts) (v ∷ values) =
      Past w (final_direction invert s) (row s.field) (w.meaning v)
      ⊎ ((w.cmp (row s.field) (w.meaning v) ≡ Ordering.eq) × Follows invert sorts values)
  Follows invert _ _ = ⊥
