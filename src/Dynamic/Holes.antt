-- ===== src/Dynamic/Holes.antt =====
-- The placeholders of a condition in the order in which its text shows them. MySQL gives its values
-- to the placeholders in this order.
use sqlx_data.Prelude.{
  Text, List, [], ◌∷◌, ◌++◌, ◌≡◌, refl, ap, ◌∙◌, append_assoc, append-nil, arith, Option, none,
  some,
}
use sqlx_data.Ast.{Expr, Exprs, Value, exprs}
use sqlx_data.Dynamic.Exprs.{group, grouped_and, reduce_from, reduce}

abbrev mutual
  pub holes : {X : Type 0} → Expr X → List Text
  holes (Expr.identifier name) = []
  holes (Expr.binary_op l op r) = holes l ++ holes r
  holes (Expr.like negated e p escape) = holes e ++ holes p
  holes (Expr.ilike negated e p escape) = holes e ++ holes p
  holes (Expr.in_list e es negated) = holes e ++ holes_all es
  holes (Expr.between e negated low high) = holes e ++ (holes low ++ holes high)
  holes (Expr.is_null e) = holes e
  holes (Expr.is_not_null e) = holes e
  holes (Expr.nested e) = holes e
  holes (Expr.function name es) = holes_all es
  holes (Expr.value (Value.placeholder t)) = t ∷ []
  holes (Expr.value _) = []
  holes (Expr.other x) = []

  pub holes_all : {X : Type 0} → Exprs X → List Text
  holes_all Exprs.nil = []
  holes_all (Exprs.cons e es) = holes e ++ holes_all es

-- An expression for each placeholder.
abbrev pub marks : {X : Type 0} → List Text → List (Expr X)
marks [] = []
marks (t ∷ ts) = Expr.value (Value.placeholder t) ∷ marks ts

pub holes_all-marks : (X : Type 0) (ts : List Text) → holes_all {X = X} (exprs (marks ts)) ≡ ts
holes_all-marks X [] = refl
holes_all-marks X (t ∷ ts) = ap (λ l. t ∷ l) (holes_all-marks X ts)

-- The placeholders of a list of conditions, in order.
abbrev pub holes_of : {X : Type 0} → List (Expr X) → List Text
holes_of [] = []
holes_of (e ∷ es) = holes e ++ holes_of es

-- The placeholders of an optional condition.
abbrev pub holes_opt : {X : Type 0} → Option (Expr X) → List Text
holes_opt none = []
holes_opt (some e) = holes e

module _ {X : Type 0} where
  pub holes-group : (e : Expr X) → holes (group e) ≡ holes e
  unfolding group
  holes-group e = ground arith

  pub holes-grouped_and : (l r : Expr X) → holes (grouped_and l r) ≡ holes l ++ holes r
  unfolding grouped_and
  holes-grouped_and l r = rw (holes-group l, holes-group r)

  -- Folding by a connective that keeps the order of its parts keeps the placeholders.
  pub holes-reduce_from :
      (f : Expr X → Expr X → Expr X)
      → ((l r : Expr X) → holes (f l r) ≡ holes l ++ holes r)
      → (acc : Expr X) (es : List (Expr X))
      → holes (reduce_from f acc es) ≡ holes acc ++ holes_of es
  holes-reduce_from f keeps acc [] = rw append-nil
  holes-reduce_from f keeps acc (e ∷ es) =
      holes-reduce_from f keeps (f acc e) es ∙ rw (keeps acc e) (append_assoc (holes acc) _ _)

  pub holes-reduce :
      (f : Expr X → Expr X → Expr X)
      → ((l r : Expr X) → holes (f l r) ≡ holes l ++ holes r)
      → (es : List (Expr X)) → holes_opt (reduce f es) ≡ holes_of es
  holes-reduce f keeps [] = refl
  holes-reduce f keeps (e ∷ es) = holes-reduce_from f keeps e es
