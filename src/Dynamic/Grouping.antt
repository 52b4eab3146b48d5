-- ===== src/Dynamic/Grouping.antt =====
-- How a condition reads once it is printed: AND binds more tightly than OR, and the printer puts no
-- parentheses of its own.
pub mod Parts
pub mod Selection
use sqlx_data.Prelude.{
  ◌≡◌, refl, inl, inr, ◌||◌, false, if◌then◌else◌, List, [], ◌∷◌, Option, none, some, Bool-cases,
  All, arith,
}
use sqlx_data.Error.{SqlxError, Result, ok, err}
use sqlx_data.Ast.{BinaryOperator, Expr}
use sqlx_data.Dynamic.Binder.{Binder, M, ◌>>=◌}
use sqlx_data.Dynamic.Exprs
use sqlx_data.Dynamic.Exprs.{contains_or, group, grouped_and, reduce_from, reduce}

-- A condition without a connective of its own at the top.
abbrev pub Atom : {X : Type 0} → Expr X → Type 0
Atom (Expr.binary_op l BinaryOperator.and r) = ⊥
Atom (Expr.binary_op l BinaryOperator.or r) = ⊥
Atom (Expr.nested e) = ⊥
Atom _ = Unit

-- The top is no bare OR.
abbrev pub NotOr : {X : Type 0} → Expr X → Type 0
NotOr (Expr.binary_op l BinaryOperator.or r) = ⊥
NotOr _ = Unit

-- The text of the condition is read back as this tree: no part of an AND is a bare OR.
abbrev pub Reads : {X : Type 0} → Expr X → Type 0
Reads (Expr.binary_op l BinaryOperator.and r) = (NotOr l × NotOr r) × (Reads l × Reads r)
Reads (Expr.binary_op l BinaryOperator.or r) = Reads l × Reads r
Reads (Expr.nested e) = Reads e
Reads _ = Unit

abbrev pub ReadsOpt : {X : Type 0} → Option (Expr X) → Type 0
ReadsOpt none = Unit
ReadsOpt (some e) = Reads e

-- Every condition that an action may give has the property.
abbrev pub Holds : {A : Type 0} → (A → Type 0) → Result SqlxError (A × Binder) → Type 0
Holds P (ok r) = P (r.0)
Holds P (err e) = Unit

abbrev pub Always : {A : Type 0} → (A → Type 0) → M A → Type 0
Always P m = (b : Binder) → Holds P (m b)

pub Always->>= :
    {A B : Type 0} (P : A → Type 0) (Q : B → Type 0) (m : M A) (f : A → M B)
    → Always P m
    → ((a : A) → P a → Always Q (f a))
    → Always Q (m >>= f)
Always->>= {A} {B} P Q m f h k b = split (m b) (h b)
  where
    split :
        (r : Result SqlxError (A × Binder))
        → Holds P r
        → Holds Q (elim r [ ok r ↦ f (r.0) (r.1) | err e ↦ err e ])
    split (ok (a, b')) p = k a p b'
    split (err e) p = tt

pub Always-weaken :
    {A : Type 0} (P Q : A → Type 0) (m : M A) → ((a : A) → P a → Q a) → Always P m → Always Q m
Always-weaken {A} P Q m k h b = split (m b) (h b)
  where
    split : (r : Result SqlxError (A × Binder)) → Holds P r → Holds Q r
    split (ok r) p = k (r.0) p
    split (err e) p = tt

pub Always-any : {A : Type 0} (m : M A) → Always (λ a. Unit) m
Always-any {A} m b = split (m b)
  where
    split : (r : Result SqlxError (A × Binder)) → Holds (λ a. Unit) r
    split (ok r) = tt
    split (err e) = tt

module _ {X : Type 0} where
  pub Reads-of_Atom : (e : Expr X) → Atom e → Reads e
  Reads-of_Atom (Expr.binary_op l BinaryOperator.and r) h = absurd h
  Reads-of_Atom (Expr.binary_op l BinaryOperator.or r) h = absurd h
  Reads-of_Atom (Expr.nested e) h = absurd h
  Reads-of_Atom _ h = tt

  pub NotOr-of_Atom : (e : Expr X) → Atom e → NotOr e
  NotOr-of_Atom (Expr.binary_op l BinaryOperator.or r) h = absurd h
  NotOr-of_Atom _ h = tt

  pub NotOr-of_contains_or : (e : Expr X) → contains_or e ≡ false → NotOr e
  unfolding contains_or
  NotOr-of_contains_or (Expr.binary_op l BinaryOperator.or r) h = cc
  NotOr-of_contains_or _ h = tt

  pub NotOr-group : (e : Expr X) → NotOr (group e)
  unfolding group
  NotOr-group e = elim (Bool-cases (contains_or e)) [
    | inl h ↦ rw h tt
    | inr h ↦ rw h (NotOr-of_contains_or e h)
  ]

  pub Reads-group : (e : Expr X) → Reads e → Reads (group e)
  unfolding group
  Reads-group e r = elim (Bool-cases (contains_or e)) [ inl h ↦ rw h r | inr h ↦ rw h r ]

  pub Reads-grouped_and : (l r : Expr X) → Reads l → Reads r → Reads (grouped_and l r)
  unfolding grouped_and
  Reads-grouped_and l r hl hr =
      ((NotOr-group l, NotOr-group r), (Reads-group l hl, Reads-group r hr))

  -- A fold keeps a property that each of its steps keeps.
  reduce_from-keeps :
      (P Q : Expr X → Type 0) (f : Expr X → Expr X → Expr X)
      → ((acc e : Expr X) → P acc → Q e → P (f acc e))
      → (es : List (Expr X)) (acc : Expr X) → P acc
      → All Q es
      → P (reduce_from f acc es)
  reduce_from-keeps P Q f k [] acc p qs = p
  reduce_from-keeps P Q f k (e ∷ es) acc p (q, qs) =
      reduce_from-keeps P Q f k es (f acc e) (k acc e p q) qs

  pub reduce_or-Reads : (es : List (Expr X)) → All Atom es → ReadsOpt (reduce Exprs.or es)
  reduce_or-Reads [] h = tt
  reduce_or-Reads (e ∷ es) (h, hs) =
      reduce_from-keeps Reads Atom Exprs.or (λ acc e p q. (p, Reads-of_Atom e q)) es e
        (Reads-of_Atom e h) hs

  pub reduce_and-Reads : (es : List (Expr X)) → All Atom es → ReadsOpt (reduce Exprs.and es)
  reduce_and-Reads [] h = tt
  reduce_and-Reads (e ∷ es) (h, hs) =
      let kept =
        reduce_from-keeps (λ e. NotOr e × Reads e) Atom Exprs.and
          (λ acc e p q. (tt, ((p.0, NotOr-of_Atom e q), (p.1, Reads-of_Atom e q)))) es e
          (NotOr-of_Atom e h, Reads-of_Atom e h) hs in
      kept.1

  pub reduce_grouped-Reads : (es : List (Expr X)) → All Reads es → ReadsOpt (reduce grouped_and es)
  reduce_grouped-Reads [] h = tt
  reduce_grouped-Reads (e ∷ es) (h, hs) =
      reduce_from-keeps Reads Reads grouped_and (λ acc e p q. Reads-grouped_and acc e p q) es e h hs
