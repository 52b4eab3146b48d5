-- ===== src/Core/Count/Rows/Agree.antt =====
-- The count query answers the size of the query.
use sqlx_data.Prelude.{
  ◌≡◌, codes, Bool, true, false, ◌||◌, List, [], ◌∷◌, map, Option, none, some, is_some, All,
}
use sqlx_data.Core.Tree.{
  Expr, identifier, SelectItem, unnamed_expr, expr_with_alias, Query, query_of, SetExpr, select,
  Select, select_of, Tables, expressions, all_columns,
}
use sqlx_data.Core.Count.{CountStrategy, emit_select, grouped, projected_exprs}
use sqlx_data.Core.Count.Rows.{Database, select_size, answer}
use sqlx_data.Core.Count.Rows.Distinct.{IsValue}

abbrev pub one : {X : Type 0} → List (SelectItem X)
one = unnamed_expr (identifier (codes "1")) ∷ []

abbrev pub is_one {ℓ} : {A : Type ℓ} → List A → Bool
is_one (x ∷ []) = true
is_one xs = false

module _ {X : Type 0} (db : Database X) (plain : db.is_aggregate one ≡ false) where
  -- One expression alone, without a NULL and not under DISTINCT ON, or not one expression.
  abbrev pub IsFit : X → List (SelectItem X) → List (db.Row) → Type 0
  IsFit x (unnamed_expr e ∷ []) rows = (db.is_on x ≡ false) × All IsValue (map (db.value e) rows)
  IsFit x (expr_with_alias e alias ∷ []) rows =
      (db.is_on x ≡ false) × All IsValue (map (db.value e) rows)
  IsFit x items rows = is_one (projected_exprs items) ≡ false

  abbrev pub IsFitDistinct : Option X → List (SelectItem X) → List (db.Row) → Type 0
  IsFitDistinct none items rows = Unit
  IsFitDistinct (some x) items rows = IsFit x items rows

  -- Without a TOP and a GROUP BY ALL; a projection that is not grouped has no aggregate; one with
  -- DISTINCT is fit.
  abbrev pub IsCounted : Option X → SetExpr X → Type 0
  IsCounted cte
        (select
          (select_of distinct none items from cond (expressions keys modifiers) having more)) =
      ((grouped (expressions keys modifiers) || is_some having) ≡ false
        → db.is_aggregate items ≡ false)
      × IsFitDistinct distinct items (db.rows cte from cond more)
  IsCounted cte
        (select (select_of distinct none items from cond (all_columns modifiers) having more)) =
      ⊥
  IsCounted cte (select (select_of distinct (some top) items from cond group having more)) = ⊥
  IsCounted cte body = Unit

  module _ (items : List (SelectItem X)) (from : Tables X) (cond : Option (Expr X))
      (keys : List (Expr X)) (modifiers : List X) (having : Option (Expr X)) (more : X)
      (r : X) where
    abbrev select_with : Option X → Select X
    select_with distinct =
        select_of distinct none items from cond (expressions keys modifiers) having more

    abbrev bare : Option X → Query X
    bare distinct = query_of none (select (select_with distinct)) none none none r

    -- What a strategy answers.
    abbrev Right : Option X → CountStrategy X → Type 0
    Right distinct strategy =
        answer db none (emit_select none (bare distinct) (select_with distinct) strategy)
        ≡ select_size db none (select_with distinct)
