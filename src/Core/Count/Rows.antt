-- ===== src/Core/Count/Rows.antt =====
-- What a query and its count query answer in a database, up to what the code reads of them.
pub mod Distinct
pub mod Agree
use sqlx_data.Prelude.{
  ℕ, ◌+◌, ◌≡◌, refl, sym, ap, ◌∙◌, Text, Bool, true, false, ◌&&◌, ◌||◌, not, List, [], ◌∷◌, ◌++◌,
  length, is_empty, map, Option, none, some, is_some, All, if◌then◌else◌,
}
use sqlx_data.Core.Tree.{
  Expr, function, no_arg, wildcard_arg, expr_arg, SelectItem, unnamed_expr, expr_with_alias,
  wildcard, qualified_wildcard, Query, query_of, SetExpr, select, Select, select_of, Tables,
  projection_of, distinct_of, body_of, group_of, having_of, GroupBy, all_columns, expressions,
}
use sqlx_data.Core.Count.{Emitted, direct, wrapped, behind}

-- How many different elements a list has.
module _ {ℓ} {A : Type ℓ} (same : A → A → Bool) where
  unfoldable pub occurs : A → List A → Bool
  occurs x [] = false
  occurs x (y ∷ ys) = same x y || occurs x ys

  unfoldable pub distinct_count : List A → ℕ
  unfolding occurs
  distinct_count [] = 0
  distinct_count (x ∷ xs) = if occurs x xs then distinct_count xs else 1 + distinct_count xs

-- NULL, which is `none`, is one value for DISTINCT.
unfoldable pub same_option {ℓ} : {A : Type ℓ} → (A → A → Bool) → Option A → Option A → Bool
same_option same none none = true
same_option same (some a) (some b) = same a b
same_option same _ _ = false

unfoldable pub same_list {ℓ} : {A : Type ℓ} → (A → A → Bool) → List A → List A → Bool
same_list same [] [] = true
same_list same (a ∷ xs) (b ∷ ys) = same a b && same_list same xs ys
same_list same _ _ = false

unfoldable pub non_null {ℓ} : {A : Type ℓ} → List (Option A) → List A
non_null [] = []
non_null (none ∷ vs) = non_null vs
non_null (some v ∷ vs) = v ∷ non_null vs

-- A database: the rows of FROM and WHERE, under a WITH; the value of an expression in a row, which is
-- `none` for NULL; the values of a wildcard; which projections make one row of all, as those with
-- aggregates do; which words DISTINCT are DISTINCT ON; and the sizes of the selects with GROUP BY, HAVING
-- or DISTINCT ON, and of queries of other kinds.
pub record Database (X : Type 0) : Type 1 where
  pub Row : Type 0
  pub Value : Type 0
  pub same : Value → Value → Bool
  pub rows : Option X → Tables X → Option (Expr X) → X → List Row
  pub value : Expr X → Row → Option Value
  pub fields : X → Row → List (Option Value)
  pub is_aggregate : List (SelectItem X) → Bool
  pub is_on : X → Bool
  pub distinct_on_size : Option X → Select X → ℕ
  pub grouped_size : Option X → Select X → ℕ
  pub other_size : Option X → SetExpr X → X → ℕ

module _ {X : Type 0} (db : Database X) where
  abbrev pub rows_of : Option X → Select X → List (db.Row)
  rows_of cte (select_of distinct top items from cond group having rest) =
      db.rows cte from cond rest

  abbrev pub projected : List (SelectItem X) → db.Row → List (Option (db.Value))
  projected [] row = []
  projected (unnamed_expr e ∷ items) row = db.value e row ∷ projected items row
  projected (expr_with_alias e alias ∷ items) row = db.value e row ∷ projected items row
  projected (wildcard x ∷ items) row = db.fields x row ++ projected items row
  projected (qualified_wildcard x ∷ items) row = db.fields x row ++ projected items row

  abbrev pub tuples : List (SelectItem X) → List (db.Row) → List (List (Option (db.Value)))
  tuples items rows = map (projected items) rows

  -- A GROUP BY with expressions, or GROUP BY ALL.
  abbrev pub is_grouped : GroupBy X → Bool
  is_grouped (all_columns modifiers) = true
  is_grouped (expressions es modifiers) = not (is_empty es)

  abbrev pub ungrouped_size : Option X → Select X → Option X → ℕ
  ungrouped_size cte s none = length (rows_of cte s)
  ungrouped_size cte s (some x) =
      if db.is_on x
      then db.distinct_on_size cte s
      else distinct_count (same_list (same_option db.same))
          (tuples (projection_of s) (rows_of cte s))

  -- How many rows SELECT answers, without a TOP.
  abbrev pub select_size : Option X → Select X → ℕ
  select_size cte s =
      if is_grouped (group_of s) || is_some (having_of s)
      then db.grouped_size cte s
      else if db.is_aggregate (projection_of s)
      then 1
      else ungrouped_size cte s (distinct_of s)

  abbrev size_of_body : Option X → SetExpr X → X → ℕ
  size_of_body cte (select s) rest = select_size cte s
  size_of_body cte body rest = db.other_size cte body rest

  -- How many rows a query answers, without its ORDER BY, LIMIT and FETCH.
  abbrev pub size : Option X → Query X → ℕ
  size cte (query_of own body order_by limit fetch rest) = size_of_body cte body rest

  -- What COUNT(*) and COUNT(e) count in rows; COUNT(e) counts no NULL.
  abbrev pub aggregate : Expr X → List (db.Row) → ℕ
  aggregate (function name distinct (wildcard_arg no_arg) none none) rows = length rows
  aggregate (function name true (expr_arg e no_arg) none none) rows =
      distinct_count db.same (non_null (map (db.value e) rows))
  aggregate (function name false (expr_arg e no_arg) none none) rows =
      length (non_null (map (db.value e) rows))
  aggregate _ rows = 0

  abbrev aggregate_item : List (SelectItem X) → List (db.Row) → ℕ
  aggregate_item (unnamed_expr e ∷ []) rows = aggregate e rows
  aggregate_item _ rows = 0

  abbrev aggregate_body : Option X → SetExpr X → ℕ
  aggregate_body cte (select s) = aggregate_item (projection_of s) (rows_of cte s)
  aggregate_body cte _ = 0

  -- The number that a count query answers.
  unfoldable pub answer : Option X → Emitted X → ℕ
  unfolding distinct_count same_list same_option non_null
  answer cte (direct q) = aggregate_body cte (body_of q)
  answer cte (wrapped q) = size cte q
  answer cte (behind w e) = answer (some w) e
