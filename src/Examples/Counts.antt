-- ===== src/Examples/Counts.antt =====
-- Counting the rows of queries. Foreign parts of trees are numbers, and rows are, too.
use sqlx_data.Prelude.{ℕ, ◌==◌, ◌≡◌, refl, codes, false, [], ◌∷◌, Option, none, some}
use sqlx_data.Core.Tree.{
  identifier, unnamed_expr, OrderBy, order_all, Query, query_of, SetExpr, select, select_of, Tables,
  no_table, table, no_join, other_factor, expressions, with_of,
}
use sqlx_data.Core.Count.{emit_query}
use sqlx_data.Core.Count.Kept.{fronts, listed, inner, IsBare, emit_query-IsBare}
use sqlx_data.Core.Count.Rows.{Database, answer}

abbrev users : Tables ℕ
users = table (other_factor 1) no_join no_table

-- SELECT DISTINCT age FROM users
abbrev ages : SetExpr ℕ
ages = select (
    select_of (some 0) none (unnamed_expr (identifier (codes "age")) ∷ []) users none
      (expressions [] []) none 0)

abbrev sorted : Option (OrderBy ℕ)
sorted = some (record { kind = order_all 0; interpolate = none })

abbrev ages_sorted : Query ℕ
ages_sorted = query_of none ages sorted (some 10) none 0

abbrev ages_with : Query ℕ
ages_with = query_of (some 7) ages sorted (some 10) none 0

-- Three rows, of which two have the same age.
abbrev db : Database ℕ
db = record {
  Row = ℕ;
  Value = ℕ;
  same = λ a b. a == b;
  rows = λ cte from cond rest. 30 ∷ 41 ∷ 30 ∷ [];
  value = λ e row. some row;
  fields = λ x row. some row ∷ [];
  is_aggregate = λ items. false;
  is_on = λ x. x == 1;
  distinct_on_size = λ cte s. 2;
  grouped_size = λ cte s. 0;
  other_size = λ cte body rest. 0;
}

two_ages : answer db none (emit_query ages_sorted none) ≡ 2
unfolding answer emit_query
two_ages = refl

two_ages_with : answer db none (emit_query ages_with none) ≡ 2
unfolding answer emit_query
two_ages_with = refl

emit_query-IsBare_example :
    (fronts (emit_query ages_with none) ≡ listed (with_of ages_with))
    × IsBare (inner (emit_query ages_with none))
emit_query-IsBare_example = emit_query-IsBare ages_with none
