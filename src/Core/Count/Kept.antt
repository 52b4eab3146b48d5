-- ===== src/Core/Count/Kept.antt =====
-- What generate_count_query keeps of a query, and what it removes.
use sqlx_data.Prelude.{◌≡◌, refl, Text, List, [], ◌∷◌, Option, none, some, Bool-cases, inl, inr}
use sqlx_data.Core.Tree.{OrderBy, Query, query_of, SetExpr, select, values, other_body, with_of}
use sqlx_data.Core.Count.{
  CountStrategy, simple_count, subquery_count, count_distinct, Emitted, direct, wrapped, behind,
  analyze_query_body, emit_body, emit_query, stripped, has_with_ties,
  has_complex_subquery_in_from_or_join,
}

module _ {X : Type 0} where
  -- No WITH, ORDER BY, LIMIT or FETCH of its own.
  abbrev pub IsBare : Query X → Type 0
  IsBare (query_of cte body order_by limit fetch rest) =
      (cte ≡ none) × (order_by ≡ none) × (limit ≡ none) × (fetch ≡ none)

  -- What stands inside of the count.
  abbrev pub inner : Emitted X → Query X
  inner (direct q) = q
  inner (wrapped q) = q
  inner (behind cte e) = inner e

  abbrev pub fronts : Emitted X → List X
  fronts (direct q) = []
  fronts (wrapped q) = []
  fronts (behind cte e) = cte ∷ fronts e

  abbrev pub listed : Option X → List X
  listed none = []
  listed (some cte) = cte ∷ []

  abbrev Keeps : Option X → Emitted X → Type 0
  Keeps cte e = (fronts e ≡ listed cte) × IsBare (inner e)

  Keeps-without :
      (q : Query X) (body : SetExpr X) (strategy : CountStrategy X)
      → Keeps none (emit_body none (stripped q) body strategy)
  unfolding has_complex_subquery_in_from_or_join
  Keeps-without (query_of cte b o l f r) (select s) simple_count = (refl, (refl, refl, refl, refl))
  Keeps-without (query_of cte b o l f r) (select s) subquery_count =
      (refl, (refl, refl, refl, refl))
  Keeps-without (query_of cte b o l f r) (select s) (count_distinct []) =
      (refl, (refl, refl, refl, refl))
  Keeps-without (query_of cte b o l f r) (select s) (count_distinct (e ∷ [])) =
      (refl, (refl, refl, refl, refl))
  Keeps-without (query_of cte b o l f r) (select s) (count_distinct (e ∷ d ∷ es)) =
      (refl, (refl, refl, refl, refl))
  Keeps-without (query_of cte b o l f r) (values rows x) simple_count =
      (refl, (refl, refl, refl, refl))
  Keeps-without (query_of cte b o l f r) (values rows x) subquery_count =
      (refl, (refl, refl, refl, refl))
  Keeps-without (query_of cte b o l f r) (values rows x) (count_distinct es) =
      (refl, (refl, refl, refl, refl))
  Keeps-without (query_of cte b o l f r) (other_body x) simple_count =
      (refl, (refl, refl, refl, refl))
  Keeps-without (query_of cte b o l f r) (other_body x) subquery_count =
      (refl, (refl, refl, refl, refl))
  Keeps-without (query_of cte b o l f r) (other_body x) (count_distinct es) =
      (refl, (refl, refl, refl, refl))

  -- A WITH makes it a wrapped count, since it is found before DISTINCT is looked at.
  with_is_wrapped :
      (w : X) (body : SetExpr X) (o : Option (OrderBy X)) (l f : Option X) (r : X)
      (pk : Option Text)
      → analyze_query_body (query_of (some w) body o l f r) pk ≡ subquery_count
  unfolding analyze_query_body
  with_is_wrapped w (select s) o l f r pk = elim (Bool-cases (has_with_ties s)) [
    | inl e ↦ rw e refl
    | inr e ↦ rw e refl
  ]
  with_is_wrapped w (values rows x) o l f r pk = refl
  with_is_wrapped w (other_body x) o l f r pk = refl

  Keeps-with :
      (w : X) (q : Query X) (body : SetExpr X)
      → Keeps (some w) (emit_body (some w) (stripped q) body subquery_count)
  unfolding has_complex_subquery_in_from_or_join
  Keeps-with w (query_of cte b o l f r) (select s) = (refl, (refl, refl, refl, refl))
  Keeps-with w (query_of cte b o l f r) (values rows x) = (refl, (refl, refl, refl, refl))
  Keeps-with w (query_of cte b o l f r) (other_body x) = (refl, (refl, refl, refl, refl))

  -- Whatever the query and the primary key, the count query has the WITH of the query in front, once,
  -- and nothing if there is none. The query that it counts has no WITH, ORDER BY, LIMIT or FETCH.
  pub emit_query-IsBare :
      (q : Query X) (primary_key : Option Text)
      → (fronts (emit_query q primary_key) ≡ listed (with_of q))
        × IsBare (inner (emit_query q primary_key))
  unfolding emit_query
  emit_query-IsBare (query_of none body o l f r) pk =
      let q = query_of none body o l f r in Keeps-without q body (analyze_query_body q pk)
  emit_query-IsBare (query_of (some w) body o l f r) pk =
      rw (with_is_wrapped w body o l f r pk) (Keeps-with w (query_of (some w) body o l f r) body)
