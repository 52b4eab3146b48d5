-- ===== src/Core/Count/Rows/Distinct.antt =====
-- Tuples of one value that is never NULL are as many as their values.
use sqlx_data.Prelude.{
  ◌≡◌, refl, Bool, true, List, [], ◌∷◌, map, Option, none, some, is_some, All, arith,
}
use sqlx_data.Core.Count.Rows.{occurs, distinct_count, same_option, same_list, non_null}

module _ {V : Type 0} where
  abbrev pub single : Option V → List (Option V)
  single o = o ∷ []

  abbrev pub IsValue : Option V → Type 0
  IsValue o = is_some o ≡ true

  map-single :
      {R : Type 0} (value : R → Option V) (rows : List R)
      → map (λ r. value r ∷ []) rows ≡ map single (map value rows)
  map-single value [] = refl
  map-single value (r ∷ rows) = rw (map-single value rows) refl

module _ {V : Type 0} (same : V → V → Bool) where
  abbrev same1_list : List (Option V) → List (Option V) → Bool
  same1_list = same_list (same_option same)

  same1 : (v w : V) → same1_list (some v ∷ []) (some w ∷ []) ≡ same v w
  unfolding same_list same_option
  same1 v w = ground arith

  occurs-single :
      (v : V) (vs : List (Option V))
      → All IsValue vs
      → occurs same1_list (some v ∷ []) (map single vs) ≡ occurs same v (non_null vs)
  unfolding occurs non_null
  occurs-single v [] h = refl
  occurs-single v (none ∷ vs) (h, hs) = ground arith
  occurs-single v (some w ∷ vs) (h, hs) = rw (same1 v w, occurs-single v vs hs) refl

  pub distinct_count-single :
      (vs : List (Option V))
      → All IsValue vs
      → distinct_count same1_list (map single vs) ≡ distinct_count same (non_null vs)
  unfolding distinct_count non_null
  distinct_count-single [] h = refl
  distinct_count-single (none ∷ vs) (h, hs) = ground arith
  distinct_count-single (some v ∷ vs) (h, hs) =
      rw (occurs-single v vs hs, distinct_count-single vs hs) refl

  pub distinct_count-map :
      {R : Type 0} (value : R → Option V) (rows : List R)
      → All IsValue (map value rows)
      → distinct_count same1_list (map (λ r. value r ∷ []) rows)
        ≡ distinct_count same (non_null (map value rows))
  distinct_count-map value rows h =
      rw (map-single value rows) (distinct_count-single (map value rows) h)
