-- ===== src/Dynamic/Trim.antt =====
-- sqlx-data-parser/src/dynamic/builder.rs: `trim_limit_offset_placeholder_binds`, which drops the values
-- of the placeholders in a LIMIT and OFFSET that are about to be replaced.
pub mod Kept
use sqlx_data.Prelude.{
  ℕ, zero, suc, ◌-◌, ◌==◌, ltb, leb, Text, codes, text_eq, parse_usize, List, [], ◌∷◌, length,
  is_empty, Option, none, some, ◌>>=?◌, if◌then◌else◌,
}
use sqlx_data.Value.{FilterValue}
use sqlx_data.Ast.{Expr, Value, LimitClause, Query}

-- `none` if it is no placeholder or its number does not fit, `some none` if it has no number.
abbrev pub index_of_text : Text → Option (Option ℕ)
index_of_text [] = some none
index_of_text (c ∷ s) =
    if text_eq (c ∷ s) (codes "?")
    then some none
    else if c == b'$'
    then (parse_usize s >>=? λ n. some (some n))
    else some none

-- `Vec::remove` at an index in range.
abbrev pub remove_at : {A : Type 0} → ℕ → List A → List A
remove_at n [] = []
remove_at zero (x ∷ xs) = xs
remove_at (suc n) (x ∷ xs) = x ∷ remove_at n xs

-- `Vec::pop`, as often as asked.
abbrev pub pop : {A : Type 0} → List A → List A
pop [] = []
pop (x ∷ []) = []
pop (x ∷ y ∷ xs) = x ∷ pop (y ∷ xs)

abbrev pub pop_times : {A : Type 0} → ℕ → List A → List A
pop_times zero xs = xs
pop_times (suc n) xs = pop_times n (pop xs)

-- `sort_unstable_by` with the largest first: equal numbers cannot be told apart.
abbrev pub insert_descending : ℕ → List ℕ → List ℕ
insert_descending n [] = n ∷ []
insert_descending n (m ∷ ms) =
    let rest = insert_descending n ms in if leb m n then n ∷ (m ∷ ms) else m ∷ rest

abbrev pub sort_descending : List ℕ → List ℕ
sort_descending [] = []
sort_descending (n ∷ ns) = insert_descending n (sort_descending ns)

abbrev pub remove_each : List ℕ → List FilterValue → List FilterValue
remove_each [] binds = binds
remove_each (index ∷ indices) binds =
    remove_each indices
      (if ltb (index - 1) (length binds) then remove_at (index - 1) binds else binds)

-- How many placeholders there are, and the numbers of those that have one.
abbrev pub counted : List (Option (Option ℕ)) → ℕ × List ℕ
counted [] = (0, [])
counted (none ∷ os) = counted os
counted (some none ∷ os) = let r = counted os in (suc (r.0), r.1)
counted (some (some n) ∷ os) = let r = counted os in (suc (r.0), n ∷ (r.1))

abbrev drop_values : ℕ × List ℕ → List FilterValue → List FilterValue × List ℕ
drop_values found binds =
    if is_empty (found.1)
    then (pop_times (found.0) binds, [])
    else (remove_each (sort_descending (found.1)) binds, sort_descending (found.1))

module _ {X : Type 0} where
  abbrev pub placeholder_index : Expr X → Option (Option ℕ)
  placeholder_index (Expr.value (Value.placeholder ph)) = index_of_text ph
  placeholder_index _ = none

  abbrev pub clause_placeholders : LimitClause X → List (Option (Option ℕ))
  clause_placeholders (LimitClause.limit_offset limit offset by) =
      (limit >>=? placeholder_index) ∷ (offset >>=? λ o. placeholder_index o.value) ∷ []
  clause_placeholders (LimitClause.offset_comma_limit offset limit) =
      placeholder_index offset ∷ placeholder_index limit ∷ []

  -- The values that stay, and the numbers that are gone, the largest first.
  unfoldable pub trim_limit_offset_placeholder_binds :
      Query X → List FilterValue → List FilterValue × List ℕ
  trim_limit_offset_placeholder_binds q binds = elim q.limit_clause [
    | none ↦ (binds, [])
    | some clause ↦ drop_values (counted (clause_placeholders clause)) binds
  ]
