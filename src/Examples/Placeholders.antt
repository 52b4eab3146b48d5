-- ===== src/Examples/Placeholders.antt =====
-- Texts with numbered placeholders.
use sqlx_data.Prelude.{
  ℕ, zero, suc, ◌+◌, ◌≡◌, refl, inl, inr, true, Option, get_elem?, Text, codes, List, [], ◌∷◌, map,
  some, none, arith, parse_usize, text_eq,
}
use sqlx_data.Error.{ok}
use sqlx_data.Value.{FilterValue}
use sqlx_data.Params
use sqlx_data.Params.{Params}
use sqlx_data.Ast.{Expr, Value, LimitClause, SetExpr, Query, Statement}
use sqlx_data.Dynamic.Trim.{trim_limit_offset_placeholder_binds}
use sqlx_data.Dynamic.Trim.Kept.{
  trim_limit_offset_placeholder_binds-take, trim_limit_offset_placeholder_binds-kept,
}
use sqlx_data.Dynamic.Binder.{Database, Config}
use sqlx_data.Dynamic.Placeholders.{collect_numbered_placeholders, renumber}
use sqlx_data.Dynamic.Placeholders.Scan.{add_new, numbers_in, collect_numbered_placeholders-add_new}
use sqlx_data.Dynamic.Placeholders.Assigning.{at_number}
use sqlx_data.Dynamic.Placeholders.Layout.{IsLaidOut, renumber-laid_out}
use sqlx_data.Dynamic.Build.{BuiltSql, build_dynamic_sql}
use sqlx_data.Dynamic.Build.Unchanged.{build_dynamic_sql_unchanged}

abbrev text : Text
text = codes "a = $1 AND b = $2 OR c = $1"

abbrev two_values : List FilterValue
two_values = FilterValue.uint 7 ∷ FilterValue.uint 9 ∷ []

collect_numbered_placeholders-add_new_example :
    collect_numbered_placeholders text ≡ add_new [] (numbers_in text)
collect_numbered_placeholders-add_new_example = collect_numbered_placeholders-add_new text

-- The first placeholder was trimmed, so the values are those of $2, and of $3, which is new.
abbrev value : ℕ → Option FilterValue
value zero = none
value (suc zero) = none
value (suc (suc n)) = get_elem? two_values n

old_value : (i n : ℕ) → get_elem? (2 ∷ []) i ≡ some n → get_elem? two_values i ≡ value n
old_value zero n h = let same : 2 ≡ n = cc h in rw (← same) refl
old_value (suc i) n h = cc

added_value : (j : ℕ) → get_elem? two_values (1 + j) ≡ value (3 + j)
added_value j =
    let one : 1 + j ≡ suc j = omega arith in
    let three : 3 + j ≡ suc (suc (suc j)) = omega arith in rw (one, three) refl

laid_out : IsLaidOut value two_values (2 ∷ []) 2
laid_out = record { old = old_value; added = added_value }

renumber-laid_out_example :
    (let r = renumber (codes "c = $3 OR b = $2") two_values (2 ∷ []) 2 in
      map (at_number (r.1)) (numbers_in (r.0)) ≡ map value (numbers_in (codes "c = $3 OR b = $2")))
unfolding parse_usize
renumber-laid_out_example =
    renumber-laid_out value two_values (2 ∷ []) 2 laid_out (codes "c = $3 OR b = $2")
      (
        (inr (omega arith), (FilterValue.uint 9, refl)),
        ((inl (0, refl), (FilterValue.uint 7, refl)), tt),
      )
      (omega arith)

abbrev sqlite : Config
sqlite = record { database = Database.sqlite; to_lowercase = λ t. t; debug = λ v. [] }

abbrev query : Query Text
query = record { body = SetExpr.other text; order_by = none; limit_clause = none; rest = [] }

-- A statement is kept as its text.
abbrev print : Statement Text → Text
print (Statement.query q) = text
print (Statement.other t) = t

text-collected : collect_numbered_placeholders text ≡ 1 ∷ 2 ∷ []
unfolding collect_numbered_placeholders parse_usize
text-collected = refl

no_params : Params.is_empty Params.default ≡ true
unfolding Params.is_empty
no_params = refl

build_dynamic_sql_unchanged_example :
    (r : BuiltSql) × (build_dynamic_sql sqlite print
        (λ t. ok (some (Statement.query query)))
        text
        Params.default
        two_values
      ≡ ok r)
    × (map (at_number r.bind_values) (numbers_in r.sql)
        ≡ map (at_number two_values) (numbers_in text))
unfolding parse_usize
build_dynamic_sql_unchanged_example =
    build_dynamic_sql_unchanged Text sqlite print (λ t. ok (some (Statement.query query))) text
      Params.default two_values query refl no_params text-collected
      ((omega arith, omega arith), ((omega arith, omega arith), ((omega arith, omega arith), tt)))
      (omega arith)

-- LIMIT $3 OFFSET $1
abbrev limited : LimitClause Text
limited =
    LimitClause.limit_offset (some (Expr.value (Value.placeholder (codes "$3"))))
      (some (record { value = Expr.value (Value.placeholder (codes "$1")); rows = none })) []

abbrev limited_query : Query Text
limited_query = record query { limit_clause = some limited }

abbrev three_values : List FilterValue
three_values = FilterValue.uint 7 ∷ FilterValue.uint 8 ∷ FilterValue.uint 9 ∷ []

trim_limit_offset_placeholder_binds-kept_example :
    (trim_limit_offset_placeholder_binds limited_query three_values).0 ≡ FilterValue.uint 8 ∷ []
unfolding parse_usize text_eq
trim_limit_offset_placeholder_binds-kept_example =
    trim_limit_offset_placeholder_binds-kept limited_query limited three_values (3 ∷ 1 ∷ []) refl
      refl (omega arith, omega arith, omega arith)

-- LIMIT ?
abbrev unnumbered : LimitClause Text
unnumbered = LimitClause.limit_offset (some (Expr.value (Value.placeholder (codes "?")))) none []

abbrev unnumbered_query : Query Text
unnumbered_query = record query { limit_clause = some unnumbered }

last_trimmed :
    trim_limit_offset_placeholder_binds unnumbered_query three_values
    ≡ (FilterValue.uint 7 ∷ FilterValue.uint 8 ∷ [], [])
unfolding text_eq
last_trimmed =
    trim_limit_offset_placeholder_binds-take unnumbered_query unnumbered three_values refl refl
