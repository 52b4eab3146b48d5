-- ===== src/Examples/Filters.antt =====
-- Filters of a query, and the conditions that they build.
use sqlx_data.Prelude.{◌≡◌, refl, Text, codes, true, false, some, List, [], ◌∷◌, to_string}
use sqlx_data.Error.{ok}
use sqlx_data.Value.{FilterValue, from_value}
use sqlx_data.Filter
use sqlx_data.Filter.{Filter, FilterOperator}
use sqlx_data.Ast.{Expr, Value}
use sqlx_data.Builder.Filters
use sqlx_data.Dynamic.Binder.{Database, Config, Binder}
use sqlx_data.Dynamic.Exprs
use sqlx_data.Dynamic.Filters.{filter_expr, filter_exprs}
use sqlx_data.Dynamic.Filters.Binds.{BuildsAll, filter_exprs-BuildsAll}
use sqlx_data.Dynamic.Filters.Negation.{negated_of, filter_expr-negation, filter_exprs-not_in}

abbrev sqlite : Config
sqlite = record { database = Database.sqlite; to_lowercase = λ t. t; debug = λ v. [] }

abbrev empty : Binder
empty = record { binds = []; next = 1 }

abbrev by_age_and_name : List Filter
by_age_and_name =
    Filter.new (codes "age") FilterOperator.gt (FilterValue.uint 18)
    ∷ Filter.new (codes "name") FilterOperator.contains (FilterValue.string (codes "ann"))
    ∷ []

filter_exprs-BuildsAll_example :
    BuildsAll Database.sqlite empty
      (filter_exprs {X = Text} sqlite by_age_and_name)
      (some (FilterValue.uint 18 ∷ FilterValue.string (codes "%ann%") ∷ []))
filter_exprs-BuildsAll_example = filter_exprs-BuildsAll Text sqlite by_age_and_name empty

-- NOT ILIKE on SQLite.
abbrev not_like_ann : Filter
not_like_ann =
    let f = Filter.new (codes "name") FilterOperator.ilike (FilterValue.string (codes "ann")) in
    record f { negated = true }

abbrev placeholder : Expr Text
placeholder = Expr.value (Value.placeholder (codes "$1"))

abbrev built : Expr Text
built = Exprs.like_expr Database.sqlite (Exprs.lower_expr (Exprs.id (codes "name"))) placeholder

not_like_ann-built :
    filter_expr sqlite FilterOperator.ilike not_like_ann empty
    ≡ ok (built, record { binds = FilterValue.string (codes "ann") ∷ []; next = 2 })
unfolding filter_expr to_string
not_like_ann-built = refl

filter_expr-negation_example : negated_of built ≡ some false
filter_expr-negation_example =
    filter_expr-negation Text sqlite FilterOperator.ilike not_like_ann empty
      (record { binds = FilterValue.string (codes "ann") ∷ []; next = 2 }) built not_like_ann-built

filter_exprs-not_in_example :
    filter_exprs {X = Text} sqlite
      (Filters.not_in (codes "id") (FilterValue.uint 7 ∷ []) Filters.new).filters.filters
      empty
    ≡ filter_exprs sqlite
        (Filters.in_values (codes "id") (FilterValue.uint 7 ∷ []) Filters.new).filters.filters
        empty
filter_exprs-not_in_example =
    filter_exprs-not_in Text sqlite (Unit {0}) Filters.new (codes "id") (FilterValue.uint 7) []
      empty
