-- ===== src/Examples/Queries.antt =====
-- A SELECT with a condition of its own, a filter and a search.
use sqlx_data.Prelude.{
  ◌≡◌, refl, ◌↔◌, ◌++◌, Text, codes, map, Option, none, some, List, [], ◌∷◌, arith, inr, to_string,
}
use sqlx_data.Error.{ok}
use sqlx_data.Value.{FilterValue, from_value}
use sqlx_data.Filter
use sqlx_data.Filter.{FilterOperator}
use sqlx_data.Search
use sqlx_data.Params
use sqlx_data.Params.{Params}
use sqlx_data.Ast.{Expr, Value, SetExpr, Query}
use sqlx_data.Dynamic.Binder.{Database, Config, Binder}
use sqlx_data.Dynamic.Binder.Numbering.{resolve}
use sqlx_data.Dynamic.Exprs
use sqlx_data.Dynamic.Holes.{holes_opt}
use sqlx_data.Dynamic.Exprs.{contains_or}
use sqlx_data.Dynamic.Filters.{filter_expr, filter_exprs}
use sqlx_data.Dynamic.Cursors.{where_cursor}
use sqlx_data.Dynamic.Select.{process_select, add_selection}
use sqlx_data.Dynamic.Select.Binds.{BuildsWhere, process_select-BuildsWhere}
use sqlx_data.Dynamic.Query.Binds.{BuildsQuery, process_query_resolves}
use sqlx_data.Dynamic.Grouping.{NotOr, Reads, ReadsOpt}
use sqlx_data.Dynamic.Grouping.Selection.{add_selection_iff, process_select-Reads}

abbrev postgres : Config
postgres = record { database = Database.postgres; to_lowercase = λ t. t; debug = λ v. [] }

abbrev mysql : Config
mysql = record { database = Database.mysql; to_lowercase = λ t. t; debug = λ v. [] }

abbrev params : Params
params = record Params.default {
  filters =
      some (record {
        filters = Filter.new (codes "age") FilterOperator.gt (FilterValue.uint 18) ∷ [];
      });
  search = some (Search.new (codes "ann") (codes "name" ∷ codes "email" ∷ []));
}

abbrev pattern_value : FilterValue
pattern_value = FilterValue.string (codes "%ann%")

abbrev values : List FilterValue
values = FilterValue.uint 18 ∷ pattern_value ∷ pattern_value ∷ []

-- id = $1
abbrev own : Expr Text
own = Exprs.eq (codes "id") (Expr.value (Value.placeholder (codes "$1")))

abbrev after_one : Binder
after_one = record { binds = FilterValue.uint 7 ∷ []; next = 2 }

process_select-BuildsWhere_example :
    BuildsWhere Database.mysql after_one
      (some own)
      (process_select mysql params (some own))
      (some values)
process_select-BuildsWhere_example =
    process_select-BuildsWhere Text mysql params (some own) after_one tt

abbrev query : Query Text
query = record {
  body = SetExpr.select (some own) (codes "users");
  order_by = none;
  limit_clause = none;
  rest = [];
}

process_query_resolves_example :
    (o : Option (Expr Text)) × (new : List Text) × BuildsQuery postgres params query
      (FilterValue.uint 7 ∷ [])
      1
      o
      (codes "users")
      (FilterValue.uint 7 ∷ values)
    × (holes_opt o ≡ holes_opt (some own) ++ new)
    × (map (resolve 1 1 (FilterValue.uint 7 ∷ values)) new ≡ map some values)
process_query_resolves_example =
    process_query_resolves Text postgres params query (some own) (codes "users") 1 1
      (FilterValue.uint 7 ∷ []) values (λ h. cc) tt refl (inr (omega arith, refl)) (omega arith)
      (omega arith) refl

-- id = $1 OR age = $1
abbrev either : Expr Text
either = Exprs.or own (Exprs.eq (codes "age") (Expr.value (Value.placeholder (codes "$1"))))

add_selection_iff_example : ReadsOpt (add_selection (some either) (some own)) ↔ NotOr either
add_selection_iff_example = add_selection_iff either own (tt, tt) tt

abbrev only_age : Params
only_age = record Params.default {
  filters =
      some (record {
        filters = Filter.new (codes "age") FilterOperator.gt (FilterValue.uint 18) ∷ [];
      });
}

-- id = $1 AND age > $2
abbrev both : Expr Text
both = Exprs.and own (Exprs.gt (codes "age") (Expr.value (Value.placeholder (codes "$2"))))

both-built :
    process_select postgres only_age (some own) after_one
    ≡ ok (some both, record { binds = FilterValue.uint 7 ∷ FilterValue.uint 18 ∷ []; next = 3 })
unfolding process_select filter_exprs filter_expr where_cursor contains_or to_string
both-built = refl

process_select-Reads_example : Reads both
process_select-Reads_example =
    process_select-Reads Text postgres only_age (some own) (some both) after_one
      (record { binds = FilterValue.uint 7 ∷ FilterValue.uint 18 ∷ []; next = 3 }) (tt, tt)
      both-built
