-- ===== src/Examples/Builds.antt =====
-- A query with a value of its own, built with a filter and a sort key.
use sqlx_data.Prelude.{
  ◌≡◌, refl, false, Text, codes, List, [], ◌∷◌, ◌++◌, map, some, none, arith, parse_usize,
  to_string,
}
use sqlx_data.Error.{ok}
use sqlx_data.Value.{FilterValue, from_value}
use sqlx_data.Filter
use sqlx_data.Filter.{FilterOperator}
use sqlx_data.Params
use sqlx_data.Params.{Params}
use sqlx_data.Ast.{Expr, Value, SetExpr, Query, Statement}
use sqlx_data.Dynamic.Binder.{Database, Config}
use sqlx_data.Dynamic.Exprs
use sqlx_data.Dynamic.Exprs.{contains_or}
use sqlx_data.Dynamic.Holes.{holes_opt}
use sqlx_data.Dynamic.Filters.{filter_expr, filter_exprs}
use sqlx_data.Dynamic.Cursors.{where_cursor}
use sqlx_data.Dynamic.Select.{process_select}
use sqlx_data.Dynamic.Query.{process_query}
use sqlx_data.Dynamic.Placeholders.{collect_numbered_placeholders}
use sqlx_data.Dynamic.Placeholders.Scan.{numbers_in}
use sqlx_data.Dynamic.Placeholders.Assigning.{at_number}
use sqlx_data.Dynamic.Build.{BuiltSql, build_dynamic_sql}
use sqlx_data.Dynamic.Build.Extended.{build_dynamic_sql_extended}

abbrev sqlite : Config
sqlite = record { database = Database.sqlite; to_lowercase = λ t. t; debug = λ v. [] }

abbrev params : Params
params = record Params.default {
  filters =
      some (record {
        filters = Filter.new (codes "age") FilterOperator.gt (FilterValue.uint 18) ∷ [];
      });
}

abbrev equal_to : Text → Text → Expr Text
equal_to field hole = Exprs.eq field (Expr.value (Value.placeholder hole))

abbrev own : Expr Text
own = equal_to (codes "id") (codes "$1")

-- id = $1 AND age > $2
abbrev both : Expr Text
both = Exprs.and own (Exprs.gt (codes "age") (Expr.value (Value.placeholder (codes "$2"))))

abbrev query : Expr Text → Query Text
query e = record {
  body = SetExpr.select (some e) (codes "users");
  order_by = none;
  limit_clause = none;
  rest = [];
}

abbrev joined : List Text → Text
joined [] = []
joined (t ∷ ts) = t ++ codes " " ++ joined ts

-- Prints the placeholders of the condition and nothing else of it.
abbrev print_body : SetExpr Text → Text
print_body (SetExpr.select e rest) = rest ++ codes " " ++ joined (holes_opt e)
print_body (SetExpr.set_operation left right rest) = print_body left ++ rest ++ print_body right
print_body (SetExpr.query inner rest) = print_body inner ++ rest
print_body (SetExpr.other t) = t

abbrev print : Statement Text → Text
print (Statement.query q) = print_body q.body
print (Statement.other t) = t

abbrev one_value : List FilterValue
one_value = FilterValue.uint 7 ∷ []

abbrev text : Text
text = codes "SELECT * FROM users WHERE id = $1"

text-collected : collect_numbered_placeholders text ≡ 1 ∷ []
unfolding collect_numbered_placeholders parse_usize
text-collected = refl

some_params : Params.is_empty params ≡ false
unfolding Params.is_empty
some_params = refl

processed :
    process_query sqlite params (query own) one_value 1
    ≡ ok (query both, FilterValue.uint 7 ∷ FilterValue.uint 18 ∷ [])
unfolding process_query process_select filter_exprs filter_expr where_cursor contains_or to_string
processed = refl

build_dynamic_sql_extended_example :
    (r : BuiltSql) × (build_dynamic_sql sqlite print
        (λ t. ok (some (Statement.query (query own))))
        text
        params
        one_value
      ≡ ok r)
    × (map (at_number r.bind_values) (numbers_in r.sql)
        ≡ some (FilterValue.uint 7) ∷ some (FilterValue.uint 18) ∷ [])
unfolding parse_usize
build_dynamic_sql_extended_example =
    build_dynamic_sql_extended Text sqlite print (λ t. ok (some (Statement.query (query own)))) text
      params one_value (FilterValue.uint 7 ∷ FilterValue.uint 18 ∷ []) (query own) (query both) refl
      some_params refl text-collected processed
      ((omega arith, omega arith), ((omega arith, omega arith), tt)) (omega arith)
