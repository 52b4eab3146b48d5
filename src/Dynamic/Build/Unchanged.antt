-- ===== src/Dynamic/Build/Unchanged.antt =====
-- `build_dynamic_sql` without parameters.
use sqlx_data.Prelude.{
  ℕ, ◌<◌, ◌≡◌, ◌∙◌, ap, Text, List, length, map, Option, some, is_some, ◌||◌, true, false, All,
  arith, max_u64,
}
use sqlx_data.Error.{SqlxError, Result, ok}
use sqlx_data.Value.{FilterValue}
use sqlx_data.Params
use sqlx_data.Params.{Params}
use sqlx_data.Ast.{Statement, Query}
use sqlx_data.Dynamic.Binder.{Config}
use sqlx_data.Dynamic.Placeholders.{collect_numbered_placeholders, renumber}
use sqlx_data.Dynamic.Placeholders.Scan.{numbers_in}
use sqlx_data.Dynamic.Placeholders.Assigning.{at_number}
use sqlx_data.Dynamic.Placeholders.Renumbering.{renumber-values}
use sqlx_data.Dynamic.Build.Numbers.{
  numbers_from, InRange, retain_all, All-Valued, same_values, largest_of,
}
use sqlx_data.Dynamic.Build.{
  BuiltSql, largest, prepare, renumbered, build_statement, build_dynamic_sql,
}

no_limit :
    (params : Params)
    → Params.is_empty params ≡ true
    → (is_some params.limit || is_some params.offset) ≡ false
unfolding Params.is_empty
no_limit params h = ground arith

prepare_unchanged :
    (X : Type 0) (sql : Text) (params : Params) (q : Query X) (binds : List FilterValue)
    → Params.is_empty params ≡ true
    → prepare sql params (Statement.query q) binds ≡ record {
      binds = binds;
      placeholder_numbers = collect_numbered_placeholders sql;
      max_placeholder = largest (collect_numbered_placeholders sql);
    }
unfolding prepare
prepare_unchanged X sql params q binds h =
    rw (no_limit params h, retain_all (collect_numbered_placeholders sql))

module _ (X : Type 0) (cfg : Config) (print : Statement X → Text) where
  pub build_parsed :
      (parse_sql : Text → Result SqlxError (Option (Statement X))) (sql : Text) (params : Params)
      (binds : List FilterValue) (st : Statement X)
      → parse_sql sql ≡ ok (some st)
      → build_dynamic_sql cfg print parse_sql sql params binds
        ≡ build_statement cfg print sql params binds st
  unfolding build_dynamic_sql
  build_parsed parse_sql sql params binds st e = rw (e, build_dynamic_sql)

  build_unchanged :
      (sql : Text) (params : Params) (binds : List FilterValue) (q : Query X)
      → Params.is_empty params ≡ true
      → build_statement cfg print sql params binds (Statement.query q) ≡ (
          let p = prepare sql params (Statement.query q) binds in
          ok (renumbered cfg print p p.binds (Statement.query q)))
  build_unchanged sql params binds q h = rw h

-- Without parameters, for a query that the parser takes: if the placeholders of the text first appear
-- as $1, $2, and so on up to the number of values, and the printed query has no others, then building
-- succeeds, and the placeholders of the SQL that results stand for the same values, in order, as
-- those of the printed query do.
pub build_dynamic_sql_unchanged :
    (X : Type 0) (cfg : Config) (print : Statement X → Text)
    (parse_sql : Text → Result SqlxError (Option (Statement X))) (sql : Text) (params : Params)
    (binds : List FilterValue) (q : Query X)
    → parse_sql sql ≡ ok (some (Statement.query q))
    → Params.is_empty params ≡ true
    → collect_numbered_placeholders sql ≡ numbers_from 1 (length binds)
    → All (InRange (length binds)) (numbers_in (print (Statement.query q)))
    → length (print (Statement.query q)) < max_u64
    → (r : BuiltSql) × (build_dynamic_sql cfg print parse_sql sql params binds ≡ ok r)
      × (map (at_number r.bind_values) (numbers_in r.sql)
          ≡ map (at_number binds) (numbers_in (print (Statement.query q))))
unfolding build_dynamic_sql
build_dynamic_sql_unchanged X cfg print parse_sql sql params binds q parsed h first_seen range
      small =
    let n = length binds in
    let text = print (Statement.query q) in
    let building : List ℕ → ℕ → Result SqlxError BuiltSql = λ ns most. ok (record {
      sql = (renumber text binds ns most).0;
      bind_values = (renumber text binds ns most).1;
    }) in
    let r = renumber text binds (numbers_from 1 n) n in
    (
      record { sql = r.0; bind_values = r.1 },
      build_parsed X cfg print parse_sql sql params binds (Statement.query q) parsed
          ∙ build_unchanged X cfg print sql params binds q h
          ∙ ap (λ p. ok (renumbered cfg print p p.binds (Statement.query q)))
              (prepare_unchanged X sql params q binds h)
          ∙ ap (λ ns. building ns (largest ns)) first_seen
          ∙ ap (building (numbers_from 1 n)) (largest_of n),
      renumber-values binds (numbers_from 1 n) n text (All-Valued binds n (numbers_in text) range)
            small
          ∙ same_values binds n (numbers_in text) range,
    )
