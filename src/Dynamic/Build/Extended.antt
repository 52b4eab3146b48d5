-- ===== src/Dynamic/Build/Extended.antt =====
-- `build_dynamic_sql` with parameters, for a query without a LIMIT of its own.
use sqlx_data.Prelude.{
  ℕ, ◌<◌, ◌≡◌, refl, ◌∙◌, ap, Text, List, [], length, map, Option, none, some, is_some, ◌||◌, Bool,
  true, false, All, max_u64, if◌then◌else◌,
}
use sqlx_data.Error.{SqlxError, Result, ok}
use sqlx_data.Value.{FilterValue}
use sqlx_data.Params
use sqlx_data.Params.{Params}
use sqlx_data.Ast.{Statement, Query}
use sqlx_data.Dynamic.Binder.{Config}
use sqlx_data.Dynamic.Query.{process_query}
use sqlx_data.Dynamic.Placeholders.{collect_numbered_placeholders}
use sqlx_data.Dynamic.Placeholders.Scan.{numbers_in}
use sqlx_data.Dynamic.Placeholders.Assigning.{at_number}
use sqlx_data.Dynamic.Placeholders.Renumbering.{renumber-values}
use sqlx_data.Dynamic.Trim.{trim_limit_offset_placeholder_binds}
use sqlx_data.Dynamic.Build.{
  BuiltSql, Prepared, prepare, renumbered, with_params, build_statement, build_dynamic_sql,
}
use sqlx_data.Dynamic.Build.Numbers.{
  numbers_from, InRange, retain_all, All-Valued, same_values, largest_of,
}
use sqlx_data.Dynamic.Build.Unchanged.{build_parsed}

module _ (X : Type 0) (sql : Text) (params : Params) (q : Query X) (binds : List FilterValue) where
  untrimmed : q.limit_clause ≡ none → trim_limit_offset_placeholder_binds q binds ≡ (binds, [])
  unfolding trim_limit_offset_placeholder_binds
  untrimmed e = rw (e, trim_limit_offset_placeholder_binds) refl

  abbrev numbered : ℕ → Prepared
  numbered n = record { binds = binds; placeholder_numbers = numbers_from 1 n; max_placeholder = n }

  either_way :
      (t : Bool)
      → q.limit_clause ≡ none
      → (if t then trim_limit_offset_placeholder_binds q binds else (binds, [])) ≡ (binds, [])
  either_way true e = untrimmed e
  either_way false e = refl

  prepare-numbered :
      (n : ℕ)
      → q.limit_clause ≡ none
      → collect_numbered_placeholders sql ≡ numbers_from 1 n
      → prepare sql params (Statement.query q) binds ≡ numbered n
  unfolding prepare
  prepare-numbered n e first_seen =
      rw
        (
          either_way (is_some params.limit || is_some params.offset) e,
          first_seen,
          retain_all (numbers_from 1 n),
          largest_of n,
        )
        refl

module _ (X : Type 0) (cfg : Config) (print : Statement X → Text) where
  build_extended :
      (sql : Text) (params : Params) (binds : List FilterValue) (q : Query X)
      → Params.is_empty params ≡ false
      → build_statement cfg print sql params binds (Statement.query q)
        ≡ with_params cfg print params
            (prepare sql params (Statement.query q) binds)
            (Statement.query q)
  build_extended sql params binds q h = rw h

  with_processed :
      (params : Params) (p : Prepared) (q q' : Query X) (binds' : List FilterValue)
      → process_query cfg params q p.binds p.max_placeholder ≡ ok (q', binds')
      → with_params cfg print params p (Statement.query q)
        ≡ ok (renumbered cfg print p binds' (Statement.query q'))
  with_processed params p q q' binds' h = rw (h, with_params)

-- With parameters, for a query that the parser takes and that has no LIMIT: if the placeholders of the text
-- first appear as $1, $2, and so on up to the number of values, `process_query` succeeds with a
-- query and values, and the print of that query has only numbers of these values, then building
-- succeeds, and the placeholders of the SQL that results stand for the same values, in order, as
-- those of the print do.
pub build_dynamic_sql_extended :
    (X : Type 0) (cfg : Config) (print : Statement X → Text)
    (parse_sql : Text → Result SqlxError (Option (Statement X))) (sql : Text) (params : Params)
    (binds binds' : List FilterValue) (q q' : Query X)
    → parse_sql sql ≡ ok (some (Statement.query q))
    → Params.is_empty params ≡ false
    → q.limit_clause ≡ none
    → collect_numbered_placeholders sql ≡ numbers_from 1 (length binds)
    → process_query cfg params q binds (length binds) ≡ ok (q', binds')
    → All (InRange (length binds')) (numbers_in (print (Statement.query q')))
    → length (print (Statement.query q')) < max_u64
    → (r : BuiltSql) × (build_dynamic_sql cfg print parse_sql sql params binds ≡ ok r)
      × (map (at_number r.bind_values) (numbers_in r.sql)
          ≡ map (at_number binds') (numbers_in (print (Statement.query q'))))
build_dynamic_sql_extended X cfg print parse_sql sql params binds binds' q q' parsed some_params
      unlimited first_seen processed range small =
    let n = length binds in
    let text = print (Statement.query q') in
    let p = numbered X sql params q binds n in
    (
      renumbered cfg print p binds' (Statement.query q'),
      build_parsed X cfg print parse_sql sql params binds (Statement.query q) parsed
          ∙ build_extended X cfg print sql params binds q some_params
          ∙ ap (λ p. with_params cfg print params p (Statement.query q))
              (prepare-numbered X sql params q binds n unlimited first_seen)
          ∙ with_processed X cfg print params p q q' binds' processed,
      renumber-values binds' (numbers_from 1 n) n text (All-Valued binds' n (numbers_in text) range)
            small
          ∙ same_values binds' n (numbers_in text) range,
    )
