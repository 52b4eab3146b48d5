-- ===== src/Dynamic/Build.antt =====
-- sqlx-data-parser/src/dynamic/builder.rs: `build_dynamic_sql`. Its call of `parse_sql`, and the printer of
-- a statement, of the crate sqlparser, are arguments.
pub mod Numbers
pub mod Unchanged
pub mod Extended
use sqlx_data.Prelude.{
  ℕ, max, Text, codes, Bool, true, false, not, ◌||◌, List, [], ◌∷◌, ◌++◌, Option, none, some,
  is_some, if◌then◌else◌,
}
use sqlx_data.Error.{SqlxError, protocol, Result, ok, err}
use sqlx_data.Value.{FilterValue}
use sqlx_data.Params
use sqlx_data.Params.{Params}
use sqlx_data.Ast.{Statement, Query}
use sqlx_data.Dynamic.Binder.{Config}
use sqlx_data.Dynamic.Query.{process_query}
use sqlx_data.Dynamic.Placeholders.{includes, collect_numbered_placeholders, renumber}
use sqlx_data.Dynamic.Trim.{trim_limit_offset_placeholder_binds}

pub record BuiltSql : Type 0 where
  pub sql : Text
  pub bind_values : List FilterValue

-- `retain` of the numbers that were not trimmed.
abbrev pub retain : List ℕ → List ℕ → List ℕ
retain trimmed [] = []
retain trimmed (n ∷ ns) = if includes n trimmed then retain trimmed ns else n ∷ retain trimmed ns

-- `max().unwrap_or(0)`
abbrev pub largest : List ℕ → ℕ
largest [] = 0
largest (n ∷ ns) = max n (largest ns)

-- The values, the numbers of the placeholders in the text, and the largest of these.
pub record Prepared : Type 0 where
  pub binds : List FilterValue
  pub placeholder_numbers : List ℕ
  pub max_placeholder : ℕ

abbrev failed_to_parse : Text → SqlxError
failed_to_parse sql = protocol (codes "Failed to parse SQL: `" ++ sql ++ codes "`")

abbrev only_select : SqlxError
only_select = protocol (codes "Only SELECT and INSERT statements are supported")

abbrev built : Text × List FilterValue → BuiltSql
built r = record { sql = r.0; bind_values = r.1 }

abbrev prepared_with : Text → List FilterValue × List ℕ → Prepared
prepared_with base_sql trimmed =
    let numbers = retain (trimmed.1) (collect_numbered_placeholders base_sql) in
    record { binds = trimmed.0; placeholder_numbers = numbers; max_placeholder = largest numbers }

module _ {X : Type 0} where
  -- Only a query is looked at; the values in its LIMIT go if the parameters bring their own.
  unfoldable pub prepare : Text → Params → Statement X → List FilterValue → Prepared
  unfolding trim_limit_offset_placeholder_binds
  prepare base_sql params (Statement.query q) binds = prepared_with base_sql (
      if is_some params.limit || is_some params.offset
      then trim_limit_offset_placeholder_binds q binds
      else (binds, []))
  prepare base_sql params (Statement.other x) binds = record {
    binds = binds;
    placeholder_numbers = [];
    max_placeholder = 0;
  }

module _ {X : Type 0} (cfg : Config) (print : Statement X → Text) where
  abbrev renumbered : Prepared → List FilterValue → Statement X → BuiltSql
  renumbered p binds st = built (renumber (print st) binds p.placeholder_numbers p.max_placeholder)

  abbrev with_params : Params → Prepared → Statement X → Result SqlxError BuiltSql
  with_params params p (Statement.query q) =
      elim (process_query cfg params q p.binds p.max_placeholder) [
        | ok r ↦ ok (renumbered p (r.1) (Statement.query (r.0)))
        | err e ↦ err e
      ]
  with_params params p (Statement.other x) = err only_select

  abbrev build_statement :
      Text → Params → List FilterValue → Statement X → Result SqlxError BuiltSql
  build_statement base_sql params initial_binds st =
      let p = prepare base_sql params st initial_binds in
      if Params.is_empty params then ok (renumbered p p.binds st) else with_params params p st

  unfoldable pub build_dynamic_sql :
      (Text → Result SqlxError (Option (Statement X)))
      → Text
      → Params
      → List FilterValue
      → Result SqlxError BuiltSql
  unfolding prepare
  build_dynamic_sql parse_sql base_sql params initial_binds = elim (parse_sql base_sql) [
    | ok none ↦ err (failed_to_parse base_sql)
    | ok (some st) ↦ build_statement base_sql params initial_binds st
    | err e ↦ err e
  ]
