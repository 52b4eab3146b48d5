-- ===== src/Core/Count/Cached.antt =====
-- sqlx-data-parser/src/dynamic/count.rs: count queries through the caches of parsed statements and of texts. All calls
-- of one run read the same time.
pub mod Fresh
use sqlx_data.Prelude.{ℕ, Text, codes, Option, none, some}
use sqlx_data.Error.{Result, ok, err, ◌>>=◌}
use sqlx_data.Cache
use sqlx_data.Cache.{Store, GlobalCache}
use sqlx_data.Parser
use sqlx_data.Parser.{ParserError, Parsing}
use sqlx_data.Core.Tree.{Statement}
use sqlx_data.Core.Count.{Printer, generate_count_query}

abbrev pub no_valid_statement : ParserError
no_valid_statement = ParserError.parse_sql (codes "No valid SQL statement found")

module _ {X : Type 0} (p : Parsing (Statement X)) (m : Store (Statement X)) (n : Store Text)
    (printer : Printer X) where
  -- SQL_PARSER_CACHE and COUNT_SQL_CACHE.
  pub record Caches : Type 1 where
    pub asts : GlobalCache m
    pub counts : GlobalCache n

  abbrev Answer : Type 1
  Answer = Result ParserError Text × Caches

  abbrev pub generated : ℕ → ℕ → Statement X → GlobalCache m → GlobalCache n → Answer
  generated key now st asts counts =
      let count_sql = generate_count_query printer st none in
      (ok count_sql, record { asts = asts; counts = (Cache.insert n key count_sql now counts).1 })

  abbrev pub from_parsed :
      ℕ → ℕ → GlobalCache n → Result ParserError (Option (Statement X)) × GlobalCache m → Answer
  from_parsed key now counts (ok (some st), asts) = generated key now st asts counts
  from_parsed key now counts (ok none, asts) =
      (err no_valid_statement, record { asts = asts; counts = counts })
  from_parsed key now counts (err e, asts) = (err e, record { asts = asts; counts = counts })

  abbrev pub from_ast : Text → ℕ → ℕ → GlobalCache n → Option (Statement X) × GlobalCache m → Answer
  from_ast sql key now counts (some st, asts) = generated key now st asts counts
  from_ast sql key now counts (none, asts) =
      from_parsed key now counts (Parser.parse p m sql now asts)

  abbrev pub from_count : Text → ℕ → ℕ → GlobalCache m → Option Text × GlobalCache n → Answer
  from_count sql key now asts (some count_sql, counts) =
      (ok count_sql, record { asts = asts; counts = counts })
  from_count sql key now asts (none, counts) =
      from_ast sql key now counts (Cache.get m key now asts)

  unfoldable pub build_count_query_from_sql : Text → ℕ → Caches → Answer
  unfolding generate_count_query
  build_count_query_from_sql sql now c =
      from_count sql (p.fingerprint sql) now c.asts (Cache.get n (p.fingerprint sql) now c.counts)
