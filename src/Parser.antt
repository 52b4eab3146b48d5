-- ===== src/Parser.antt =====
-- sqlx-data-parser/src/core/parser.rs: `parse_sql`, with core/error.rs and the conversion of its errors in
-- dynamic/error.rs. The parser of the crate sqlparser, which gives the statements of a text or fails, and
-- the hash of a text are parameters.
pub mod Cached
use sqlx_data.Prelude.{ℕ, Text, codes, List, [], ◌∷◌, Option, none, some, is_empty, if◌then◌else◌}
use sqlx_data.Error.{SqlxError, protocol, Result, ok, err}
use sqlx_data.Cache
use sqlx_data.Cache.{Store, GlobalCache}

pub data ParserError : Type 0 where
  parse_sql validation invalid_argument : Text → ParserError

-- `From<ParserError> for SqlxError`
abbrev pub sqlx_of_parser : ParserError → SqlxError
sqlx_of_parser (parse_sql msg) = protocol msg
sqlx_of_parser (validation msg) = protocol msg
sqlx_of_parser (invalid_argument msg) = protocol msg

abbrev pub empty_statement : ParserError
empty_statement = parse_sql (codes "Empty SQL statement provided.")

abbrev pub multiple_statements : ParserError
multiple_statements =
    parse_sql (codes "Multiple SQL statements detected; only one statement is allowed.")

abbrev pub no_statement : ParserError
no_statement = parse_sql (codes "No SQL statement found after parsing.")

-- What sqlparser and the hash function offer, for statements of the type `X`.
pub record Parsing (X : Type 0) : Type 0 where
  pub statements : Text → Option (List X)
  pub fingerprint : Text → ℕ

module _ {X : Type 0} (p : Parsing X) (m : Store X) where
  abbrev Answer : Type 0
  Answer = Result ParserError (Option X) × GlobalCache m

  -- The rest of the function, once the text is parsed.
  abbrev pub validate : ℕ → ℕ → Option (List X) → GlobalCache m → Answer
  validate key now none c = (ok none, c)
  validate key now (some []) c = (err no_statement, c)
  validate key now (some (st ∷ [])) c = (ok (some st), (Cache.insert m key st now c).1)
  validate key now (some (st ∷ st' ∷ sts)) c = (err multiple_statements, c)

  abbrev pub cached_or : Text → ℕ → ℕ → Option X × GlobalCache m → Answer
  cached_or sql key now (some st, c) = (ok (some st), c)
  cached_or sql key now (none, c) = validate key now (p.statements sql) c

  unfoldable pub parse : Text → ℕ → GlobalCache m → Answer
  parse sql now c =
      if is_empty sql
      then (err empty_statement, c)
      else cached_or sql (p.fingerprint sql) now (Cache.get m (p.fingerprint sql) now c)
