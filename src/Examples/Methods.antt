-- ===== src/Examples/Methods.antt =====
-- Methods under `#[dml]`. The parser takes one text for a DROP, and all others for a query.
use sqlx_data.Prelude.{
  ℕ, ◌≡◌, refl, Text, codes, text_eq, true, false, List, [], ◌∷◌, Option, none, some, if◌then◌else◌,
}
use sqlx_data.Prelude.Texts.Methods.{has_char, ends_with}
use sqlx_data.Error.{ok, err}
use sqlx_data.Dynamic.Binder.{Database}
use sqlx_data.Core.Tree.{query_of, values, Statement}
use sqlx_data.Macros.SynResult.{SynResult}
use sqlx_data.Macros.Syntax.{Ty, path, segment, no_segment, no_arguments}
use sqlx_data.Macros.Source.{Files}
use sqlx_data.Macros.Aliases
use sqlx_data.Macros.Aliases.{AliasManager}
use sqlx_data.Macros.Scopes
use sqlx_data.Macros.Scopes.{ScopeManager, not_ignored}
use sqlx_data.Macros.Parameters.{receiver, typed}
use sqlx_data.Macros.Methods.{ddl_error}
use sqlx_data.Macros.Methods.Arguments.{MacroArg, lit, flag, string, ident}
use sqlx_data.Macros.Methods.Parse.{Method, DmlMethod, Outside, parse_dml_method_with_args}
use sqlx_data.Macros.Methods.Accepted.{Accepts, parse_dml_method_with_args-Accepts}

abbrev named_type : Text → Ty ℕ
named_type name = path (segment name no_arguments no_segment)

abbrev method : Method ℕ
method = record {
  output = some (named_type (codes "Users"));
  is_async = true;
  inputs = receiver ∷ typed (codes "age") (named_type (codes "i64")) ∷ [];
  generics = record { params = []; where_clause = none };
}

abbrev files : Files
files = record {
  manifest_dir = none;
  join = λ dir path. path;
  read_to_string = λ path. err (codes "not found");
}

abbrev parse_sql : Text → SynResult (Option (Statement ℕ))
parse_sql sql =
    if text_eq sql (codes "DROP TABLE t")
    then ok (some (Statement.drop_object 0))
    else ok (some (Statement.query (query_of none (values [] 0) none none none 0)))

abbrev outside : Outside ℕ
outside = record {
  database = Database.sqlite;
  files = files;
  captures = λ t. ok none;
  order = λ names. names;
  pieces_of = λ sql. ok [];
  scope_order = λ l. l;
  parse_sql = parse_sql;
  print = λ q. [];
}

abbrev aliases : SynResult AliasManager
aliases = ok Aliases.new

abbrev scopes : SynResult ScopeManager
scopes = ok Scopes.new

abbrev select_args : SynResult (List MacroArg)
select_args = ok (lit (string (codes "SELECT name FROM users")) ∷ [])

parse_dml_method_with_args-Accepts_example :
    (x : SynResult (DmlMethod ℕ ℕ)) × (parse_dml_method_with_args outside method aliases scopes
        false select_args
      ≡ some x)
    × Accepts outside method x
parse_dml_method_with_args-Accepts_example =
    parse_dml_method_with_args-Accepts outside method aliases scopes false select_args

-- The flag that the message asks for changes nothing.
drop_unchecked :
    parse_dml_method_with_args outside method aliases scopes false
      (ok (lit (string (codes "DROP TABLE t")) ∷ flag (ident (codes "unchecked")) ∷ []))
    ≡ some (err ddl_error)
unfolding parse_dml_method_with_args text_eq ends_with not_ignored has_char
drop_unchecked = refl
