-- ===== src/Macros/Methods/Arguments.antt =====
-- The arguments of `#[dml]`. Whether there are tokens at all, and what syn parses them to, is handed in.
use sqlx_data.Prelude.{
  Text, codes, text_eq, Bool, true, false, not, List, [], ◌∷◌, Option, none, some, is_some, is_none,
  if◌then◌else◌,
}
use sqlx_data.Error.{ok, err, ◌>>=◌}
use sqlx_data.Macros.SynResult.{SynResult}
use sqlx_data.Macros.Source.{SqlSource}

-- `syn::Expr`, as far as the arguments are told apart: on the left of an assignment stands a path, which is an
-- identifier or not, or something else; on the right a literal, which is a string or not, or something else.
pub data Name : Type 0 where
  ident : Text → Name
  other_path no_path : Name

pub data Value : Type 0 where
  string : Text → Value
  other_literal no_literal : Value

pub data MacroArg : Type 0 where
  lit : Value → MacroArg
  assign : Name → Value → MacroArg
  flag : Name → MacroArg
  other_arg : MacroArg

pub record MacroArgs : Type 0 where
  pub sql_source : Option SqlSource
  pub has_unchecked : Bool
  pub has_json : Bool
  pub has_multi_insert : Bool

abbrev pub unsupported : SynResult MacroArgs
unsupported = err (
    codes
      "Arguments must be either a SQL string literal, key=value pairs, 'unchecked' flag, 'json' flag, or 'multi_insert' flag")

abbrev set_source : SqlSource → MacroArgs → MacroArgs
set_source source a = record {
  sql_source = some source;
  has_unchecked = a.has_unchecked;
  has_json = a.has_json;
  has_multi_insert = a.has_multi_insert;
}

abbrev pub inline_sql : Value → MacroArgs → SynResult MacroArgs
inline_sql (string sql) a = ok (set_source (SqlSource.inline sql) a)
inline_sql _ a = err (codes "SQL argument must be a string literal")

abbrev file_path : Value → MacroArgs → SynResult MacroArgs
file_path (string p) a = ok (set_source (SqlSource.file p) a)
file_path _ a = err (codes "file parameter must be a string literal")

abbrev pub assigned : Name → Value → MacroArgs → SynResult MacroArgs
assigned no_path v a = err (codes "Invalid parameter name")
assigned other_path v a = err (codes "Unknown parameter. Supported: file")
assigned (ident name) v a =
    if not (text_eq name (codes "file"))
    then err (codes "Unknown parameter. Supported: file")
    else if is_some a.sql_source
    then err (codes "Cannot specify both inline SQL and file parameter")
    else file_path v a

abbrev pub flagged : Name → MacroArgs → SynResult MacroArgs
flagged (ident name) a =
    if text_eq name (codes "unchecked")
    then ok (record {
      sql_source = a.sql_source;
      has_unchecked = true;
      has_json = a.has_json;
      has_multi_insert = a.has_multi_insert;
    })
    else if text_eq name (codes "json")
    then ok (record {
      sql_source = a.sql_source;
      has_unchecked = a.has_unchecked;
      has_json = true;
      has_multi_insert = a.has_multi_insert;
    })
    else if text_eq name (codes "multi_insert")
    then ok (record {
      sql_source = a.sql_source;
      has_unchecked = a.has_unchecked;
      has_json = a.has_json;
      has_multi_insert = true;
    })
    else unsupported
flagged _ a = unsupported

-- A literal is taken for the SQL if there is none yet.
abbrev pub read_arg : MacroArg → MacroArgs → SynResult MacroArgs
read_arg (lit v) a = if is_none a.sql_source then inline_sql v a else unsupported
read_arg (assign name v) a = assigned name v a
read_arg (flag name) a = flagged name a
read_arg other_arg a = unsupported

unfoldable pub read_args : List MacroArg → MacroArgs → SynResult MacroArgs
read_args [] a = ok a
read_args (arg ∷ args) a = read_arg arg a >>= read_args args

abbrev pub no_flags : MacroArgs
no_flags = record {
  sql_source = none;
  has_unchecked = false;
  has_json = false;
  has_multi_insert = false;
}

abbrev pub with_source : MacroArgs → SynResult (SqlSource × MacroArgs)
with_source a = elim (a.sql_source) [
  | none ↦ err (codes "DML attribute requires either a SQL string or file parameter")
  | some source ↦ ok (source, a)
]

abbrev some_args : List MacroArg → SynResult (SqlSource × MacroArgs)
some_args [] = err (codes "Attribute requires at least one argument")
some_args (arg ∷ args) = read_args (arg ∷ args) no_flags >>= with_source

unfoldable pub parse_macro_args :
    Bool → SynResult (List MacroArg) → SynResult (SqlSource × MacroArgs)
unfolding read_args
parse_macro_args no_tokens args =
    if no_tokens
    then err (codes "Attribute requires either a SQL string or file parameter")
    else (args >>= some_args)
