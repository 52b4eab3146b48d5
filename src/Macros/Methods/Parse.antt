-- ===== src/Macros/Methods/Parse.antt =====
-- `DmlParser::parse_dml_method_with_args`. What is extracted from hidden attributes is an argument here.
use sqlx_data.Prelude.{Text, codes, Bool, ◌||◌, List, Option, none, some, if◌then◌else◌}
use sqlx_data.Error.{Result, ok, err, ◌>>=◌}
use sqlx_data.Dynamic.Binder.{Database}
use sqlx_data.Core.Tree.{Statement, Query}
use sqlx_data.Macros.SynResult.{SynResult}
use sqlx_data.Macros.Syntax.{
  Ty, path, tuple, no_type, segment, no_segment, angle_bracketed, type_argument, no_argument,
  Generics,
}
use sqlx_data.Macros.Source.{Files, resolve_content}
use sqlx_data.Macros.Aliases.{AliasManager, has_aliases, substitute_aliases}
use sqlx_data.Macros.Scopes.{Scopes, ScopeManager, has_active_scopes}
use sqlx_data.Macros.Scopes.Apply.{apply_scopes_to_sql}
use sqlx_data.Macros.Named.{Piece, convert_named_to_positional_in_sql}
use sqlx_data.Macros.Parameters.{DmlParameter, FnArg, extract_parameters}
use sqlx_data.Macros.Methods.{
  SqlStatementType, detect_sql_type, validate_stream_not_async,
  validate_unit_type_not_allowed_in_crud, is_auto_multi_insert, run_post_parsing_validations,
}
use sqlx_data.Macros.Methods.Arguments.{MacroArg, MacroArgs, parse_macro_args}

-- `TraitItemFn`
pub record Method (X : Type 0) : Type 0 where
  pub output : Option (Ty X)
  pub is_async : Bool
  pub inputs : List (FnArg X)
  pub generics : Generics X

-- The flags on instrumentation are left out, and so is the cache of the return type, which `analyze` fills.
pub record DmlMethod (X Y : Type 0) : Type 0 where
  pub method : Method X
  pub sql_content : Text
  pub parameters : List (DmlParameter X)
  pub statement : Option (Statement Y)
  pub kind : SqlStatementType
  pub is_json_query : Bool
  pub is_multi_insert : Bool
  pub is_unchecked : Bool

-- `Result<()>` if nothing is written.
abbrev pub return_type_of : {X : Type 0} → Method X → Ty X
return_type_of m = elim (m.output) [
  | some t ↦ t
  | none ↦ path (
      segment (codes "Result") (angle_bracketed (type_argument (tuple no_type) no_argument))
        no_segment)
]

-- What the parser calls: regexes, files, and sqlparser.
pub record Outside (Y : Type 0) : Type 0 where
  pub database : Database
  pub files : Files
  pub captures : Text → Result Text (Option Text)
  pub order : List Text → List Text
  pub pieces_of : Text → Result Text (List Piece)
  pub scope_order : Scopes → Scopes
  pub parse_sql : Text → SynResult (Option (Statement Y))
  pub print : Query Y → Text

-- What the steps before the aliases give.
pub record Start (X : Type 0) : Type 0 where
  pub aliases : AliasManager
  pub scopes : ScopeManager
  pub params : List (DmlParameter X)
  pub args : MacroArgs
  pub content : Text

module _ {Y : Type 0} (o : Outside Y) where
  -- `none` is a loop without end.
  abbrev pub apply_aliases_if_needed : Text → AliasManager → Option (SynResult Text)
  apply_aliases_if_needed sql aliases =
      if has_aliases aliases then substitute_aliases o.captures aliases sql else some (ok sql)

  abbrev pub apply_scopes_if_needed : Text → ScopeManager → SynResult Text
  apply_scopes_if_needed sql scopes =
      if has_active_scopes scopes
      then apply_scopes_to_sql o.parse_sql o.print o.scope_order scopes sql
      else ok sql

module _ {X Y : Type 0} (o : Outside Y) where
  -- The method that is handed on.
  abbrev pub made :
      Method X → MacroArgs → Text → List (DmlParameter X) → Option (Statement Y) → DmlMethod X Y
  made m a sql params st = record {
    method = m;
    sql_content = sql;
    parameters = params;
    statement = st;
    kind = detect_sql_type st;
    is_json_query = a.has_json;
    is_multi_insert =
        a.has_multi_insert || is_auto_multi_insert (detect_sql_type st) params m.generics;
    is_unchecked = a.has_unchecked;
  }

  -- From the text with its aliases substituted.
  abbrev pub finish_method :
      Method X → ScopeManager → List (DmlParameter X) → MacroArgs → Text → SynResult (DmlMethod X Y)
  finish_method m scopes params a sql = apply_scopes_if_needed o sql scopes >>= λ scoped.
      convert_named_to_positional_in_sql o.database o.order o.pieces_of scoped params
      >>= λ sql_content. o.parse_sql sql_content >>= λ st.
          run_post_parsing_validations (return_type_of m) (detect_sql_type st) a.has_unchecked
          >>= λ _. ok (made m a sql_content params st)

  abbrev pub with_aliases :
      (Text → SynResult (DmlMethod X Y))
      → Option (SynResult Text)
      → Option (SynResult (DmlMethod X Y))
  with_aliases rest none = none
  with_aliases rest (some r) = some (r >>= rest)

  abbrev pub start :
      Method X
      → SynResult AliasManager
      → SynResult ScopeManager
      → Bool
      → SynResult (List MacroArg)
      → SynResult (Start X)
  start m aliases scopes no_tokens args = aliases >>= λ al. scopes >>= λ sc.
      extract_parameters m.inputs m.generics >>= λ params. parse_macro_args no_tokens args >>= λ sa.
      validate_stream_not_async (return_type_of m) m.is_async >>= λ _.
      resolve_content o.files (sa.0) >>= λ content.
      ok (record { aliases = al; scopes = sc; params = params; args = sa.1; content = content })

  abbrev pub from_start : Method X → SynResult (Start X) → Option (SynResult (DmlMethod X Y))
  from_start m (err e) = some (err e)
  from_start m (ok s) =
      with_aliases (finish_method m s.scopes s.params s.args)
        (apply_aliases_if_needed o s.content s.aliases)

  unfoldable pub parse_dml_method_with_args :
      Method X
      → SynResult AliasManager
      → SynResult ScopeManager
      → Bool
      → SynResult (List MacroArg)
      → Option (SynResult (DmlMethod X Y))
  unfolding substitute_aliases apply_scopes_to_sql convert_named_to_positional_in_sql
      extract_parameters parse_macro_args validate_stream_not_async
      validate_unit_type_not_allowed_in_crud resolve_content is_auto_multi_insert
  parse_dml_method_with_args m aliases scopes no_tokens args =
      from_start m (start m aliases scopes no_tokens args)
