-- ===== src/Macros/Methods.antt =====
-- sqlx-data-macros/src/dml.rs: `DmlParser`, and what the kind of a statement and the type of a result have to do with
-- each other.
pub mod Arguments
pub mod Parse
pub mod Accepted
use sqlx_data.Prelude.{
  Text, codes, text_eq, Bool, true, false, not, ◌&&◌, ◌||◌, List, [], ◌∷◌, Option, none, some,
  is_some, is_none, ◌>>=?◌, if◌then◌else◌,
}
use sqlx_data.Error.{Result, ok, err, ◌>>=◌}
use sqlx_data.Dynamic.Binder.{Database}
use sqlx_data.Core.Tree.{Statement, Query}
use sqlx_data.Macros.SynResult.{SynResult}
use sqlx_data.Macros.Syntax.{
  Ty, path, tuple, impl_trait, no_type, segment, no_segment, angle_bracketed, type_argument,
  no_argument, Generics, last_segment, first_type,
}
use sqlx_data.Macros.Source.{SqlSource, Files, resolve_content}
use sqlx_data.Macros.Aliases.{AliasManager, has_aliases, substitute_aliases}
use sqlx_data.Macros.Scopes.{Scopes, ScopeManager, has_active_scopes}
use sqlx_data.Macros.Scopes.Apply.{apply_scopes_to_sql}
use sqlx_data.Macros.Named.{Piece, convert_named_to_positional_in_sql}
use sqlx_data.Macros.Parameters.{DmlParameter, FnArg, extract_parameters}
use sqlx_data.Macros.Returns.{check_is_stream_type}
use sqlx_data.Macros.Types.Iterables.{last_arguments, is_tuple_iterable_type}
use sqlx_data.Macros.Types.{path_ends_with}

-- sqlx-data-parser/src/core/parser.rs
pub data SqlStatementType : Type 0 where
  select insert update delete ddl unknown : SqlStatementType

module _ {X : Type 0} where
  abbrev pub statement_type : Statement X → SqlStatementType
  statement_type (Statement.query q) = select
  statement_type (Statement.insert i) = insert
  statement_type (Statement.update r x) = update
  statement_type (Statement.delete r x) = delete
  statement_type (Statement.other_statement x) = unknown
  statement_type _ = ddl

  abbrev pub detect_sql_type : Option (Statement X) → SqlStatementType
  detect_sql_type none = unknown
  detect_sql_type (some st) = statement_type st

abbrev pub is_crud_operation : SqlStatementType → Bool
is_crud_operation ddl = false
is_crud_operation unknown = false
is_crud_operation _ = true

module _ {X : Type 0} where
  abbrev pub is_unit_type : Ty X → Bool
  is_unit_type (tuple no_type) = true
  is_unit_type _ = false

  abbrev unit_inside : Option (Ty X) → Bool
  unit_inside none = false
  unit_inside (some t) = is_unit_type t

  unfoldable pub return_type_contains_unit : Ty X → Bool
  return_type_contains_unit (tuple no_type) = true
  return_type_contains_unit (path segments) =
      path_ends_with segments (codes "Result")
      && unit_inside (last_arguments segments >>=? first_type)
  return_type_contains_unit _ = false

  unfoldable pub validate_unit_type_not_allowed_in_crud :
      Ty X → SqlStatementType → Bool → SynResult (Unit {0})
  unfolding return_type_contains_unit
  validate_unit_type_not_allowed_in_crud t kind has_unchecked =
      if not (return_type_contains_unit t)
      then ok tt
      else if is_crud_operation kind && not has_unchecked
      then err (
          codes
            "Unit type () not allowed with SELECT/INSERT/UPDATE/DELETE operations. These should return data or QueryResult")
      else ok tt

  -- Its test for streams is that of `check_is_stream_type`.
  unfoldable pub validate_stream_not_async : Ty X → Bool → SynResult (Unit {0})
  unfolding check_is_stream_type
  validate_stream_not_async t is_async =
      if check_is_stream_type t && is_async
      then err (
          codes
            "Stream return types cannot be declared as async functions. Remove 'async' keyword - streams are returned directly without await")
      else ok tt

  abbrev any_tuples : List (DmlParameter X) → Generics X → Bool
  any_tuples [] generics = false
  any_tuples (p ∷ params) generics =
      (not p.is_pool && (not p.is_dynamic_param && is_tuple_iterable_type p.type_of generics))
      || any_tuples params generics

  unfoldable pub is_auto_multi_insert : SqlStatementType → List (DmlParameter X) → Generics X → Bool
  unfolding is_tuple_iterable_type
  is_auto_multi_insert insert params generics = any_tuples params generics
  is_auto_multi_insert _ params generics = false

abbrev pub ddl_error : Text
ddl_error =
    codes
      "DDL commands (CREATE, DROP, ALTER, PRAGMA, etc.) are not allowed with #[dml]. Use #[dml(\"SQL\", unchecked)] if this is intentional, or consider using a different approach for DDL operations."

abbrev pub validate_no_ddl_in_dml : SqlStatementType → SynResult (Unit {0})
validate_no_ddl_in_dml ddl = err ddl_error
validate_no_ddl_in_dml _ = ok tt

abbrev pub run_post_parsing_validations :
    {X : Type 0} → Ty X → SqlStatementType → Bool → SynResult (Unit {0})
run_post_parsing_validations t kind has_unchecked =
    validate_no_ddl_in_dml kind >>= λ _. validate_unit_type_not_allowed_in_crud t kind has_unchecked
