-- ===== src/Core/Insert.antt =====
-- sqlx-data-parser/src/core/parser_insert.rs: the parts of an INSERT, from which one with several rows is made. The
-- printers of sqlparser are a parameter.
use sqlx_data.Prelude.{
  Text, codes, Bool, true, false, not, ◌||◌, List, [], ◌∷◌, ◌++◌, map, Option, none, some, first,
  ◌>>=?◌,
}
use sqlx_data.Prelude.Texts.Methods.{join}
use sqlx_data.Error.{Result, ok, err}
use sqlx_data.Parser.{ParserError, validation}
use sqlx_data.Core.Tree.{Expr, placeholder, SelectItem, SetExpr, values, Insert, Statement, body_of}

pub record InsertPrinter (X : Type 0) : Type 0 where
  pub insert_text : Insert X → Text
  pub item_text : SelectItem X → Text
  pub expr_text : Expr X → Text
  pub on_text : X → Text

module _ {X : Type 0} where
  abbrev pub insert_in : Statement X → Option (Insert X)
  insert_in (Statement.insert i) = some i
  insert_in _ = none

  abbrev pub rows_in : SetExpr X → Option (List (List (Expr X)))
  rows_in (values rows x) = some rows
  rows_in _ = none

  abbrev pub rows_of : Statement X → Option (List (List (Expr X)))
  rows_of st = insert_in st >>=? λ i. i.source >>=? λ q. rows_in (body_of q)

  -- Without its source, ON CONFLICT and RETURNING.
  abbrev pub clean_insert : Insert X → Insert X
  clean_insert i = record {
    columns = i.columns;
    source = none;
    on = none;
    returning = none;
    rest = i.rest;
  }

  unfoldable pub is_simple_placeholder : Expr X → Bool
  is_simple_placeholder (placeholder t) = true
  is_simple_placeholder _ = false

  abbrev any_complex : List (Expr X) → Bool
  any_complex [] = false
  any_complex (e ∷ es) = not (is_simple_placeholder e) || any_complex es

  abbrev any_complex_row : List (List (Expr X)) → Bool
  any_complex_row [] = false
  any_complex_row (row ∷ rows) = any_complex row || any_complex_row rows

  unfoldable pub has_complex_sql_functions_in_values : Statement X → Bool
  unfolding is_simple_placeholder
  has_complex_sql_functions_in_values st = elim (rows_of st) [
    | none ↦ false
    | some rows ↦ any_complex_row rows
  ]

  abbrev columns_of : Option (Insert X) → Result ParserError (List Text)
  columns_of none = err (validation (codes "Not an INSERT statement"))
  columns_of (some i) = ok i.columns

  abbrev pub infer_insert_columns_from_stmt : Statement X → Result ParserError (List Text)
  infer_insert_columns_from_stmt st = columns_of (insert_in st)

module _ {X : Type 0} (p : InsertPrinter X) where
  abbrev base_of : Option (Insert X) → Result ParserError Text
  base_of none = err (validation (codes "Expected INSERT statement for multi-insert operation"))
  base_of (some i) = ok (p.insert_text (clean_insert i))

  abbrev pub extract_insert_base_from_statement : Statement X → Result ParserError Text
  extract_insert_base_from_statement st = base_of (insert_in st)

  unfoldable pub extract_returning_clause_from_statement : Statement X → Option Text
  unfolding join
  extract_returning_clause_from_statement st = insert_in st >>=? λ i. i.returning >>=? λ items.
      some (codes " RETURNING " ++ join (codes ", ") (map p.item_text items))

  -- The pattern of the first row.
  unfoldable pub extract_values_clause_from_statement : Statement X → Option Text
  unfolding join
  extract_values_clause_from_statement st = rows_of st >>=? first >>=? λ row.
      some (b'(' ∷ (join (codes ", ") (map p.expr_text row) ++ (b')' ∷ [])))

  abbrev pub extract_on_conflict_clause_from_statement : Statement X → Option Text
  extract_on_conflict_clause_from_statement st =
      insert_in st >>=? λ i. i.on >>=? λ on. some (p.on_text on)
