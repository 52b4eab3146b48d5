-- ===== src/Core/Columns.antt =====
-- sqlx-data-parser/src/core/parser.rs: the names of the columns that a statement answers with. The printer of
-- expressions and `to_lowercase` are parameters.
use sqlx_data.Prelude.{
  ℕ, ◌+◌, ◌≡◌, refl, Text, codes, to_string, Bool, true, false, List, [], ◌∷◌, ◌++◌, length, last,
  Option, none, some, unwrap_or, if◌then◌else◌, arith,
}
use sqlx_data.Error.{Result, ok, err, ◌>>=◌, split_ok}
use sqlx_data.Parser.{ParserError, validation}
use sqlx_data.Core.Tree.{
  Expr, identifier, compound_identifier, function, SelectItem, unnamed_expr, expr_with_alias,
  wildcard, qualified_wildcard, SetExpr, select, Statement, body_of, projection_of,
}

abbrev field : ℕ → Text
field i = codes "field_" ++ to_string i

abbrev pub required : {A : Type 0} → Text → Option A → Result ParserError A
required msg none = err (validation msg)
required msg (some a) = ok a

module _ {X : Type 0} where
  unfoldable pub needs_alias_for_sqlx : Expr X → Bool
  needs_alias_for_sqlx (identifier name) = false
  needs_alias_for_sqlx (compound_identifier names) = false
  needs_alias_for_sqlx _ = true

  abbrev pub select_projection : SetExpr X → Result ParserError (List (SelectItem X))
  select_projection (select s) = ok (projection_of s)
  select_projection _ = err (validation (codes "Only SELECT queries are supported"))

  unfoldable pub projection_in : Statement X → Result ParserError (List (SelectItem X))
  projection_in (Statement.query q) = select_projection (body_of q)
  projection_in (Statement.insert i) =
      required (codes "INSERT without RETURNING clause") i.returning
  projection_in (Statement.update returning rest) =
      required (codes "UPDATE without RETURNING clause") returning
  projection_in (Statement.delete returning rest) =
      required (codes "DELETE without RETURNING clause") returning
  projection_in _ = err (validation (codes "Unsupported SQL statement"))

module _ {X : Type 0} (to_lowercase : Text → Text) (print : Expr X → Text) where
  unfoldable pub analyze_expression_name : Expr X → ℕ → Text
  analyze_expression_name (identifier name) index = name
  analyze_expression_name (compound_identifier names) index = unwrap_or (last names) (field index)
  analyze_expression_name (function name distinct args over rest) index = to_lowercase name
  analyze_expression_name _ index = field index

  abbrev alias_error : Expr X → ℕ → ParserError
  alias_error e i = validation (
      codes "Column "
      ++ (to_string (i + 1)
          ++ (codes " '"
              ++ (print e
                  ++ (codes
                        "' requires an alias for SQLx compatibility. Add 'AS column_name'. Example: "
                      ++ (print e ++ codes " AS column_name"))))))

  abbrev pub column_name : SelectItem X → ℕ → Result ParserError Text
  column_name (unnamed_expr e) i =
      if needs_alias_for_sqlx e then err (alias_error e i) else ok (analyze_expression_name e i)
  column_name (expr_with_alias e alias) i = ok alias
  column_name (wildcard x) i =
      err (validation (codes "SELECT * is not supported; use explicit columns"))
  column_name (qualified_wildcard x) i = ok (field i)

  -- The loop, from the index `i`.
  unfoldable pub infer_from : ℕ → List (SelectItem X) → Result ParserError (List Text)
  unfolding needs_alias_for_sqlx analyze_expression_name
  infer_from i [] = ok []
  infer_from i (item ∷ items) =
      let later = infer_from (i + 1) items in
      column_name item i >>= λ name. later >>= λ names. ok (name ∷ names)

  abbrev pub infer_projection_columns : List (SelectItem X) → Result ParserError (List Text)
  infer_projection_columns items = infer_from 0 items

  unfoldable pub infer_columns_from_stmt : Statement X → Result ParserError (List Text)
  unfolding projection_in infer_from
  infer_columns_from_stmt st = projection_in st >>= infer_projection_columns

  -- Each item of the projection gives one name.
  pub length-infer_from :
      (i : ℕ) (items : List (SelectItem X)) (names : List Text)
      → infer_from i items ≡ ok names
      → length names ≡ length items
  unfolding infer_from
  length-infer_from i [] names h = let same : names ≡ [] = cc in rw same refl
  length-infer_from i (item ∷ items) names h =
      let (name, here, h') = split_ok (column_name item i) h in
      let (more, later, h'') = split_ok (infer_from (i + 1) items) h' in
      let same : names ≡ name ∷ more = cc in
      rw same (omega (arith, length-infer_from (i + 1) items more later))
