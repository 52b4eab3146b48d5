-- ===== src/Dynamic/Searches.antt =====
-- sqlx-data-parser/src/dynamic/builder.rs: the part of `process_select` for a text search.
pub mod Binds
use sqlx_data.Prelude.{
  Text, Bool, true, false, not, ◌&&◌, List, [], ◌∷◌, is_empty, Option, none, some, if◌then◌else◌,
}
use sqlx_data.Value.{FilterValue}
use sqlx_data.Search.{SearchParams}
use sqlx_data.Ast.{Expr}
use sqlx_data.Dynamic.Binder.{Config, M, pure, ◌>>=◌, bind}
use sqlx_data.Dynamic.Exprs
use sqlx_data.Dynamic.Filters.{wrap_percent}

abbrev pub pattern_string : SearchParams → Text
pattern_string s = if s.exact_match then s.query else wrap_percent s.query

module _ {X : Type 0} (cfg : Config) where
  abbrev pub search_expr : Bool → Text → Expr X → Expr X
  search_expr true field ph = Exprs.like cfg.database field ph false
  search_expr false field ph =
      Exprs.like_expr cfg.database (Exprs.lower_expr (Exprs.id field)) (Exprs.lower_expr ph)

  -- The loop over the fields of a search.
  unfoldable pub search_exprs : Bool → Text → List Text → M (List (Expr X))
  unfolding bind
  search_exprs sensitive pat [] = pure []
  search_exprs sensitive pat (field ∷ fields) = do
    ph ← bind cfg.database (FilterValue.string pat)
    es ← search_exprs sensitive pat fields
    pure (search_expr sensitive field ph ∷ es)

  -- The fields are not empty, so `reduce` has a result.
  abbrev pub where_search : Option SearchParams → M (Option (Expr X))
  where_search none = pure none
  where_search (some s) =
      if not (is_empty s.fields) && not (is_empty s.query)
      then (do
        ors ← search_exprs s.case_sensitive (pattern_string s) s.fields
        pure (Exprs.reduce Exprs.or ors))
      else pure none
