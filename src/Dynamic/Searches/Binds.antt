-- ===== src/Dynamic/Searches/Binds.antt =====
-- What a search binds, and where the placeholders stand.
use sqlx_data.Prelude.{
  Text, ◌≡◌, refl, ◌∙◌, Bool, true, false, not, ◌&&◌, List, [], ◌∷◌, Option, none, some, is_empty,
  if◌then◌else◌, append-nil, arith,
}
use sqlx_data.Error.{ok}
use sqlx_data.Value.{FilterValue}
use sqlx_data.Search.{SearchParams}
use sqlx_data.Ast.{Expr, Value}
use sqlx_data.Dynamic.Binder.{Database, Config, Binder, M, pure, ◌>>=◌, >>=_ok, placeholder_text}
use sqlx_data.Dynamic.Binder.Numbering.{bound, bound_all, texts}
use sqlx_data.Dynamic.Exprs
use sqlx_data.Dynamic.Holes.{holes, holes_opt, holes_of, holes-reduce}
use sqlx_data.Dynamic.Searches.{pattern_string, search_expr, search_exprs, where_search}

-- The pattern once for each field; nothing if the query or the list of fields is empty.
abbrev pub repeat_for : Text → List Text → List FilterValue
repeat_for pat [] = []
repeat_for pat (f ∷ fields) = FilterValue.string pat ∷ repeat_for pat fields

abbrev pub search_values : Option SearchParams → List FilterValue
search_values none = []
search_values (some s) =
    if not (is_empty s.fields) && not (is_empty s.query)
    then repeat_for (pattern_string s) s.fields
    else []

-- What an optional condition binds.
abbrev pub BuildsOpt :
    {X : Type 0} → Database → Binder → M (Option (Expr X)) → List FilterValue → Type 0
BuildsOpt {X} db b m vs =
    (o : Option (Expr X)) × (m b ≡ ok (o, bound_all db vs b)) × (holes_opt o ≡ texts db b.next vs)

module _ (X : Type 0) (cfg : Config) where
  holes-search_expr :
      (sensitive : Bool) (f : Text) (ph : Expr X)
      → holes (search_expr cfg sensitive f ph) ≡ holes ph
  holes-search_expr true f ph = refl
  holes-search_expr false f ph = rw append-nil

module _ (X : Type 0) (cfg : Config) (sensitive : Bool) (pat : Text) where
  search_exprs-Builds :
      (fields : List Text) (b : Binder)
      → (es : List (Expr X)) × (search_exprs cfg sensitive pat fields b
          ≡ ok (es, bound_all cfg.database (repeat_for pat fields) b))
        × (holes_of es ≡ texts cfg.database b.next (repeat_for pat fields))
  unfolding search_exprs
  search_exprs-Builds [] b = ([], refl, refl)
  search_exprs-Builds (f ∷ fields) b =
      let (es, k, at) =
        search_exprs-Builds fields (bound cfg.database (FilterValue.string pat) b) in
      let ph = Expr.value (Value.placeholder (placeholder_text cfg.database b.next)) in
      (
        search_expr cfg sensitive f ph ∷ es,
        >>=_ok (search_exprs cfg sensitive pat fields) _ _ k,
        rw (holes-search_expr X cfg sensitive f ph, at),
      )

pub where_search-Builds :
    (X : Type 0) (cfg : Config) (search : Option SearchParams) (b : Binder)
    → BuildsOpt {X = X} cfg.database b (where_search cfg search) (search_values search)
where_search-Builds X cfg none b = (none, refl, refl)
where_search-Builds X cfg (some s) b =
    split (not (is_empty s.fields) && not (is_empty s.query)) s.fields refl
  where
    split :
        (t : Bool) (fields : List Text)
        → t ≡ not (is_empty fields) && not (is_empty s.query)
        → BuildsOpt {X = X} cfg.database b
            (if t
              then (do
                ors ← search_exprs cfg s.case_sensitive (pattern_string s) fields
                pure (Exprs.reduce Exprs.or ors))
              else pure none)
            (if t then repeat_for (pattern_string s) fields else [])
    split false fields e = (none, refl, refl)
    split true [] e = absurd (ground arith)
    split true (f ∷ fields) e =
        let (es, k, at) =
          search_exprs-Builds X cfg s.case_sensitive (pattern_string s) (f ∷ fields) b in
        (
          Exprs.reduce Exprs.or es,
          >>=_ok (search_exprs cfg s.case_sensitive (pattern_string s) (f ∷ fields)) _ b k,
          holes-reduce Exprs.or (λ l r. refl) es ∙ at,
        )
