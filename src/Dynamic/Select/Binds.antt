-- ===== src/Dynamic/Select/Binds.antt =====
-- What a query without a cursor binds, and where the placeholders stand.
use sqlx_data.Prelude.{
  ◌≡◌, refl, ◌∙◌, ap, List, [], ◌∷◌, ◌++◌, Option, none, some, ◌>>=?◌, arith, append-nil,
}
use sqlx_data.Error.{SqlxError, ok, err}
use sqlx_data.Value.{FilterValue}
use sqlx_data.Filter.{FilterParams}
use sqlx_data.Params.{Params, Pagination}
use sqlx_data.Sorting.{SortingParams}
use sqlx_data.Ast.{Expr}
use sqlx_data.Dynamic.Binder.{Database, Config, Binder, M, ◌>>=◌, >>=_ok}
use sqlx_data.Dynamic.Binder.Numbering.{bound_all, bound_all-append, texts, texts-append}
use sqlx_data.Dynamic.Exprs
use sqlx_data.Dynamic.Exprs.{grouped_and, contains_or}
use sqlx_data.Dynamic.Holes.{holes_opt, holes_of, holes-reduce, holes-grouped_and}
use sqlx_data.Dynamic.Filters.{where_filters}
use sqlx_data.Dynamic.Filters.Binds.{all_values, BuildsAll, filter_exprs-BuildsAll}
use sqlx_data.Dynamic.Searches.{where_search}
use sqlx_data.Dynamic.Searches.Binds.{search_values, where_search-Builds}
use sqlx_data.Dynamic.Cursors.{where_cursor}
use sqlx_data.Dynamic.Select.{keep_some, dynamic_where, add_selection, process_select}

module _ {X : Type 0} where
  holes-keep_some :
      (filters search : Option (Expr X))
      → holes_of (keep_some (filters ∷ search ∷ none ∷ [])) ≡ holes_opt filters ++ holes_opt search
  holes-keep_some none none = refl
  holes-keep_some none (some s) = rw append-nil
  holes-keep_some (some f) none = refl
  holes-keep_some (some f) (some s) = rw append-nil

  holes-dynamic_where :
      (filters search : Option (Expr X))
      → holes_opt (dynamic_where filters search none) ≡ holes_opt filters ++ holes_opt search
  unfolding dynamic_where
  holes-dynamic_where filters search =
      holes-reduce grouped_and holes-grouped_and (keep_some (filters ∷ search ∷ none ∷ []))
      ∙ holes-keep_some filters search

  holes-add_selection :
      (selection combined : Option (Expr X))
      → holes_opt (add_selection selection combined) ≡ holes_opt selection ++ holes_opt combined
  unfolding add_selection
  holes-add_selection selection none = rw append-nil
  holes-add_selection none (some combined) = refl
  holes-add_selection (some existing) (some combined) = ground arith

-- The values that the parameters bind, in order; `none` if a filter is refused.
abbrev pub filter_values : Config → Option FilterParams → Option (List FilterValue)
filter_values cfg none = some []
filter_values cfg (some p) = all_values cfg p.filters

abbrev pub where_values : Config → Params → Option (List FilterValue)
where_values cfg params =
    filter_values cfg params.filters >>=? λ vs. some (vs ++ search_values params.search)

abbrev pub Cursorless : Option Pagination → Type 0
Cursorless (some (Pagination.cursor c)) = ⊥
Cursorless _ = Unit

-- What building the condition of a SELECT from its old condition is.
abbrev pub BuildsWhere :
    {X : Type 0}
    → Database
    → Binder
    → Option (Expr X)
    → M (Option (Expr X))
    → Option (List FilterValue)
    → Type 0
BuildsWhere db b selection m none = (e : SqlxError) × (m b ≡ err e)
BuildsWhere {X} db b selection m (some vs) =
    (o : Option (Expr X)) × (m b ≡ ok (o, bound_all db vs b))
    × (holes_opt o ≡ holes_opt selection ++ texts db b.next vs)

where_filters-BuildsAll :
    (X : Type 0) (cfg : Config) (filters : Option FilterParams) (b : Binder)
    → BuildsAll {X = X} cfg.database b (where_filters cfg filters) (filter_values cfg filters)
where_filters-BuildsAll X cfg none b = ([], refl, refl)
where_filters-BuildsAll X cfg (some p) b = filter_exprs-BuildsAll X cfg p.filters b

where_cursor-none :
    (X : Type 0) (db : Database) (pagination : Option Pagination) (sort_by : Option SortingParams)
    (b : Binder)
    → Cursorless pagination
    → where_cursor {X = X} db pagination sort_by b ≡ ok (none, b)
unfolding where_cursor
where_cursor-none X db none sort_by b h = refl
where_cursor-none X db (some (Pagination.serial p)) sort_by b h = refl
where_cursor-none X db (some (Pagination.slice p)) sort_by b h = refl
where_cursor-none X db (some (Pagination.cursor p)) sort_by b h = absurd h

-- Building the condition of a SELECT without cursor pagination. If a filter is refused, it fails.
-- Otherwise it succeeds, the values of the filters and then those of the search are bound behind
-- those that were there, and the placeholders of the new condition are those of the old one and
-- then one for each of these values, in order: what MySQL needs too.
pub process_select-BuildsWhere :
    (X : Type 0) (cfg : Config) (params : Params) (selection : Option (Expr X)) (b : Binder)
    → Cursorless params.pagination
    → BuildsWhere cfg.database b selection
        (process_select cfg params selection)
        (where_values cfg params)
unfolding process_select
process_select-BuildsWhere X cfg params selection b h =
    join (filter_values cfg params.filters) (where_filters-BuildsAll X cfg params.filters b)
  where
    join :
        (p : Option (List FilterValue))
        → BuildsAll {X = X} cfg.database b (where_filters cfg params.filters) p
        → BuildsWhere cfg.database b selection
            (process_select cfg params selection)
            (p >>=? λ vs. some (vs ++ search_values params.search))
    join none (e, k) = (e, rw (k, ◌>>=◌))
    join (some vs) (es, k, at) =
        let (o, k', at') = where_search-Builds X cfg params.search (bound_all cfg.database vs b) in
        let combined = dynamic_where (Exprs.reduce Exprs.and es) o none in
        (
          add_selection selection combined,
          >>=_ok (where_filters cfg params.filters) _ b k
              ∙ >>=_ok (where_search cfg params.search) _ _ k'
              ∙ >>=_ok (where_cursor cfg.database params.pagination params.sort_by) _ _
                  (where_cursor-none X cfg.database params.pagination params.sort_by _ h)
              ∙ rw (bound_all-append cfg.database vs (search_values params.search) b),
          holes-add_selection selection combined
              ∙ ap (λ l. holes_opt selection ++ l)
                  (holes-dynamic_where (Exprs.reduce Exprs.and es) o
                    ∙ rw (
                      holes-reduce Exprs.and (λ l r. refl) es,
                      at,
                      at',
                      texts-append cfg.database vs (search_values params.search) b,
                    )),
        )
