-- ===== src/Dynamic/Grouping/Parts.antt =====
-- The conditions that the three parts of `process_select` build.
use sqlx_data.Prelude.{
  Text, Bool, true, false, List, [], ◌∷◌, Option, none, some, not, ◌&&◌, is_empty, length, ◌==◌,
  if◌then◌else◌, All,
}
use sqlx_data.Value.{FilterValue, Elements, to_list}
use sqlx_data.Filter.{Filter, FilterOperator, FilterParams}
use sqlx_data.Search.{SearchParams}
use sqlx_data.Sort
use sqlx_data.Sort.{Sort}
use sqlx_data.Cursor
use sqlx_data.Sorting.{SortingParams}
use sqlx_data.Params.{Pagination}
use sqlx_data.Error.{SqlxError}
use sqlx_data.Cursor.{CursorParams, CursorDirection}
use sqlx_data.Ast.{Expr}
use sqlx_data.Dynamic.Binder.{Database, Config, M, pure, fail, ◌>>=◌, bind_all}
use sqlx_data.Dynamic.Filters.{
  where_filters, filter_expr, filter_exprs, ilike_expr, between_expr, in_list_expr, contains_expr,
  in_text, not_in_text,
}
use sqlx_data.Dynamic.Exprs
use sqlx_data.Dynamic.Searches.{where_search, search_exprs, search_expr, pattern_string}
use sqlx_data.Dynamic.Cursors.{
  where_cursor, nonempty_cursor, cursor_expr, build_cursor_condition, equal_value, cursor_operator,
  directed, wrap_rest, key_or_rest,
}
use sqlx_data.Dynamic.Grouping.{
  Atom, NotOr, Reads, ReadsOpt, reduce_or-Reads, Always, Always->>=, Always-any, Always-weaken,
}

module _ (X : Type 0) (cfg : Config) where
  ilike-Atom : (d : Database) (f : Filter) → Always Atom (ilike_expr {X = X} cfg d f)
  unfolding filter_expr
  ilike-Atom Database.sqlite f b = tt
  ilike-Atom Database.postgres f b = tt
  ilike-Atom Database.mysql f b = tt

  between-Atom : (f : Filter) (v : FilterValue) → Always Atom (between_expr {X = X} cfg f v)
  unfolding filter_expr
  between-Atom f (FilterValue.array (Elements.cons l (Elements.cons h Elements.nil))) b = tt
  between-Atom f (FilterValue.array Elements.nil) b = tt
  between-Atom f (FilterValue.array (Elements.cons l Elements.nil)) b = tt
  between-Atom f (FilterValue.array (Elements.cons l (Elements.cons h (Elements.cons v vs)))) b = tt
  between-Atom f _ b = tt

  in_list-Atom :
      (operator : Text) (f : Filter) (v : FilterValue)
      → Always Atom (in_list_expr {X = X} cfg operator f v)
  unfolding filter_expr
  in_list-Atom operator f (FilterValue.array Elements.nil) b = tt
  in_list-Atom operator f (FilterValue.array (Elements.cons v vs)) b =
      Always->>= (λ es. Unit) Atom (bind_all cfg.database (v ∷ to_list vs)) _
        (Always-any (bind_all cfg.database (v ∷ to_list vs))) (λ es u b'. tt) b
  in_list-Atom operator f _ b = tt

  contains-Atom : (f : Filter) (v : FilterValue) → Always Atom (contains_expr {X = X} cfg f v)
  unfolding filter_expr
  contains-Atom f (FilterValue.string s) b = tt
  contains-Atom f _ b = tt

  filter-Atom : (op : FilterOperator) (f : Filter) → Always Atom (filter_expr {X = X} cfg op f)
  unfolding filter_expr
  filter-Atom FilterOperator.ilike f = ilike-Atom cfg.database f
  filter-Atom FilterOperator.between f = between-Atom f f.value
  filter-Atom FilterOperator.in_list f = in_list-Atom in_text f f.value
  filter-Atom FilterOperator.not_in f = in_list-Atom not_in_text f f.value
  filter-Atom FilterOperator.contains f = contains-Atom f f.value
  filter-Atom _ f = λ b. tt

  filters-Atom : (fs : List Filter) → Always (All Atom) (filter_exprs {X = X} cfg fs)
  unfolding filter_exprs
  filters-Atom [] = λ b. tt
  filters-Atom (f ∷ fs) =
      Always->>= Atom (All Atom) (filter_expr cfg f.operator f) _ (filter-Atom f.operator f) (λ e p.
        Always->>= (All Atom) (All Atom) (filter_exprs cfg fs) _ (filters-Atom fs)
          (λ es ps b. (p, ps)))

  pub where_filters-Atom :
      (filters : Option FilterParams) → Always (All Atom) (where_filters {X = X} cfg filters)
  where_filters-Atom none = λ b. tt
  where_filters-Atom (some p) = filters-Atom p.filters

  search_expr-Atom :
      (sensitive : Bool) (f : Text) (ph : Expr X) → Atom (search_expr cfg sensitive f ph)
  search_expr-Atom true f ph = tt
  search_expr-Atom false f ph = tt

  searches-Atom :
      (sensitive : Bool) (pat : Text) (fields : List Text)
      → Always (All Atom) (search_exprs {X = X} cfg sensitive pat fields)
  unfolding search_exprs
  searches-Atom sensitive pat [] = λ b. tt
  searches-Atom sensitive pat (f ∷ fields) = λ b.
      Always->>= (All Atom) (All Atom) (search_exprs cfg sensitive pat fields) _
        (searches-Atom sensitive pat fields) (λ es ps b'. (search_expr-Atom sensitive f _, ps)) _

  pub where_search-Reads :
      (search : Option SearchParams) → Always ReadsOpt (where_search {X = X} cfg search)
  where_search-Reads none = λ b. tt
  where_search-Reads (some s) = split (not (is_empty s.fields) && not (is_empty s.query))
    where
      split :
          (t : Bool)
          → Always ReadsOpt (
              if t
              then (do
                ors ← search_exprs {X = X} cfg s.case_sensitive (pattern_string s) s.fields
                pure (Exprs.reduce Exprs.or ors))
              else pure none)
      split false = λ b. tt
      split true =
          Always->>= (All Atom) ReadsOpt
            (search_exprs cfg s.case_sensitive (pattern_string s) s.fields) _
            (searches-Atom s.case_sensitive (pattern_string s) s.fields)
            (λ es ps b. reduce_or-Reads es ps)

-- The condition for some keys: a single comparison for the last key.
abbrev KeysRead : {X : Type 0} → List Sort → Expr X → Type 0
KeysRead [] e = NotOr e × Reads e
KeysRead (s ∷ sorts) e = Reads e

module _ {X : Type 0} where
  key-Reads :
      (dir : CursorDirection) (asc : Bool) (l r : Expr X)
      → NotOr (Exprs.bin (cursor_operator dir asc) l r)
        × Reads (Exprs.bin (cursor_operator dir asc) l r)
  key-Reads CursorDirection.after true l r = (tt, tt)
  key-Reads CursorDirection.after false l r = (tt, tt)
  key-Reads CursorDirection.before true l r = (tt, tt)
  key-Reads CursorDirection.before false l r = (tt, tt)

  wrap_rest-Reads :
      (t : Sort) (sorts : List Sort) (e : Expr X)
      → KeysRead sorts e
      → NotOr (wrap_rest (t ∷ sorts) e) × Reads (wrap_rest (t ∷ sorts) e)
  wrap_rest-Reads t [] e h = h
  wrap_rest-Reads t (s ∷ sorts) e h = (tt, h)

  key_or_rest-Reads :
      (dir : CursorDirection) (asc : Bool) (field : Text) (ph eq_ph rest : Expr X)
      → NotOr rest × Reads rest
      → Reads (key_or_rest (cursor_operator dir asc) field ph eq_ph rest)
  key_or_rest-Reads dir asc field ph eq_ph rest (n, r) =
      ((key-Reads dir asc (Exprs.id field) ph).1, ((tt, n), (tt, r)))

module _ (X : Type 0) (db : Database) (dir : CursorDirection) where
  build-Reads :
      (s : Sort) (sorts : List Sort) (values : List FilterValue)
      → Always (KeysRead sorts) (build_cursor_condition {X = X} db dir (s ∷ sorts) values)
  unfolding build_cursor_condition
  build-Reads s sorts [] = λ b. tt
  build-Reads s [] (v ∷ values) = λ b. key-Reads dir (Sort.is_asc s) (Exprs.id s.field) _
  build-Reads s (t ∷ sorts) (v ∷ values) = λ b.
      Always->>= (KeysRead sorts) Reads (build_cursor_condition db dir (t ∷ sorts) values) _
        (build-Reads t sorts values)
        (λ rest r.
          Always->>= (λ e. Unit) Reads (equal_value db v _) _ (Always-any (equal_value db v _))
            (λ eq_ph u b'.
              key_or_rest-Reads dir (Sort.is_asc s) s.field _ eq_ph _
                (wrap_rest-Reads t sorts rest r)))
        _

  KeysRead-Reads : (sorts : List Sort) (e : Expr X) → KeysRead sorts e → Reads e
  KeysRead-Reads [] e (n, r) = r
  KeysRead-Reads (s ∷ sorts) e r = r

  keys-Reads :
      (sorts : List Sort) (values : List FilterValue)
      → Always Reads (build_cursor_condition {X = X} db dir sorts values)
  unfolding build_cursor_condition
  keys-Reads [] values = λ b. tt
  keys-Reads (s ∷ sorts) values =
      Always-weaken (KeysRead sorts) Reads (build_cursor_condition db dir (s ∷ sorts) values)
        (KeysRead-Reads sorts) (build-Reads s sorts values)

  cursor_expr-Reads :
      (sorts : List Sort) (values : List FilterValue)
      → Always Reads (cursor_expr {X = X} db dir sorts values)
  unfolding cursor_expr
  cursor_expr-Reads [] [] = λ b. tt
  cursor_expr-Reads [] (v ∷ []) = λ b. tt
  cursor_expr-Reads [] (v ∷ w ∷ values) = λ b. tt
  cursor_expr-Reads (s ∷ sorts) [] = λ b. tt
  cursor_expr-Reads (s ∷ sorts) (v ∷ []) =
      λ b. (key-Reads dir (Sort.is_asc s) (Exprs.id s.field) _).1
  cursor_expr-Reads (s ∷ sorts) (v ∷ w ∷ values) = keys-Reads (s ∷ sorts) (v ∷ w ∷ values)

module _ (X : Type 0) (db : Database) where
  directed-Reads :
      (dir : Option CursorDirection) (sorts : List Sort) (values : List FilterValue)
      → Always Reads (directed {X = X} db dir sorts values)
  directed-Reads none sorts values = λ b. tt
  directed-Reads (some dir) sorts values = cursor_expr-Reads X db dir sorts values

  unless-Always :
      {A : Type 0} (P : A → Type 0) (t : Bool) (e : SqlxError) (m : M A)
      → Always P m
      → Always P (if t then fail e else m)
  unless-Always P true e m h = λ b. tt
  unless-Always P false e m h = h

  nonempty_cursor-Reads :
      (c : CursorParams) (sort_by : Option SortingParams)
      → Always Reads (nonempty_cursor {X = X} db c sort_by)
  unfolding nonempty_cursor
  nonempty_cursor-Reads c none = unless-Always Reads (Cursor.has_error c) _ _ (λ b. tt)
  nonempty_cursor-Reads c (some sorting) = unless-Always Reads (Cursor.has_error c) _ _ (
      unless-Always Reads (not (length (Cursor.sort_fields sorting) == Cursor.len c)) _
        (directed db c.direction sorting.sorts c.values)
        (directed-Reads c.direction sorting.sorts c.values))

  pub where_cursor-Reads :
      (pagination : Option Pagination) (sort_by : Option SortingParams)
      → Always ReadsOpt (where_cursor {X = X} db pagination sort_by)
  unfolding where_cursor
  where_cursor-Reads none sort_by = λ b. tt
  where_cursor-Reads (some (Pagination.serial p)) sort_by = λ b. tt
  where_cursor-Reads (some (Pagination.slice p)) sort_by = λ b. tt
  where_cursor-Reads (some (Pagination.cursor c)) sort_by = split (Cursor.is_empty c)
    where
      split :
          (t : Bool)
          → Always ReadsOpt
              (if t then pure none else do e ← nonempty_cursor {X = X} db c sort_by; pure (some e))
      split true = λ b. tt
      split false =
          Always->>= Reads ReadsOpt (nonempty_cursor db c sort_by) _
            (nonempty_cursor-Reads c sort_by) (λ e r b. r)
