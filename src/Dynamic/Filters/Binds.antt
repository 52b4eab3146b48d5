-- ===== src/Dynamic/Filters/Binds.antt =====
-- What the filters of a query bind, and where the placeholders stand.
use sqlx_data.Prelude.{Text, ◌≡◌, refl, ◌∙◌, List, [], ◌∷◌, ◌++◌, Option, none, some, ◌>>=?◌}
use sqlx_data.Error.{SqlxError, ok, err}
use sqlx_data.Value.{FilterValue, Elements, to_list}
use sqlx_data.Filter.{Filter, FilterOperator}
use sqlx_data.Ast.{Expr}
use sqlx_data.Dynamic.Binder.{Database, Config, Binder, M, bind_all, >>=_ok, ◌>>=◌}
use sqlx_data.Dynamic.Binder.Numbering.{bound, bound_all, bound_all-append, texts, texts-append}
use sqlx_data.Dynamic.Exprs
use sqlx_data.Dynamic.Holes.{holes, marks, holes_all-marks, holes_of}
use sqlx_data.Dynamic.Filters.{
  lowered, wrap_percent, filter_expr, filter_exprs, ilike_expr, between_expr, in_list_expr,
  contains_expr, in_text, not_in_text,
}

-- The values that a filter binds, in order; `none` if the filter is refused.
abbrev pair_values : List FilterValue → Option (List FilterValue)
pair_values (low ∷ high ∷ []) = some (low ∷ high ∷ [])
pair_values _ = none

abbrev some_values : List FilterValue → Option (List FilterValue)
some_values [] = none
some_values (v ∷ vs) = some (v ∷ vs)

abbrev array_values :
    (List FilterValue → Option (List FilterValue)) → FilterValue → Option (List FilterValue)
array_values f (FilterValue.array vs) = f (to_list vs)
array_values f _ = none

abbrev text_values : FilterValue → Option (List FilterValue)
text_values (FilterValue.string s) = some (FilterValue.string (wrap_percent s) ∷ [])
text_values _ = none

abbrev ilike_value : Config → Database → FilterValue → FilterValue
ilike_value cfg Database.postgres v = v
ilike_value cfg _ v = lowered cfg v

abbrev pub values_of : Config → FilterOperator → FilterValue → Option (List FilterValue)
values_of cfg FilterOperator.ilike v = some (ilike_value cfg cfg.database v ∷ [])
values_of cfg FilterOperator.between v = array_values pair_values v
values_of cfg FilterOperator.in_list v = array_values some_values v
values_of cfg FilterOperator.not_in v = array_values some_values v
values_of cfg FilterOperator.is_null v = some []
values_of cfg FilterOperator.is_not_null v = some []
values_of cfg FilterOperator.contains v = text_values v
values_of cfg _ v = some (v ∷ [])

abbrev pub all_values : Config → List Filter → Option (List FilterValue)
all_values cfg [] = some []
all_values cfg (f ∷ fs) =
    values_of cfg f.operator f.value >>=? λ vs. all_values cfg fs >>=? λ ws. some (vs ++ ws)

bind_all-marks :
    (X : Type 0) (db : Database) (vs : List FilterValue) (b : Binder)
    → bind_all {X = X} db vs b ≡ ok (marks (texts db b.next vs), bound_all db vs b)
unfolding bind_all
bind_all-marks X db [] b = refl
bind_all-marks X db (v ∷ vs) b =
    >>=_ok (bind_all db vs) _ (bound db v b) (bind_all-marks X db vs (bound db v b))

-- What a refusal or a success with these values is, for an action that builds one condition.
abbrev pub Builds :
    {X : Type 0} → Database → Binder → M (Expr X) → Option (List FilterValue) → Type 0
Builds db b m none = (e : SqlxError) × (m b ≡ err e)
Builds {X} db b m (some vs) =
    (e : Expr X) × (m b ≡ ok (e, bound_all db vs b)) × (holes e ≡ texts db b.next vs)

module _ (X : Type 0) (cfg : Config) (f : Filter) (b : Binder) where
  ilike-Builds :
      (d : Database)
      → Builds {X = X} cfg.database b (ilike_expr cfg d f) (some (ilike_value cfg d f.value ∷ []))
  unfolding filter_expr
  ilike-Builds Database.sqlite = (_, refl, refl)
  ilike-Builds Database.postgres = (_, refl, refl)
  ilike-Builds Database.mysql = (_, refl, refl)

  pair-Builds :
      (v : FilterValue)
      → Builds {X = X} cfg.database b (between_expr cfg f v) (array_values pair_values v)
  unfolding filter_expr
  pair-Builds (FilterValue.array Elements.nil) = (_, refl)
  pair-Builds (FilterValue.array (Elements.cons l Elements.nil)) = (_, refl)
  pair-Builds (FilterValue.array (Elements.cons l (Elements.cons h Elements.nil))) = (_, refl, refl)
  pair-Builds (FilterValue.array (Elements.cons l (Elements.cons h (Elements.cons v vs)))) =
      (_, refl)
  pair-Builds _ = (_, refl)

  list-Builds :
      (operator : Text) (v : FilterValue)
      → Builds {X = X} cfg.database b (in_list_expr cfg operator f v) (array_values some_values v)
  unfolding filter_expr
  list-Builds operator (FilterValue.array Elements.nil) = (_, refl)
  list-Builds operator (FilterValue.array (Elements.cons v vs)) = (
    Exprs.in_list f.field (marks (texts cfg.database b.next (v ∷ to_list vs))) f.negated,
    >>=_ok (bind_all cfg.database (v ∷ to_list vs)) _ b
        (bind_all-marks X cfg.database (v ∷ to_list vs) b),
    holes_all-marks X _,
  )
  list-Builds operator _ = (_, refl)

  contains-Builds :
      (v : FilterValue) → Builds {X = X} cfg.database b (contains_expr cfg f v) (text_values v)
  unfolding filter_expr
  contains-Builds (FilterValue.string s) = (_, refl, refl)
  contains-Builds _ = (_, refl)

filter_expr-Builds :
    (X : Type 0) (cfg : Config) (op : FilterOperator) (f : Filter) (b : Binder)
    → Builds {X = X} cfg.database b (filter_expr cfg op f) (values_of cfg op f.value)
unfolding filter_expr
filter_expr-Builds X cfg FilterOperator.ilike f b = ilike-Builds X cfg f b cfg.database
filter_expr-Builds X cfg FilterOperator.between f b = pair-Builds X cfg f b f.value
filter_expr-Builds X cfg FilterOperator.in_list f b = list-Builds X cfg f b in_text f.value
filter_expr-Builds X cfg FilterOperator.not_in f b = list-Builds X cfg f b not_in_text f.value
filter_expr-Builds X cfg FilterOperator.contains f b = contains-Builds X cfg f b f.value
filter_expr-Builds X cfg _ f b = (_, refl, refl)

-- The same for the loop over filters.
abbrev pub BuildsAll :
    {X : Type 0} → Database → Binder → M (List (Expr X)) → Option (List FilterValue) → Type 0
BuildsAll db b m none = (e : SqlxError) × (m b ≡ err e)
BuildsAll {X} db b m (some vs) =
    (es : List (Expr X)) × (m b ≡ ok (es, bound_all db vs b)) × (holes_of es ≡ texts db b.next vs)

Builds-cons :
    (X : Type 0) (cfg : Config) (f : Filter) (fs : List Filter) (b : Binder)
    (o : Option (List FilterValue))
    → Builds {X = X} cfg.database b (filter_expr cfg f.operator f) o
    → ((vs : List FilterValue)
        → BuildsAll {X = X} cfg.database
            (bound_all cfg.database vs b)
            (filter_exprs cfg fs)
            (all_values cfg fs))
    → BuildsAll {X = X} cfg.database b
        (filter_exprs cfg (f ∷ fs))
        (o >>=? λ vs. all_values cfg fs >>=? λ ws. some (vs ++ ws))
unfolding filter_exprs
Builds-cons X cfg f fs b none (e, h) rest = (e, rw (h, ◌>>=◌))
Builds-cons X cfg f fs b (some vs) (e, h, at) rest = join (all_values cfg fs) (rest vs)
  where
    join :
        (p : Option (List FilterValue))
        → BuildsAll {X = X} cfg.database (bound_all cfg.database vs b) (filter_exprs cfg fs) p
        → BuildsAll {X = X} cfg.database b
            (filter_exprs cfg (f ∷ fs))
            (p >>=? λ ws. some (vs ++ ws))
    join none (e', k) = (e', >>=_ok (filter_expr cfg f.operator f) _ b h ∙ rw (k, ◌>>=◌))
    join (some ws) (es, k, at') = (
      e ∷ es,
      >>=_ok (filter_expr cfg f.operator f) _ b h
          ∙ >>=_ok (filter_exprs cfg fs) _ _ k
          ∙ rw (bound_all-append cfg.database vs ws b),
      rw (at, at', texts-append cfg.database vs ws b),
    )

-- The conditions of a list of filters. If the description of a filter's values refuses one of
-- them, building fails. Otherwise it succeeds, the values of all filters are bound in order behind
-- those that were there, and the placeholders stand in the conditions in the order of the values.
pub filter_exprs-BuildsAll :
    (X : Type 0) (cfg : Config) (fs : List Filter) (b : Binder)
    → BuildsAll {X = X} cfg.database b (filter_exprs cfg fs) (all_values cfg fs)
unfolding filter_exprs
filter_exprs-BuildsAll X cfg [] b = ([], refl, refl)
filter_exprs-BuildsAll X cfg (f ∷ fs) b =
    Builds-cons X cfg f fs b (values_of cfg f.operator f.value)
      (filter_expr-Builds X cfg f.operator f b)
      (λ vs. filter_exprs-BuildsAll X cfg fs (bound_all cfg.database vs b))
