-- ===== src/Dynamic/Filters.antt =====
-- sqlx-data-parser/src/dynamic/builder.rs: the part of `process_select` that turns filters into
-- conditions.
pub mod Binds
pub mod Negation
use sqlx_data.Prelude.{
  ℕ, Text, codes, List, [], ◌∷◌, ◌++◌, is_empty, length, to_string, Option, none, some,
  if◌then◌else◌,
}
use sqlx_data.Error.{SqlxError, invalid_argument}
use sqlx_data.Value.{FilterValue, to_list}
use sqlx_data.Filter.{Filter, FilterOperator, FilterParams}
use sqlx_data.Ast.{Expr}
use sqlx_data.Dynamic.Binder.{Database, Config, M, pure, fail, ◌>>=◌, bind, bind_all}
use sqlx_data.Dynamic.Exprs

abbrev pub between_needs_two : ℕ → SqlxError
between_needs_two n =
    invalid_argument (codes "Between operator requires exactly 2 values, got " ++ to_string n)

abbrev pub needs_array : Text → Text → SqlxError
needs_array operator got =
    invalid_argument (operator ++ codes " operator requires an array of values, got " ++ got)

abbrev pub empty_array : Text → SqlxError
empty_array operator =
    invalid_argument (operator ++ codes " operator requires at least 1 value, got empty array")

abbrev pub contains_needs_string : SqlxError
contains_needs_string = invalid_argument (codes "Contains operator only supports string values")

abbrev pub between_text : Text
between_text = codes "Between"

abbrev pub in_text : Text
in_text = codes "In"

abbrev pub not_in_text : Text
not_in_text = codes "NotIn"

-- "%" ++ s ++ "%"
abbrev pub wrap_percent : Text → Text
wrap_percent s = b'%' ∷ (s ++ b'%' ∷ [])

abbrev lowered : Config → FilterValue → FilterValue
lowered cfg (FilterValue.string s) = FilterValue.string (cfg.to_lowercase s)
lowered cfg v = v

module _ {X : Type 0} (cfg : Config) where
  unfoldable pub ilike_expr : Database → Filter → M (Expr X)
  ilike_expr Database.postgres f = do
    e ← bind cfg.database f.value
    pure (Exprs.ilike f.field e f.negated)
  ilike_expr _ f = do
    e ← bind cfg.database (lowered cfg f.value)
    pure (Exprs.like_expr cfg.database (Exprs.lower_expr (Exprs.id f.field)) e)

  abbrev between_pair : Filter → List FilterValue → M (Expr X)
  between_pair f (low ∷ high ∷ []) = do
    l ← bind cfg.database low
    h ← bind cfg.database high
    pure (Exprs.between f.field l h f.negated)
  between_pair f values = fail (between_needs_two (length values))

  unfoldable pub between_expr : Filter → FilterValue → M (Expr X)
  between_expr f (FilterValue.array vs) = between_pair f (to_list vs)
  between_expr f v = fail (needs_array between_text (cfg.debug v))

  -- `In` and `NotIn` differ in the name that an error gives.
  unfoldable pub in_list_expr : Text → Filter → FilterValue → M (Expr X)
  in_list_expr operator f (FilterValue.array vs) =
      if is_empty (to_list vs)
      then fail (empty_array operator)
      else do es ← bind_all cfg.database (to_list vs); pure (Exprs.in_list f.field es f.negated)
  in_list_expr operator f v = fail (needs_array operator (cfg.debug v))

  unfoldable pub contains_expr : Filter → FilterValue → M (Expr X)
  contains_expr f (FilterValue.string s) = do
    e ← bind cfg.database (FilterValue.string (wrap_percent s))
    pure (Exprs.like cfg.database f.field e f.negated)
  contains_expr f v = fail contains_needs_string

  -- One round of the loop over filters, by the operator.
  unfoldable pub filter_expr : FilterOperator → Filter → M (Expr X)
  unfolding bind ilike_expr between_expr in_list_expr contains_expr
  filter_expr FilterOperator.eq f = do e ← bind cfg.database f.value; pure (Exprs.eq f.field e)
  filter_expr FilterOperator.ne f = do e ← bind cfg.database f.value; pure (Exprs.ne f.field e)
  filter_expr FilterOperator.gt f = do e ← bind cfg.database f.value; pure (Exprs.gt f.field e)
  filter_expr FilterOperator.gte f = do e ← bind cfg.database f.value; pure (Exprs.gte f.field e)
  filter_expr FilterOperator.lt f = do e ← bind cfg.database f.value; pure (Exprs.lt f.field e)
  filter_expr FilterOperator.lte f = do e ← bind cfg.database f.value; pure (Exprs.lte f.field e)
  filter_expr FilterOperator.like f = do
    e ← bind cfg.database f.value
    pure (Exprs.like cfg.database f.field e f.negated)
  filter_expr FilterOperator.unsafe_like f = do
    e ← bind cfg.database f.value
    pure (Exprs.unsafe_like f.field e f.negated)
  filter_expr FilterOperator.ilike f = ilike_expr cfg.database f
  filter_expr FilterOperator.between f = between_expr f f.value
  filter_expr FilterOperator.is_null f = pure (Exprs.is_null f.field)
  filter_expr FilterOperator.is_not_null f = pure (Exprs.is_not_null f.field)
  filter_expr FilterOperator.in_list f = in_list_expr in_text f f.value
  filter_expr FilterOperator.not_in f = in_list_expr not_in_text f f.value
  filter_expr FilterOperator.contains f = contains_expr f f.value

  unfoldable pub filter_exprs : List Filter → M (List (Expr X))
  filter_exprs [] = pure []
  filter_exprs (f ∷ fs) = do e ← filter_expr f.operator f; es ← filter_exprs fs; pure (e ∷ es)

  abbrev pub where_filters : Option FilterParams → M (List (Expr X))
  where_filters none = pure []
  where_filters (some p) = filter_exprs p.filters
