-- ===== src/Builder/Filters.antt =====
-- sqlx-data-params/src/builder.rs: `FilterBuilder`.
use sqlx_data.Prelude.{
  Text, true, Option, none, some, List, [], ◌∷◌, ◌++◌, is_empty, update_last, if◌then◌else◌,
}
use sqlx_data.Value.{FilterValue, array, null, string, Elements, of_list, from_value}
use sqlx_data.Filter
use sqlx_data.Filter.{Filter, FilterOperator, FilterParams}
use sqlx_data.Params
use sqlx_data.Params.{IntoParams, Params}
use sqlx_data.Builder.Root.{HasParams}

pub record FilterBuilder (P : Type 0) : Type 0 where
  pub parent : Option P
  pub filters : FilterParams

-- FilterBuilder::new
abbrev pub new : FilterBuilder (Unit {0})
new = record { parent = none; filters = record { filters = [] } }

abbrev negate : Filter → Filter
negate f = record f { negated = true }

abbrev pub build : FilterBuilder (Unit {0}) → FilterParams
build b = b.filters

module _ {P : Type 0} where
  unfoldable pub with_parent : P → FilterBuilder P
  with_parent parent = record { parent = some parent; filters = record { filters = [] } }

  unfoldable pub push : Text → FilterOperator → FilterValue → FilterBuilder P → FilterBuilder P
  push field op value b =
      let fs = b.filters in
      record b { filters = record fs { filters = fs.filters ++ Filter.new field op value ∷ [] } }

  unfoldable pub eq : Text → FilterValue → FilterBuilder P → FilterBuilder P
  eq field value = push field FilterOperator.eq value

  unfoldable pub ne : Text → FilterValue → FilterBuilder P → FilterBuilder P
  ne field value = push field FilterOperator.ne value

  unfoldable pub gt : Text → FilterValue → FilterBuilder P → FilterBuilder P
  gt field value = push field FilterOperator.gt value

  unfoldable pub lt : Text → FilterValue → FilterBuilder P → FilterBuilder P
  lt field value = push field FilterOperator.lt value

  unfoldable pub gte : Text → FilterValue → FilterBuilder P → FilterBuilder P
  gte field value = push field FilterOperator.gte value

  unfoldable pub lte : Text → FilterValue → FilterBuilder P → FilterBuilder P
  lte field value = push field FilterOperator.lte value

  unfoldable pub like : Text → Text → FilterBuilder P → FilterBuilder P
  like field pat = push field FilterOperator.like (string pat)

  unfoldable pub ilike : Text → Text → FilterBuilder P → FilterBuilder P
  ilike field pat = push field FilterOperator.ilike (string pat)

  unfoldable pub like_pattern : Text → Text → FilterBuilder P → FilterBuilder P
  like_pattern field pat = push field FilterOperator.unsafe_like (string pat)

  -- `r#in` and its alias `in_values`
  unfoldable pub in_values : Text → List FilterValue → FilterBuilder P → FilterBuilder P
  in_values field values = push field FilterOperator.in_list (array (of_list values))

  unfoldable pub not_in : Text → List FilterValue → FilterBuilder P → FilterBuilder P
  not_in field values = push field FilterOperator.not_in (array (of_list values))

  unfoldable pub between : Text → FilterValue → FilterValue → FilterBuilder P → FilterBuilder P
  between field min max =
      push field FilterOperator.between (array (Elements.cons min (Elements.cons max Elements.nil)))

  unfoldable pub is_null : Text → FilterBuilder P → FilterBuilder P
  is_null field = push field FilterOperator.is_null null

  unfoldable pub is_not_null : Text → FilterBuilder P → FilterBuilder P
  is_not_null field = push field FilterOperator.is_not_null null

  unfoldable pub contains : Text → FilterValue → FilterBuilder P → FilterBuilder P
  contains field value = push field FilterOperator.contains value

  unfoldable pub not : FilterBuilder P → FilterBuilder P
  not b =
      let fs = b.filters in
      record b { filters = record fs { filters = update_last negate fs.filters } }

abbrev merge : Option FilterParams → FilterParams → FilterParams
merge none fs = fs
merge (some existing) fs = record existing { filters = existing.filters ++ fs.filters }

module _ {P : Type 0} ⦃h : HasParams P⦄ where
  abbrev add_to : FilterParams → P → P
  add_to fs parent =
      let p = h.read parent in h.write (record p { filters = some (merge p.filters fs) }) parent

  unfoldable pub done : FilterBuilder P → Option P
  done b = elim b.parent [ none ↦ none | some parent ↦ some (add_to b.filters parent) ]

instance abbrev pub from_filter_builder : IntoParams (FilterBuilder (Unit {0}))
from_filter_builder = record {
  into_params = λ b. record Params.default {
    filters = if is_empty b.filters.filters then none else some b.filters;
  };
}
