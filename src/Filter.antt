-- ===== src/Filter.antt =====
-- sqlx-data-params/src/filter.rs: operators and filters.
use sqlx_data.Prelude.{Text, Bool, false, List}
use sqlx_data.Value.{FilterValue, Into}

pub data FilterOperator : Type 0 where
  eq ne gt lt gte lte like ilike unsafe_like in_list not_in : FilterOperator
  is_null is_not_null between contains : FilterOperator

pub record Filter : Type 0 where
  pub field : Text
  pub operator : FilterOperator
  pub value : FilterValue
  pub negated : Bool

-- Filter::new
abbrev pub new {ℓ} : {A : Type ℓ} ⦃i : Into A⦄ → Text → FilterOperator → A → Filter
new ⦃i⦄ field operator value = record {
  field = field;
  operator = operator;
  value = i.into value;
  negated = false;
}

pub record FilterParams : Type 0 where
  pub filters : List Filter
