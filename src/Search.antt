-- ===== src/Search.antt =====
-- sqlx-data-params/src/search.rs
use sqlx_data.Prelude.{Text, Bool, false, List}

pub record SearchParams : Type 0 where
  pub query : Text
  pub fields : List Text
  pub case_sensitive : Bool
  pub exact_match : Bool

-- SearchParams::new
abbrev pub new : Text → List Text → SearchParams
new query fields = record {
  query = query;
  fields = fields;
  case_sensitive = false;
  exact_match = false;
}

abbrev pub with_case_sensitive : Bool → SearchParams → SearchParams
with_case_sensitive sensitive p = record p { case_sensitive = sensitive }

abbrev pub with_exact_match : Bool → SearchParams → SearchParams
with_exact_match exact p = record p { exact_match = exact }
