-- ===== src/Builder/Searches.antt =====
-- sqlx-data-params/src/builder.rs: `SearchBuilder`.
use sqlx_data.Prelude.{Text, Bool, Option, none, some, List, [], is_empty, if◌then◌else◌}
use sqlx_data.Search
use sqlx_data.Search.{SearchParams}
use sqlx_data.Params
use sqlx_data.Params.{IntoParams, Params}
use sqlx_data.Builder.Root.{HasParams}

pub record SearchBuilder (P : Type 0) : Type 0 where
  pub parent : Option P
  pub search : SearchParams

-- SearchBuilder::new
abbrev pub new : SearchBuilder (Unit {0})
new = record { parent = none; search = Search.new [] [] }

abbrev pub build : SearchBuilder (Unit {0}) → SearchParams
build b = b.search

module _ {P : Type 0} where
  unfoldable pub with_parent : P → SearchBuilder P
  with_parent parent = record { parent = some parent; search = Search.new [] [] }

  unfoldable pub query : Text → SearchBuilder P → SearchBuilder P
  query q b = let s = b.search in record b { search = record s { query = q } }

  unfoldable pub search : Text → List Text → SearchBuilder P → SearchBuilder P
  search q fields b =
      let s = b.search in record b { search = record s { query = q; fields = fields } }

  unfoldable pub fields : List Text → SearchBuilder P → SearchBuilder P
  fields fs b = let s = b.search in record b { search = record s { fields = fs } }

  unfoldable pub exact : Bool → SearchBuilder P → SearchBuilder P
  exact flag b = record b { search = Search.with_exact_match flag b.search }

  unfoldable pub case_sensitive : Bool → SearchBuilder P → SearchBuilder P
  case_sensitive flag b = record b { search = Search.with_case_sensitive flag b.search }

module _ {P : Type 0} ⦃h : HasParams P⦄ where
  abbrev add_to : SearchParams → P → P
  add_to s parent =
      let p = h.read parent in
      if is_empty s.query then parent else h.write (record p { search = some s }) parent

  unfoldable pub done : SearchBuilder P → Option P
  done b = elim b.parent [ none ↦ none | some parent ↦ some (add_to b.search parent) ]

instance abbrev pub from_search_builder : IntoParams (SearchBuilder (Unit {0}))
from_search_builder = record {
  into_params = λ b. record Params.default {
    search = if is_empty b.search.query then none else some b.search;
  };
}
