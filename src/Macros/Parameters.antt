-- ===== src/Macros/Parameters.antt =====
-- sqlx-data-macros/src/dml.rs: the parameters of a method, and which of them are executors, dynamic
-- parameters or generic.
pub mod Extracted
use sqlx_data.Prelude.{
  ◌==◌, Text, codes, text_eq, contains, Bool, true, false, not, ◌&&◌, ◌||◌, List, [], ◌∷◌, ◌++◌,
  length, Option, none, some, if◌then◌else◌,
}
use sqlx_data.Prelude.Texts.Methods.{ends_with}
use sqlx_data.Error.{Result, ok, err, ◌>>=◌}
use sqlx_data.Macros.SynResult.{SynResult}
use sqlx_data.Macros.Syntax.{
  Ty, path, impl_trait, tuple, reference, slice, array, other_type, Segments, no_segment, segment,
  Arguments, no_arguments, angle_bracketed, parenthesized, Bounds, no_bound, trait_bound,
  other_bound, WherePredicate, type_predicate, other_predicate, GenericParam, type_param,
  other_param, Generics, last_segment, idents,
}

pub record DmlParameter (X : Type 0) : Type 0 where
  pub name : Text
  pub type_of : Ty X
  pub is_pool : Bool
  pub is_dynamic_param : Bool
  pub is_generic : Bool

-- `FnArg`: `self`, a simple name with its type, or another pattern.
pub data FnArg (X : Type 0) : Type 0 where
  receiver : FnArg X
  typed : Text → Ty X → FnArg X
  other_pattern : Ty X → FnArg X

abbrev texts_eq : List Text → List Text → Bool
texts_eq [] [] = true
texts_eq (s ∷ ss) (t ∷ ts) = text_eq s t && texts_eq ss ts
texts_eq _ _ = false

abbrev is_executor_path : List Text → Bool
is_executor_path names =
    texts_eq names (codes "Executor" ∷ [])
    || texts_eq names (codes "sqlx" ∷ codes "Executor" ∷ [])
    || texts_eq names (codes "sqlx_data" ∷ codes "Executor" ∷ [])

abbrev dynamic_types : List Text
dynamic_types =
    codes "Params"
    ∷ codes "SearchParams"
    ∷ codes "PaginationParams"
    ∷ codes "SortingParams"
    ∷ codes "FilterParams"
    ∷ codes "CursorParams"
    ∷ codes "SerialParams"
    ∷ codes "SliceParams"
    ∷ codes "ParamsBuilder"
    ∷ []

module _ {X : Type 0} where
  unfoldable pub implements_sqlx_executor : Bounds X → Bool
  implements_sqlx_executor no_bound = false
  implements_sqlx_executor (other_bound x rest) = implements_sqlx_executor rest
  implements_sqlx_executor (trait_bound segments rest) =
      is_executor_path (idents segments) || implements_sqlx_executor rest

  abbrev is_angle : Arguments X → Bool
  is_angle (angle_bracketed args) = true
  is_angle _ = false

  abbrev is_concrete_segment : Option (Text × Arguments X) → Bool
  is_concrete_segment none = false
  is_concrete_segment (some (name, args)) =
      if text_eq name (codes "Pool")
      then true
      else if text_eq name (codes "Transaction")
      then is_angle args
      else ends_with name (codes "Connection")

  unfoldable pub is_concrete_sqlx_executor_type : Ty X → Bool
  is_concrete_sqlx_executor_type (path segments) = is_concrete_segment (last_segment segments)
  is_concrete_sqlx_executor_type _ = false

  abbrev has_bounds : Bounds X → Bool
  has_bounds no_bound = false
  has_bounds _ = true

  -- The bounds written at the first parameter of the name, if there are any.
  abbrev inline_bounds : Text → List (GenericParam X) → Option (Bounds X)
  inline_bounds name [] = none
  inline_bounds name (other_param x ∷ params) = inline_bounds name params
  inline_bounds name (type_param ident bounds ∷ params) =
      let later = inline_bounds name params in
      if text_eq ident name then (if has_bounds bounds then some bounds else none) else later

  abbrev is_for : Text → Option (Text × Arguments X) → Bool
  is_for name none = false
  is_for name (some (ident, args)) = text_eq ident name

  -- The bounds of the first predicate on the name.
  abbrev where_bounds : Text → List (WherePredicate X) → Option (Bounds X)
  where_bounds name [] = none
  where_bounds name (other_predicate x ∷ predicates) = where_bounds name predicates
  where_bounds name (type_predicate (path segments) bounds ∷ predicates) =
      let later = where_bounds name predicates in
      if is_for name (last_segment segments) then some bounds else later
  where_bounds name (type_predicate t bounds ∷ predicates) = where_bounds name predicates

  abbrev executor_bounds : Option (Bounds X) → Bool
  executor_bounds none = false
  executor_bounds (some bounds) = implements_sqlx_executor bounds

  abbrev where_executor : Text → Option (List (WherePredicate X)) → Bool
  where_executor name none = false
  where_executor name (some predicates) = executor_bounds (where_bounds name predicates)

  unfoldable pub is_generic_executor : Text → Generics X → Bool
  unfolding implements_sqlx_executor
  is_generic_executor name generics = elim (inline_bounds name generics.params) [
    | some bounds ↦ implements_sqlx_executor bounds
    | none ↦ where_executor name generics.where_clause
  ]

  abbrev is_executor_path_type : Segments X → Generics X → Option (Text × Arguments X) → Bool
  is_executor_path_type segments generics none = false
  is_executor_path_type segments generics (some (name, args)) =
      is_generic_executor name generics || is_concrete_sqlx_executor_type (path segments)

  unfoldable pub is_sqlx_executor_type : Ty X → Generics X → Bool
  unfolding implements_sqlx_executor is_concrete_sqlx_executor_type is_generic_executor
  is_sqlx_executor_type (impl_trait bounds) generics = implements_sqlx_executor bounds
  is_sqlx_executor_type (reference mutability t) generics = is_concrete_sqlx_executor_type t
  is_sqlx_executor_type (path segments) generics =
      is_executor_path_type segments generics (last_segment segments)
  is_sqlx_executor_type _ generics = false

  abbrev is_type_param : Text → List (GenericParam X) → Bool
  is_type_param name [] = false
  is_type_param name (other_param x ∷ params) = is_type_param name params
  is_type_param name (type_param ident bounds ∷ params) =
      text_eq ident name || is_type_param name params

  unfoldable pub is_generic_type : Ty X → Generics X → Bool
  is_generic_type (impl_trait bounds) generics = true
  is_generic_type (path (segment name no_arguments no_segment)) generics =
      is_type_param name generics.params
  is_generic_type _ generics = false

  abbrev is_into_params : Option (Text × Arguments X) → Bool
  is_into_params none = false
  is_into_params (some (name, args)) = text_eq name (codes "IntoParams")

  abbrev has_into_params : Bounds X → Bool
  has_into_params no_bound = false
  has_into_params (other_bound x rest) = has_into_params rest
  has_into_params (trait_bound segments rest) =
      is_into_params (last_segment segments) || has_into_params rest

  abbrev is_dynamic_name : Option (Text × Arguments X) → Bool
  is_dynamic_name none = false
  is_dynamic_name (some (name, args)) = contains dynamic_types name

  unfoldable pub is_dynamic_param_type : Ty X → Bool
  is_dynamic_param_type (impl_trait bounds) = has_into_params bounds
  is_dynamic_param_type (path segments) = is_dynamic_name (last_segment segments)
  is_dynamic_param_type _ = false

  unfoldable pub parameter_of : Text → Ty X → Generics X → DmlParameter X
  unfolding is_sqlx_executor_type is_dynamic_param_type is_generic_type
  parameter_of name t generics = record {
    name = name;
    type_of = t;
    is_pool = is_sqlx_executor_type t generics;
    is_dynamic_param = is_dynamic_param_type t;
    is_generic = is_generic_type t generics;
  }

  -- The loop, with `has_pool` and the parameters so far.
  unfoldable pub extract_from :
      List (FnArg X) → Generics X → Bool → List (DmlParameter X) → SynResult (List (DmlParameter X))
  unfolding parameter_of
  extract_from [] generics has_pool params = ok params
  extract_from (receiver ∷ inputs) generics has_pool params =
      extract_from inputs generics has_pool params
  extract_from (other_pattern t ∷ inputs) generics has_pool params =
      err (codes "Only simple parameter names are supported")
  extract_from (typed name t ∷ inputs) generics has_pool params =
      let p = parameter_of name t generics in
      let rest = extract_from inputs generics (p.is_pool || has_pool) (params ++ p ∷ []) in
      if p.is_pool && has_pool
      then err (codes "Only one pool parameter is allowed per method")
      else rest

  unfoldable pub extract_parameters :
      List (FnArg X) → Generics X → SynResult (List (DmlParameter X))
  unfolding extract_from
  extract_parameters inputs generics = extract_from inputs generics false []
