-- ===== src/Macros/Returns.antt =====
-- sqlx-data-macros/src/dml.rs: `ReturnTypeInfo`, what a method caches about its return type.
pub mod Pages
pub mod Structs
pub mod Agreement
use sqlx_data.Prelude.{
  Text, codes, text_eq, contains, Bool, true, false, ◌||◌, List, [], ◌∷◌, Option, none, some,
  ◌>>=?◌, ◌or◌, if◌then◌else◌,
}
use sqlx_data.Macros.Syntax.{
  Ty, path, impl_trait, tuple, reference, slice, array, other_type, Segments, no_segment, segment,
  Arguments, no_arguments, angle_bracketed, parenthesized, GenericArguments, no_argument,
  type_argument, assoc_type, other_argument, Bounds, no_bound, trait_bound, other_bound, Tys,
  no_type, last_segment, first_type, item_type, angle_of,
}
use sqlx_data.Macros.Types.{pagination_types, path_ends_with}

abbrev unwrapped : List Text
unwrapped = codes "Result" ∷ codes "Vec" ∷ codes "Option" ∷ []

-- The generic types that are looked through.
abbrev pub should_unwrap : Text → Bool
should_unwrap name = contains unwrapped name || contains pagination_types name

abbrev pub is_item_or_first : {X : Type 0} → GenericArguments X → Option (Ty X)
is_item_or_first args = item_type args or first_type args

unfoldable mutual
  -- The loop of `extract_inner_type`: a type that is looked through is replaced by its first
  -- argument. The items of a Stream end the loop.
  pub extract_inner_type : {X : Type 0} → Ty X → Ty X
  extract_inner_type (path segments) = elim (inner_of_path segments) [
    | some t ↦ t
    | none ↦ path segments
  ]
  extract_inner_type (impl_trait bounds) = elim (item_of_stream bounds) [
    | some t ↦ t
    | none ↦ impl_trait bounds
  ]
  extract_inner_type (tuple ts) = tuple ts
  extract_inner_type (reference mutability t) = reference mutability t
  extract_inner_type (slice t) = slice t
  extract_inner_type (array t len) = array t len
  extract_inner_type (other_type x) = other_type x

  pub inner_of_path : {X : Type 0} → Segments X → Option (Ty X)
  inner_of_path no_segment = none
  inner_of_path (segment name args no_segment) =
      let inner = inner_of_arguments args in if should_unwrap name then inner else none
  inner_of_path (segment name args (segment name' args' rest)) =
      inner_of_path (segment name' args' rest)

  pub inner_of_arguments : {X : Type 0} → Arguments X → Option (Ty X)
  inner_of_arguments no_arguments = none
  inner_of_arguments (parenthesized x) = none
  inner_of_arguments (angle_bracketed args) = inner_of_first args

  pub inner_of_first : {X : Type 0} → GenericArguments X → Option (Ty X)
  inner_of_first (type_argument t rest) = some (extract_inner_type t)
  inner_of_first no_argument = none
  inner_of_first (assoc_type name t rest) = none
  inner_of_first (other_argument x rest) = none

  pub item_of_stream : {X : Type 0} → Bounds X → Option (Ty X)
  item_of_stream no_bound = none
  item_of_stream (other_bound x rest) = item_of_stream rest
  item_of_stream (trait_bound segments rest) =
      let later = item_of_stream rest in
      elim (last_segment segments) [
        | none ↦ later
        | some (name, args) ↦
            if text_eq name (codes "Stream")
            then ((angle_of args >>=? is_item_or_first) or later)
            else later
      ]

module _ {X : Type 0} where
  abbrev pub arguments_of : Text × Arguments X → Option (GenericArguments X)
  arguments_of (name, args) = angle_of args

  -- `extract_first_type_arg`, also `extract_ok_type_from_inner`. Of a bound that is no generic, or
  -- whose arguments hold no type, the next one is tried.
  unfoldable pub extract_from_bounds : Bounds X → Option (Ty X)
  extract_from_bounds no_bound = none
  extract_from_bounds (other_bound x rest) = extract_from_bounds rest
  extract_from_bounds (trait_bound segments rest) =
      (last_segment segments >>=? arguments_of >>=? is_item_or_first) or extract_from_bounds rest

  unfoldable pub extract_first_type_arg : Ty X → Option (Ty X)
  unfolding extract_from_bounds
  extract_first_type_arg (path segments) = last_segment segments >>=? arguments_of >>=? first_type
  extract_first_type_arg (impl_trait bounds) = extract_from_bounds bounds
  extract_first_type_arg (tuple ts) = none
  extract_first_type_arg (reference mutability t) = none
  extract_first_type_arg (slice t) = none
  extract_first_type_arg (array t len) = none
  extract_first_type_arg (other_type x) = none

  abbrev last_name : Ty X → Option Text
  last_name (path segments) = last_segment segments >>=? λ s. some (s.0)
  last_name _ = none

  unfoldable pub extract_ok_type_name : Option (Ty X) → Option Text
  extract_ok_type_name ok_type = ok_type >>=? last_name

  abbrev has_stream : Bounds X → Bool
  has_stream no_bound = false
  has_stream (other_bound x rest) = has_stream rest
  has_stream (trait_bound segments rest) =
      path_ends_with segments (codes "Stream") || has_stream rest

  unfoldable pub check_is_stream_type : Ty X → Bool
  check_is_stream_type (impl_trait bounds) = has_stream bounds
  check_is_stream_type _ = false

  abbrev pub is_tuple_type : Ty X → Bool
  is_tuple_type (tuple ts) = true
  is_tuple_type _ = false

  unfoldable pub check_is_tuple : Ty X → Option (Ty X) → Bool
  check_is_tuple inner none = is_tuple_type inner
  check_is_tuple inner (some t) = is_tuple_type t

unfoldable pub check_is_pagination : Option Text → Bool
check_is_pagination none = false
check_is_pagination (some name) = contains pagination_types name

pub record ReturnTypeInfo (X : Type 0) : Type 0 where
  pub inner : Ty X
  pub is_tuple : Bool
  pub is_stream : Bool
  pub ok_type : Option (Ty X)
  pub ok_type_from_inner : Option (Ty X)
  pub ok_type_name : Option Text
  pub is_pagination : Bool

module _ {X : Type 0} where
  abbrev pub default_unit : ReturnTypeInfo X
  default_unit = record {
    inner = tuple no_type;
    is_tuple = true;
    is_stream = false;
    ok_type = none;
    ok_type_from_inner = none;
    ok_type_name = none;
    is_pagination = false;
  }

  -- `ReturnTypeInfo::analyze`
  unfoldable pub analyze : Option (Ty X) → ReturnTypeInfo X
  unfolding extract_inner_type extract_first_type_arg extract_ok_type_name check_is_stream_type
      check_is_tuple check_is_pagination
  analyze none = default_unit
  analyze (some t) = record {
    inner = extract_inner_type t;
    is_tuple =
        check_is_tuple (extract_inner_type t) (extract_first_type_arg (extract_inner_type t));
    is_stream = check_is_stream_type t;
    ok_type = extract_first_type_arg t;
    ok_type_from_inner = extract_first_type_arg (extract_inner_type t);
    ok_type_name = extract_ok_type_name (extract_first_type_arg t);
    is_pagination = check_is_pagination (extract_ok_type_name (extract_first_type_arg t));
  }

  abbrev tuple_elements : Ty X → Option (Tys X)
  tuple_elements (tuple ts) = some ts
  tuple_elements _ = none

  -- `get_ok_type` of a method: of a stream, what its items are a result of.
  abbrev pub get_ok_type : ReturnTypeInfo X → Option (Ty X)
  get_ok_type info = if info.is_stream then info.ok_type_from_inner else info.ok_type

  -- `parse_tuple_types`; `none` is its error.
  abbrev pub parse_tuple_types : ReturnTypeInfo X → Option (Tys X)
  parse_tuple_types info = elim (info.ok_type_from_inner) [
    | some t ↦ tuple_elements t
    | none ↦ tuple_elements info.inner
  ]
