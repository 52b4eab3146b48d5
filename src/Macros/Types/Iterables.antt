-- ===== src/Macros/Types/Iterables.antt =====
-- sqlx-data-macros/src/type_analyzer.rs: collections among the parameters, wrapped types, and the names and
-- types in the columns of a query.
use sqlx_data.Prelude.{
  ◌==◌, Text, codes, text_eq, contains, Bool, true, false, List, [], ◌∷◌, Option, none, some,
  is_some, ◌>>=?◌, ◌or◌, if◌then◌else◌,
}
use sqlx_data.Prelude.Texts.Methods.{has_char, split_once, trim, trim_end_matches}
use sqlx_data.Macros.Syntax.{
  Ty, path, impl_trait, tuple, reference, slice, array, Segments, no_segment, segment, no_arguments,
  GenericArguments, no_argument, type_argument, assoc_type, other_argument, Bounds, no_bound,
  trait_bound, other_bound, Generics, WherePredicate, type_predicate, other_predicate, last_segment,
  first_type, item_type, angle_of,
}
use sqlx_data.Macros.Types.{path_ends_with, last_ident}

-- Of the feature sqlite.
abbrev integers : List Text
integers =
    codes "u64"
    ∷ codes "u32"
    ∷ codes "u16"
    ∷ codes "u8"
    ∷ codes "usize"
    ∷ codes "i32"
    ∷ codes "i16"
    ∷ codes "i8"
    ∷ codes "isize"
    ∷ []

module _ {X : Type 0} where
  -- The arguments of the last segment.
  abbrev pub last_arguments : Segments X → Option (GenericArguments X)
  last_arguments segments = last_segment segments >>=? λ s. angle_of (s.1)

  unfoldable pub is_bytes_type : Ty X → Bool
  is_bytes_type (path segments) = path_ends_with segments (codes "Bytes")
  is_bytes_type _ = false

  unfoldable pub get_vec_inner_type : Ty X → Option (Ty X)
  get_vec_inner_type (path segments) =
      if path_ends_with segments (codes "Vec")
      then (last_arguments segments >>=? first_type)
      else none
  get_vec_inner_type _ = none

  unfoldable pub extract_into_iterator_item_type : Bounds X → Option (Ty X)
  extract_into_iterator_item_type no_bound = none
  extract_into_iterator_item_type (other_bound x rest) = extract_into_iterator_item_type rest
  extract_into_iterator_item_type (trait_bound segments rest) =
      let later = extract_into_iterator_item_type rest in
      if path_ends_with segments (codes "IntoIterator")
      then ((last_arguments segments >>=? item_type) or later)
      else later

  abbrev slice_element : Ty X → Option (Ty X)
  slice_element (slice t) = some t
  slice_element _ = none

  unfoldable pub get_iterable_inner_type : Ty X → Option (Ty X)
  unfolding get_vec_inner_type extract_into_iterator_item_type
  get_iterable_inner_type (path segments) = get_vec_inner_type (path segments)
  get_iterable_inner_type (reference mutability t) = slice_element t
  get_iterable_inner_type (array t len) = some t
  get_iterable_inner_type (impl_trait bounds) = extract_into_iterator_item_type bounds
  get_iterable_inner_type _ = none

  abbrev pub is_tuple_type : Ty X → Bool
  is_tuple_type (tuple ts) = true
  is_tuple_type _ = false

  abbrev is_tuple_or_reference : Ty X → Bool
  is_tuple_or_reference (reference mutability t) = is_tuple_type t
  is_tuple_or_reference t = is_tuple_type t

  abbrev pub tuple_item : GenericArguments X → Option (Ty X)
  tuple_item no_argument = none
  tuple_item (type_argument t rest) = tuple_item rest
  tuple_item (other_argument x rest) = tuple_item rest
  tuple_item (assoc_type name t rest) =
      let later = tuple_item rest in
      if text_eq name (codes "Item")
      then (if is_tuple_or_reference t then some t else later)
      else later

  unfoldable pub tuple_bound : Bounds X → Option (Ty X)
  tuple_bound no_bound = none
  tuple_bound (other_bound x rest) = tuple_bound rest
  tuple_bound (trait_bound segments rest) =
      let later = tuple_bound rest in
      if path_ends_with segments (codes "IntoIterator")
      then ((last_arguments segments >>=? tuple_item) or later)
      else later

  unfoldable pub tuple_predicate : Text → List (WherePredicate X) → Option (Ty X)
  unfolding tuple_bound
  tuple_predicate name [] = none
  tuple_predicate name (other_predicate x ∷ predicates) = tuple_predicate name predicates
  tuple_predicate name (type_predicate (path segments) bounds ∷ predicates) =
      let later = tuple_predicate name predicates in
      if path_ends_with segments name then (tuple_bound bounds or later) else later
  tuple_predicate name (type_predicate t bounds ∷ predicates) = tuple_predicate name predicates

  abbrev pub extract_tuple_from_where_clause : Generics X → Text → Option (Ty X)
  extract_tuple_from_where_clause generics name = generics.where_clause >>=? tuple_predicate name

  -- A path of one segment may be a type parameter.
  abbrev pub is_tuple_parameter : Ty X → Generics X → Bool
  is_tuple_parameter (path (segment name args no_segment)) generics =
      is_some (extract_tuple_from_where_clause generics name)
  is_tuple_parameter _ generics = false

  unfoldable pub is_tuple_iterable_type : Ty X → Generics X → Bool
  unfolding get_iterable_inner_type tuple_predicate
  is_tuple_iterable_type t generics = elim (get_iterable_inner_type t) [
    | some inner ↦ is_tuple_type inner
    | none ↦ is_tuple_parameter t generics
  ]

  unfoldable pub is_path_u8 : Ty X → Bool
  is_path_u8 (path segments) = path_ends_with segments (codes "u8")
  is_path_u8 _ = false

  abbrev u8_inside : Option (Ty X) → Bool
  u8_inside none = false
  u8_inside (some inner) = is_path_u8 inner

  unfoldable pub is_vec_u8_type : Ty X → Bool
  unfolding get_vec_inner_type is_path_u8
  is_vec_u8_type t = u8_inside (get_vec_inner_type t)

  unfoldable pub is_already_json_wrapped : Ty X → Bool
  is_already_json_wrapped (path segments) = path_ends_with segments (codes "Json")
  is_already_json_wrapped _ = false

  abbrev into_bound : Bounds X → Option (Ty X)
  into_bound no_bound = none
  into_bound (other_bound x rest) = into_bound rest
  into_bound (trait_bound segments rest) =
      let later = into_bound rest in
      if path_ends_with segments (codes "Into")
      then ((last_arguments segments >>=? first_type) or later)
      else later

  unfoldable pub extract_impl_into_type : Ty X → Option (Ty X)
  extract_impl_into_type (impl_trait bounds) = into_bound bounds
  extract_impl_into_type _ = none

  unfoldable pub extract_option_type : Ty X → Option (Ty X)
  extract_option_type (path segments) =
      if path_ends_with segments (codes "Option")
      then (last_arguments segments >>=? first_type)
      else none
  extract_option_type _ = none

  abbrev simple : Text → Ty X
  simple name = path (segment name no_arguments no_segment)

  abbrev native_of : Bool → Option Text → Ty X → Ty X
  native_of true (some ident) t =
      if contains integers ident
      then simple (codes "i64")
      else if text_eq ident (codes "f32")
      then simple (codes "f64")
      else if text_eq ident (codes "bool")
      then simple (codes "i64")
      else t
  native_of _ _ t = t

  unfoldable pub native_type : Bool → Ty X → Ty X
  native_type sqlite (path segments) = native_of sqlite (last_ident segments) (path segments)
  native_type sqlite t = t

abbrev before_colon : Text → Option (Text × Text) → Text
before_colon full_name none = full_name
before_colon full_name (some (name, type_part)) = trim name

unfoldable pub extract_column_name : Text → Text
unfolding split_once trim trim_end_matches
extract_column_name full_name =
    trim_end_matches (λ c. c == b'!') (before_colon full_name (split_once b':' full_name))

unfoldable pub has_explicit_sqlx_type : Text → Bool
has_explicit_sqlx_type column_name = has_char column_name b':'
