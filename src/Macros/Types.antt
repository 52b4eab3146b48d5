-- ===== src/Macros/Types.antt =====
-- sqlx-data-macros/src/type_analyzer.rs: `TypeAnalyzer` and the names of columns. With the feature
-- postgres there are more scalar types; these are a parameter of the definitions that look at them.
pub mod Analysis
pub mod Strategy
pub mod Total
pub mod Iterables
use sqlx_data.Prelude.{
  ℕ, Text, codes, text_eq, contains, Bool, true, false, not, ◌&&◌, ◌||◌, List, [], ◌∷◌, ◌++◌, map,
  Option, none, some, is_some, ◌>>=?◌, if◌then◌else◌,
}
use sqlx_data.Prelude.Texts.Methods.{join, ends_with, has_char, split_once, trim, trim_end_matches}
use sqlx_data.Prelude.{◌==◌}
use sqlx_data.Error.{Result, ok, err, ◌>>=◌}
use sqlx_data.Macros.SynResult.{SynResult}
use sqlx_data.Macros.Syntax.{
  Ty, path, impl_trait, tuple, reference, slice, array, other_type, Segments, no_segment, segment,
  Arguments, no_arguments, angle_bracketed, parenthesized, GenericArguments, no_argument,
  type_argument, assoc_type, other_argument, Bounds, no_bound, trait_bound, other_bound, Tys,
  no_type, type_element, Generics, WherePredicate, last_segment, idents, first_type, item_type,
  angle_of,
}

-- sqlx-data-macros/src/constants.rs: `pagination::ALL_TYPES`.
abbrev pub pagination_types : List Text
pagination_types = codes "Serial" ∷ codes "Slice" ∷ codes "Cursor" ∷ []

mutual
  pub data ReturnType : Type 0 where
    scalar struct unknown : Text → ReturnType
    tuple_of : ReturnTypes → ReturnType
    vec option stream : ReturnType → ReturnType
    result : ReturnType → ReturnType → ReturnType
    unit : ReturnType

  pub data ReturnTypes : Type 0 where
    no_returns : ReturnTypes
    returns : ReturnType → ReturnTypes → ReturnTypes

pub data QueryType : Type 0 where
  query_as query_scalar query : QueryType

pub data FetchMethod : Type 0 where
  execute fetch_one fetch_all fetch_optional fetch : FetchMethod

abbrev pub basic_scalars : List Text
basic_scalars =
    codes "i8"
    ∷ codes "i16"
    ∷ codes "i32"
    ∷ codes "i64"
    ∷ codes "i128"
    ∷ codes "u8"
    ∷ codes "u16"
    ∷ codes "u32"
    ∷ codes "u64"
    ∷ codes "u128"
    ∷ codes "f32"
    ∷ codes "f64"
    ∷ codes "bool"
    ∷ codes "char"
    ∷ codes "usize"
    ∷ codes "isize"
    ∷ codes "String"
    ∷ []

abbrev pub common_scalars : List Text
common_scalars =
    codes "Cow"
    ∷ codes "Uuid"
    ∷ codes "Hyphenated"
    ∷ codes "Simple"
    ∷ codes "Decimal"
    ∷ codes "BigDecimal"
    ∷ codes "Decimal"
    ∷ codes "Time"
    ∷ codes "Date"
    ∷ codes "DateTime"
    ∷ codes "NaiveDateTime"
    ∷ codes "NaiveDate"
    ∷ codes "NaiveTime"
    ∷ codes "PrimitiveDateTime"
    ∷ codes "OffsetDateTime"
    ∷ codes "Timestamp"
    ∷ codes "Span"
    ∷ codes "MacAddress"
    ∷ codes "Blob"
    ∷ codes "IpNet"
    ∷ codes "Ipv4Net"
    ∷ codes "Ipv6Net"
    ∷ codes "IpNetwork"
    ∷ codes "BitVec"
    ∷ codes "BString"
    ∷ codes "JsonValue"
    ∷ []

-- What the feature postgres adds: scalars without arguments, and with.
pub record Extra : Type 0 where
  pub plain : List Text
  pub generic : List Text

abbrev pub no_extra : Extra
no_extra = record { plain = []; generic = [] }

abbrev maps : List Text
maps = codes "HashMap" ∷ codes "BTreeMap" ∷ codes "IndexMap" ∷ codes "HashSet" ∷ []

abbrev pub empty_path : SynResult ReturnType
empty_path = ok (unknown (codes "empty_path"))

abbrev is_ident : Text → Option Text → Bool
is_ident name none = false
is_ident name (some ident) = text_eq ident name

abbrev no_segments : SynResult ReturnType
no_segments = err (codes "Path has no segments")

-- `types.len()`
abbrev pub result_of : Text → List ReturnType → ReturnType
result_of shown (t ∷ e ∷ []) = result t e
result_of shown (t ∷ []) = result t (unknown (codes "sqlx_data::Error"))
result_of shown _ = unknown shown

abbrev vec_of : Option ReturnType → ReturnType
vec_of (some t) = vec t
vec_of none = unknown (codes "Vec<?>")

abbrev option_of : Option ReturnType → ReturnType
option_of (some t) = option t
option_of none = unknown (codes "Option<?>")

abbrev pub or_error : SynResult ReturnType → ReturnType
or_error (ok t) = t
or_error (err e) = unknown (codes "tuple_element_error")

abbrev pub stream_or : Option (SynResult ReturnType) → SynResult ReturnType → SynResult ReturnType
stream_or none later = later
stream_or (some r) later = r >>= λ t. ok (stream t)

-- Of the types among the arguments: the first, and all.
abbrev pub named :
    (extra : Extra) (name shown : Text)
    → SynResult (Option ReturnType)
    → SynResult (List ReturnType)
    → SynResult ReturnType
named extra name shown inner all =
    if text_eq name (codes "Vec")
    then (inner >>= λ o. ok (vec_of o))
    else if text_eq name (codes "Option")
    then (inner >>= λ o. ok (option_of o))
    else if text_eq name (codes "Result")
    then (all >>= λ types. ok (result_of shown types))
    else if text_eq name (codes "Page")
    then ok (unknown (codes "Page_deprecated"))
    else if contains maps name
    then ok (struct name)
    else if contains pagination_types name
    then ok (struct name)
    else if text_eq name (codes "DateTime")
    then ok (scalar name)
    else if text_eq name (codes "Json")
    then ok (scalar name)
    else if contains extra.generic name
    then ok (scalar name)
    else ok (unknown shown)

module _ {X : Type 0} where
  abbrev pub last_ident : Segments X → Option Text
  last_ident segments = last_segment segments >>=? λ s. some (s.0)

  unfoldable pub path_ends_with : Segments X → Text → Bool
  path_ends_with segments name = is_ident name (last_ident segments)

  unfoldable pub ends_with_any : Segments X → List Text → Bool
  unfolding path_ends_with
  ends_with_any segments [] = false
  ends_with_any segments (name ∷ names) =
      path_ends_with segments name || ends_with_any segments names

  abbrev pub path_to_string : Segments X → Text
  path_to_string segments = join (codes "::") (idents segments)

module _ {X : Type 0} (extra : Extra) where
  unfoldable pub is_scalar : Segments X → Bool
  unfolding ends_with_any
  is_scalar segments =
      ends_with_any segments basic_scalars
      || ends_with_any segments common_scalars
      || ends_with_any segments extra.plain

  abbrev pub plain_type : Segments X → Option Text → SynResult ReturnType
  plain_type segments none = no_segments
  plain_type segments (some name) = ok (if is_scalar segments then scalar name else struct name)

  abbrev pub analyze_non_generic : Segments X → SynResult ReturnType
  analyze_non_generic segments = plain_type segments (last_ident segments)
