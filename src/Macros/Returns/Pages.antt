-- ===== src/Macros/Returns/Pages.antt =====
-- What the analysis of types makes of the types of pages.
use sqlx_data.Prelude.{
  ◌≡◌, refl, ap, ◌∙◌, ◌>>=?◌, inl, inr, Text, contains, text_eq, Bool, true, false, not, ◌&&◌, List,
  [], ◌∷◌, Option, none, some, Bool-cases, text_eq_iff, contains_iff, All, arith,
}
use sqlx_data.Error.{ok}
use sqlx_data.Macros.Syntax.{
  Ty, path, impl_trait, tuple, reference, slice, array, other_type, Segments, no_segment, segment,
  Arguments, angle_bracketed, no_arguments, parenthesized, last_segment,
}
use sqlx_data.Macros.Types.{
  ReturnType, struct, Extra, pagination_types, ends_with_any, path_ends_with, named, plain_type,
  analyze_non_generic, is_scalar, path_to_string, basic_scalars, common_scalars,
}
use sqlx_data.Macros.Types.Analysis.{analyze_type, analyze_segments, analyze_arguments}
use sqlx_data.Macros.Types.Total.{first_analyzed-Succeeds, all_analyzed-Succeeds}
use sqlx_data.Macros.Returns.{check_is_pagination, extract_ok_type_name}

-- The analysis reads a path by its last segment.
pub analyze_segments-last :
    {X : Type 0} (extra : Extra) (whole segments : Segments X) (name : Text) (args : Arguments X)
    → last_segment segments ≡ some (name, args)
    → analyze_segments extra whole segments
      ≡ analyze_segments extra whole (segment name args no_segment)
unfolding analyze_segments
analyze_segments-last extra whole no_segment name args e = cc
analyze_segments-last extra whole (segment n a no_segment) name args e = cc
analyze_segments-last extra whole (segment n a (segment n' a' rest)) name args e =
    analyze_segments-last extra whole (segment n' a' rest) name args e

-- No name of a page is among these.
abbrev pub WithoutPages : List Text → Type 0
WithoutPages names = All (λ name. contains pagination_types name ≡ false) names

other_name :
    (name n : Text)
    → contains pagination_types name ≡ true
    → contains pagination_types n ≡ false
    → text_eq name n ≡ false
other_name name n h k = elim (Bool-cases (text_eq name n)) [
  | inr e ↦ e
  | inl e ↦ let same = (text_eq_iff name n).0 e in cc
]

module _ {X : Type 0} (segments : Segments X) (name : Text) (args : Arguments X) where
  ends_with_none :
      (names : List Text)
      → last_segment segments ≡ some (name, args)
      → contains pagination_types name ≡ true
      → WithoutPages names
      → ends_with_any segments names ≡ false
  unfolding ends_with_any path_ends_with
  ends_with_none [] e page h = refl
  ends_with_none (n ∷ names) e page (h, hs) =
      rw (e, other_name name n page h, ends_with_none names e page hs) refl

named_page :
    (extra : Extra) (name shown : Text) (inner : Option ReturnType) (all : List ReturnType)
    → contains pagination_types name ≡ true
    → named extra name shown (ok inner) (ok all) ≡ ok (struct name)
unfolding text_eq contains
named_page extra name shown inner all h = elim ((contains_iff pagination_types name).0 h) [
  | inl e ↦ rw (← e) refl
  | inr (inl e) ↦ rw (← e) refl
  | inr (inr (inl e)) ↦ rw (← e) refl
  | inr (inr (inr none_left)) ↦ elim none_left [ ]
]

all_without_pages : List Text → Bool
all_without_pages [] = true
all_without_pages (n ∷ names) = not (contains pagination_types n) && all_without_pages names

WithoutPages-of : (names : List Text) → all_without_pages names ≡ true → WithoutPages names
unfolding all_without_pages
WithoutPages-of [] h = tt
WithoutPages-of (n ∷ names) h = (ground arith, WithoutPages-of names (ground arith))

basic-WithoutPages : WithoutPages basic_scalars
unfolding all_without_pages contains text_eq
basic-WithoutPages = WithoutPages-of basic_scalars refl

common-WithoutPages : WithoutPages common_scalars
unfolding all_without_pages contains text_eq
common-WithoutPages = WithoutPages-of common_scalars refl

module _ {X : Type 0} (extra : Extra) (plain : WithoutPages extra.plain) (segments : Segments X)
    (name : Text) where
  not_scalar :
      (args : Arguments X)
      → last_segment segments ≡ some (name, args)
      → contains pagination_types name ≡ true
      → is_scalar extra segments ≡ false
  unfolding is_scalar
  not_scalar args e page =
      rw
        (
          ends_with_none segments name args basic_scalars e page basic-WithoutPages,
          ends_with_none segments name args common_scalars e page common-WithoutPages,
          ends_with_none segments name args extra.plain e page plain,
        )
        refl

  plain_page :
      (args : Arguments X)
      → last_segment segments ≡ some (name, args)
      → contains pagination_types name ≡ true
      → analyze_non_generic extra segments ≡ ok (struct name)
  plain_page args e page =
      ap (λ o. plain_type extra segments (o >>=? λ s. some (s.0))) e
      ∙ rw (not_scalar args e page) refl

  page_arguments :
      (args : Arguments X)
      → last_segment segments ≡ some (name, args)
      → contains pagination_types name ≡ true
      → analyze_arguments extra segments name args ≡ ok (struct name)
  unfolding analyze_arguments
  page_arguments no_arguments e page = plain_page no_arguments e page
  page_arguments (parenthesized x) e page = plain_page (parenthesized x) e page
  page_arguments (angle_bracketed args) e page =
      let (o, first) = first_analyzed-Succeeds extra args in
      let (l, all) = all_analyzed-Succeeds extra args in
      rw (first, all) (named_page extra name (path_to_string segments) o l page)

  page_path :
      (args : Arguments X)
      → last_segment segments ≡ some (name, args)
      → contains pagination_types name ≡ true
      → analyze_type extra (path segments) ≡ ok (struct name)
  unfolding analyze_type analyze_segments
  page_path args e page =
      analyze_segments-last extra segments segments name args e ∙ page_arguments args e page

-- What a type is taken for whose name is that of a page.
abbrev pub IsPage : {X : Type 0} → Extra → Ty X → Type 0
IsPage extra t =
    (name : Text) × (contains pagination_types name ≡ true)
    × (analyze_type extra t ≡ ok (struct name))

IsPage-of :
    {X : Type 0} (extra : Extra) (segments : Segments X) (o : Option (Text × Arguments X))
    → WithoutPages extra.plain
    → last_segment segments ≡ o
    → check_is_pagination (o >>=? λ s. some (s.0)) ≡ true
    → IsPage extra (path segments)
unfolding check_is_pagination
IsPage-of extra segments none plain e h = cc
IsPage-of extra segments (some (name, args)) plain e h =
    (name, h, page_path extra plain segments name args e h)

pub IsPage-type :
    {X : Type 0} (extra : Extra) (t : Ty X)
    → WithoutPages extra.plain
    → check_is_pagination (extract_ok_type_name (some t)) ≡ true
    → IsPage extra t
unfolding extract_ok_type_name check_is_pagination
IsPage-type extra (path segments) plain h =
    IsPage-of extra segments (last_segment segments) plain refl h
IsPage-type extra (impl_trait bounds) plain h = cc
IsPage-type extra (tuple ts) plain h = cc
IsPage-type extra (reference mutability t) plain h = cc
IsPage-type extra (slice t) plain h = cc
IsPage-type extra (array t len) plain h = cc
IsPage-type extra (other_type x) plain h = cc
