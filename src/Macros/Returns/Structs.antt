-- ===== src/Macros/Returns/Structs.antt =====
-- Which types the analysis of types takes for structs: paths, by their last name.
use sqlx_data.Prelude.{
  ◌≡◌, refl, ap, ◌∙◌, sym, ◌>>=?◌, inl, inr, Text, codes, List, [], ◌∷◌, Option, none, some,
  Bool-cases, Option-cases, arith,
}
use sqlx_data.Error.{ok, err}
use sqlx_data.Macros.SynResult.{SynResult}
use sqlx_data.Macros.Syntax.{
  Ty, path, impl_trait, tuple, reference, slice, array, other_type, Segments, no_segment, segment,
  Arguments, angle_bracketed, no_arguments, parenthesized, last_segment, Bounds, no_bound,
  trait_bound, other_bound, no_type, type_element,
}
use sqlx_data.Macros.Types.{
  ReturnType, struct, Extra, named, plain_type, path_to_string, path_ends_with, stream_or,
  empty_path,
}
use sqlx_data.Macros.Types.Analysis.{
  analyze_type, analyze_segments, analyze_arguments, analyze_bounds, item_of_path,
}
use sqlx_data.Macros.Types.Total.{first_analyzed-Succeeds, all_analyzed-Succeeds}
use sqlx_data.Macros.Returns.{extract_ok_type_name}
use sqlx_data.Macros.Returns.Pages.{analyze_segments-last}

named-struct :
    (extra : Extra) (name shown : Text) (inner : Option ReturnType) (all : List ReturnType)
    (n : Text)
    → named extra name shown (ok inner) (ok all) ≡ ok (struct n)
    → n ≡ name
named-struct extra name shown none [] n h = ground arith
named-struct extra name shown none (t ∷ []) n h = ground arith
named-struct extra name shown none (t ∷ e ∷ []) n h = ground arith
named-struct extra name shown none (t ∷ e ∷ x ∷ l) n h = ground arith
named-struct extra name shown (some i) [] n h = ground arith
named-struct extra name shown (some i) (t ∷ []) n h = ground arith
named-struct extra name shown (some i) (t ∷ e ∷ []) n h = ground arith
named-struct extra name shown (some i) (t ∷ e ∷ x ∷ l) n h = ground arith

stream_or-struct :
    (o : Option (SynResult ReturnType)) (later : SynResult ReturnType) (n : Text)
    → (later ≡ ok (struct n) → ⊥)
    → stream_or o later ≡ ok (struct n)
    → ⊥
stream_or-struct none later n h e = h e
stream_or-struct (some (ok r)) later n h e = cc
stream_or-struct (some (err x)) later n h e = cc

none_empty : (n : Text) → empty_path ≡ ok (struct n) → ⊥
none_empty n h = cc

module _ {X : Type 0} (extra : Extra) (n : Text) where
  analyze_bounds-struct : (bounds : Bounds X) → analyze_bounds extra bounds ≡ ok (struct n) → ⊥
  unfolding analyze_bounds
  analyze_bounds-struct no_bound e = cc
  analyze_bounds-struct (other_bound x rest) e = analyze_bounds-struct rest e
  analyze_bounds-struct (trait_bound segments rest) e =
      elim (Bool-cases (path_ends_with segments (codes "Stream"))) [
        | inl is_stream ↦
            stream_or-struct (item_of_path extra segments) (analyze_bounds extra rest) n
              (analyze_bounds-struct rest) (rw is_stream at e)
        | inr other ↦ analyze_bounds-struct rest (rw other at e)
      ]

  plain-struct :
      (segments : Segments X) (name : Text)
      → plain_type extra segments (some name) ≡ ok (struct n)
      → n ≡ name
  plain-struct segments name e = ground arith

  arguments-struct :
      (segments : Segments X) (name : Text) (args : Arguments X)
      → last_segment segments ≡ some (name, args)
      → analyze_arguments extra segments name args ≡ ok (struct n)
      → n ≡ name
  unfolding analyze_arguments
  arguments-struct segments name no_arguments e h =
      plain-struct segments name
        (sym (ap (λ o. plain_type extra segments (o >>=? λ s. some (s.0))) e) ∙ h)
  arguments-struct segments name (parenthesized x) e h =
      plain-struct segments name
        (sym (ap (λ o. plain_type extra segments (o >>=? λ s. some (s.0))) e) ∙ h)
  arguments-struct segments name (angle_bracketed args) e h =
      let (o, first) = first_analyzed-Succeeds extra args in
      let (l, all) = all_analyzed-Succeeds extra args in
      named-struct extra name (path_to_string segments) o l n (rw (first, all) at h)

  no_last : (segments : Segments X) → last_segment segments ≡ none → segments ≡ no_segment
  no_last no_segment e = refl
  no_last (segment name args no_segment) e = cc
  no_last (segment name args (segment name' args' rest)) e =
      cc (no_last (segment name' args' rest) e)

  path-struct :
      (segments : Segments X)
      → analyze_segments extra segments segments ≡ ok (struct n)
      → extract_ok_type_name (some (path segments)) ≡ some n
  unfolding analyze_segments extract_ok_type_name
  path-struct segments h = elim (Option-cases (last_segment segments)) [
    | inl e ↦ absurd (none_empty n (rw (no_last segments e) at h))
    | inr ((name, args), e) ↦
        let same =
          arguments-struct segments name args e
            (sym (analyze_segments-last extra segments segments name args e) ∙ h) in
        rw (e, same) refl
  ]

  -- A type that the analysis takes for a struct has its name, also where a method caches the name.
  pub type-struct :
      (t : Ty X) → analyze_type extra t ≡ ok (struct n) → extract_ok_type_name (some t) ≡ some n
  unfolding analyze_type
  type-struct (path segments) h = path-struct segments h
  type-struct (impl_trait bounds) h = absurd (analyze_bounds-struct bounds h)
  type-struct (tuple no_type) h = cc
  type-struct (tuple (type_element t ts)) h = cc
  type-struct (reference mutability t) h = cc
  type-struct (slice t) h = cc
  type-struct (array t len) h = cc
  type-struct (other_type x) h = cc
