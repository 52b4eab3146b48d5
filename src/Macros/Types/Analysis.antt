-- ===== src/Macros/Types/Analysis.antt =====
-- `TypeAnalyzer::analyze_type`: what the macros make of a return type.
use sqlx_data.Prelude.{Text, codes, text_eq, List, [], ◌∷◌, Option, none, some, if◌then◌else◌}
use sqlx_data.Error.{ok, ◌>>=◌}
use sqlx_data.Macros.SynResult.{SynResult}
use sqlx_data.Macros.Syntax.{
  Ty, path, impl_trait, tuple, reference, slice, array, other_type, Segments, no_segment, segment,
  Arguments, no_arguments, angle_bracketed, parenthesized, GenericArguments, no_argument,
  type_argument, assoc_type, other_argument, Bounds, no_bound, trait_bound, other_bound, Tys,
  no_type, type_element,
}
use sqlx_data.Macros.Types.{
  ReturnType, unknown, tuple_of, unit, ReturnTypes, no_returns, returns, Extra, stream_or, or_error,
  empty_path, named, analyze_non_generic, path_to_string, path_ends_with, is_scalar,
}

unfoldable mutual
  unfolding is_scalar path_ends_with

  pub analyze_type : {X : Type 0} → Extra → Ty X → SynResult ReturnType
  analyze_type extra (path segments) = analyze_segments extra segments segments
  analyze_type extra (tuple no_type) = ok unit
  analyze_type extra (tuple (type_element t ts)) =
      ok (tuple_of (analyze_elements extra (type_element t ts)))
  analyze_type extra (impl_trait bounds) = analyze_bounds extra bounds
  analyze_type extra (reference mutability t) = ok (unknown (codes "UnknownType"))
  analyze_type extra (slice t) = ok (unknown (codes "UnknownType"))
  analyze_type extra (array t len) = ok (unknown (codes "UnknownType"))
  analyze_type extra (other_type x) = ok (unknown (codes "UnknownType"))

  -- `analyze_path`, with the whole path beside the segments that are left.
  pub analyze_segments : {X : Type 0} → Extra → Segments X → Segments X → SynResult ReturnType
  analyze_segments extra whole no_segment = empty_path
  analyze_segments extra whole (segment name args no_segment) =
      analyze_arguments extra whole name args
  analyze_segments extra whole (segment name args (segment name' args' rest)) =
      analyze_segments extra whole (segment name' args' rest)

  pub analyze_arguments :
      {X : Type 0} → Extra → Segments X → Text → Arguments X → SynResult ReturnType
  analyze_arguments extra whole name no_arguments = analyze_non_generic extra whole
  analyze_arguments extra whole name (parenthesized x) = analyze_non_generic extra whole
  analyze_arguments extra whole name (angle_bracketed args) =
      named extra name (path_to_string whole) (first_analyzed extra args) (all_analyzed extra args)

  pub first_analyzed : {X : Type 0} → Extra → GenericArguments X → SynResult (Option ReturnType)
  first_analyzed extra no_argument = ok none
  first_analyzed extra (type_argument t rest) = analyze_type extra t >>= λ r. ok (some r)
  first_analyzed extra (assoc_type name t rest) = first_analyzed extra rest
  first_analyzed extra (other_argument x rest) = first_analyzed extra rest

  pub all_analyzed : {X : Type 0} → Extra → GenericArguments X → SynResult (List ReturnType)
  all_analyzed extra no_argument = ok []
  all_analyzed extra (type_argument t rest) =
      let later = all_analyzed extra rest in
      analyze_type extra t >>= λ r. later >>= λ rs. ok (r ∷ rs)
  all_analyzed extra (assoc_type name t rest) = all_analyzed extra rest
  all_analyzed extra (other_argument x rest) = all_analyzed extra rest

  pub analyze_elements : {X : Type 0} → Extra → Tys X → ReturnTypes
  analyze_elements extra no_type = no_returns
  analyze_elements extra (type_element t ts) =
      returns (or_error (analyze_type extra t)) (analyze_elements extra ts)

  -- `analyze_impl_trait`: the first bound on a Stream that says what its items are.
  pub analyze_bounds : {X : Type 0} → Extra → Bounds X → SynResult ReturnType
  analyze_bounds extra no_bound = ok (unknown (codes "ImplTrait"))
  analyze_bounds extra (other_bound x rest) = analyze_bounds extra rest
  analyze_bounds extra (trait_bound segments rest) =
      let later = analyze_bounds extra rest in
      let item = item_of_path extra segments in
      if path_ends_with segments (codes "Stream") then stream_or item later else later

  -- `extract_stream_item_type`, and the analysis of what it finds.
  pub item_of_path : {X : Type 0} → Extra → Segments X → Option (SynResult ReturnType)
  item_of_path extra no_segment = none
  item_of_path extra (segment name args no_segment) = item_of_arguments extra args
  item_of_path extra (segment name args (segment name' args' rest)) =
      item_of_path extra (segment name' args' rest)

  pub item_of_arguments : {X : Type 0} → Extra → Arguments X → Option (SynResult ReturnType)
  item_of_arguments extra no_arguments = none
  item_of_arguments extra (parenthesized x) = none
  item_of_arguments extra (angle_bracketed args) = item_analyzed extra args

  pub item_analyzed : {X : Type 0} → Extra → GenericArguments X → Option (SynResult ReturnType)
  item_analyzed extra no_argument = none
  item_analyzed extra (type_argument t rest) = item_analyzed extra rest
  item_analyzed extra (other_argument x rest) = item_analyzed extra rest
  item_analyzed extra (assoc_type name t rest) =
      let later = item_analyzed extra rest in
      let here = analyze_type extra t in if text_eq name (codes "Item") then some here else later
