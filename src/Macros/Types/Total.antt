-- ===== src/Macros/Types/Total.antt =====
-- `analyze_type` gives a result for every type.
use sqlx_data.Prelude.{
  ◌≡◌, refl, Text, codes, text_eq, Bool, true, false, List, ◌∷◌, Option, none, some, is_some,
  if◌then◌else◌,
}
use sqlx_data.Error.{ok, err, ◌>>=◌}
use sqlx_data.Macros.SynResult.{SynResult}
use sqlx_data.Macros.Syntax.{
  Ty, path, impl_trait, tuple, reference, slice, array, other_type, Segments, no_segment, segment,
  Arguments, no_arguments, angle_bracketed, parenthesized, GenericArguments, no_argument,
  type_argument, assoc_type, other_argument, Bounds, no_bound, trait_bound, other_bound, no_type,
  type_element,
}
use sqlx_data.Macros.Types.{
  ReturnType, Extra, named, stream_or, plain_type, analyze_non_generic, path_ends_with, last_ident,
  path_to_string,
}
use sqlx_data.Macros.Types.Analysis.{
  analyze_type, analyze_segments, analyze_arguments, first_analyzed, all_analyzed, analyze_bounds,
  item_of_path, item_of_arguments, item_analyzed,
}

abbrev pub IsOk : {A : Type 0} → SynResult A → Type 0
IsOk (ok a) = Unit
IsOk (err e) = ⊥

abbrev IsOkOpt : {A : Type 0} → Option (SynResult A) → Type 0
IsOkOpt none = Unit
IsOkOpt (some r) = IsOk r

>>=-IsOk :
    {A B : Type 0} (m : SynResult A) (f : A → SynResult B)
    → IsOk m
    → ((a : A) → IsOk (f a))
    → IsOk (m >>= f)
>>=-IsOk (ok a) f h k = k a
>>=-IsOk (err e) f h k = h

if-IsOk :
    {A : Type 0} (b : Bool) (r r' : SynResult A) → IsOk r → IsOk r' → IsOk (if b then r else r')
if-IsOk true r r' h h' = h
if-IsOk false r r' h h' = h'

named-IsOk :
    (extra : Extra) (name shown : Text) (inner : SynResult (Option ReturnType))
    (all : SynResult (List ReturnType))
    → IsOk inner
    → IsOk all
    → IsOk (named extra name shown inner all)
named-IsOk extra name shown (ok o) (ok l) h h' = search if-IsOk depth 12
named-IsOk extra name shown (err e) all h h' = absurd h
named-IsOk extra name shown (ok o) (err e) h h' = absurd h'

stream_or-IsOk :
    (o : Option (SynResult ReturnType)) (later : SynResult ReturnType)
    → IsOkOpt o
    → IsOk later
    → IsOk (stream_or o later)
stream_or-IsOk none later h h' = h'
stream_or-IsOk (some (ok r)) later h h' = tt
stream_or-IsOk (some (err e)) later h h' = absurd h

abbrev HasLast : {X : Type 0} → Segments X → Type 0
HasLast segments = is_some (last_ident segments) ≡ true

segment-HasLast :
    {X : Type 0} (name : Text) (args : Arguments X) (rest : Segments X)
    → HasLast (segment name args rest)
segment-HasLast name args no_segment = refl
segment-HasLast name args (segment name' args' rest) = segment-HasLast name' args' rest

plain-IsOk :
    {X : Type 0} (extra : Extra) (segments : Segments X) (o : Option Text)
    → is_some o ≡ true
    → IsOk (plain_type extra segments o)
plain-IsOk extra segments none h = cc
plain-IsOk extra segments (some name) h = tt

non_generic-IsOk :
    {X : Type 0} (extra : Extra) (segments : Segments X)
    → HasLast segments
    → IsOk (analyze_non_generic extra segments)
non_generic-IsOk extra segments h = plain-IsOk extra segments (last_ident segments) h

mutual
  unfolding analyze_type analyze_segments analyze_arguments first_analyzed all_analyzed
      analyze_bounds item_of_path item_of_arguments item_analyzed

  type-IsOk : {X : Type 0} (extra : Extra) (t : Ty X) → IsOk (analyze_type extra t)
  type-IsOk extra (path no_segment) = tt
  type-IsOk extra (path (segment name args rest)) =
      segments-IsOk extra (segment name args rest) (segment name args rest)
        (segment-HasLast name args rest)
  type-IsOk extra (tuple no_type) = tt
  type-IsOk extra (tuple (type_element t ts)) = tt
  type-IsOk extra (impl_trait bounds) = bounds-IsOk extra bounds
  type-IsOk extra (reference mutability t) = tt
  type-IsOk extra (slice t) = tt
  type-IsOk extra (array t len) = tt
  type-IsOk extra (other_type x) = tt

  segments-IsOk :
      {X : Type 0} (extra : Extra) (whole segments : Segments X)
      → HasLast whole
      → IsOk (analyze_segments extra whole segments)
  segments-IsOk extra whole no_segment h = tt
  segments-IsOk extra whole (segment name args no_segment) h =
      arguments-IsOk extra whole name args h
  segments-IsOk extra whole (segment name args (segment name' args' rest)) h =
      segments-IsOk extra whole (segment name' args' rest) h

  arguments-IsOk :
      {X : Type 0} (extra : Extra) (whole : Segments X) (name : Text) (args : Arguments X)
      → HasLast whole
      → IsOk (analyze_arguments extra whole name args)
  arguments-IsOk extra whole name no_arguments h = non_generic-IsOk extra whole h
  arguments-IsOk extra whole name (parenthesized x) h = non_generic-IsOk extra whole h
  arguments-IsOk extra whole name (angle_bracketed args) h =
      named-IsOk extra name (path_to_string whole) (first_analyzed extra args)
        (all_analyzed extra args) (first-IsOk extra args) (all-IsOk extra args)

  first-IsOk :
      {X : Type 0} (extra : Extra) (args : GenericArguments X) → IsOk (first_analyzed extra args)
  first-IsOk extra no_argument = tt
  first-IsOk extra (type_argument t rest) =
      >>=-IsOk (analyze_type extra t) (λ r. ok (some r)) (type-IsOk extra t) (λ r. tt)
  first-IsOk extra (assoc_type name t rest) = first-IsOk extra rest
  first-IsOk extra (other_argument x rest) = first-IsOk extra rest

  all-IsOk :
      {X : Type 0} (extra : Extra) (args : GenericArguments X) → IsOk (all_analyzed extra args)
  all-IsOk extra no_argument = tt
  all-IsOk extra (type_argument t rest) =
      let later = all-IsOk extra rest in
      >>=-IsOk (analyze_type extra t) (λ r. all_analyzed extra rest >>= λ rs. ok (r ∷ rs))
        (type-IsOk extra t)
        (λ r. >>=-IsOk (all_analyzed extra rest) (λ rs. ok (r ∷ rs)) later (λ rs. tt))
  all-IsOk extra (assoc_type name t rest) = all-IsOk extra rest
  all-IsOk extra (other_argument x rest) = all-IsOk extra rest

  bounds-IsOk :
      {X : Type 0} (extra : Extra) (bounds : Bounds X) → IsOk (analyze_bounds extra bounds)
  bounds-IsOk extra no_bound = tt
  bounds-IsOk extra (other_bound x rest) = bounds-IsOk extra rest
  bounds-IsOk extra (trait_bound segments rest) =
      let later = bounds-IsOk extra rest in
      if-IsOk (path_ends_with segments (codes "Stream"))
        (stream_or (item_of_path extra segments) (analyze_bounds extra rest))
        (analyze_bounds extra rest)
        (stream_or-IsOk (item_of_path extra segments) (analyze_bounds extra rest)
          (item_path-IsOk extra segments) later)
        later

  item_path-IsOk :
      {X : Type 0} (extra : Extra) (segments : Segments X) → IsOkOpt (item_of_path extra segments)
  item_path-IsOk extra no_segment = tt
  item_path-IsOk extra (segment name args no_segment) = item_arguments-IsOk extra args
  item_path-IsOk extra (segment name args (segment name' args' rest)) =
      item_path-IsOk extra (segment name' args' rest)

  item_arguments-IsOk :
      {X : Type 0} (extra : Extra) (args : Arguments X) → IsOkOpt (item_of_arguments extra args)
  item_arguments-IsOk extra no_arguments = tt
  item_arguments-IsOk extra (parenthesized x) = tt
  item_arguments-IsOk extra (angle_bracketed args) = item-IsOk extra args

  item-IsOk :
      {X : Type 0} (extra : Extra) (args : GenericArguments X) → IsOkOpt (item_analyzed extra args)
  item-IsOk extra no_argument = tt
  item-IsOk extra (type_argument t rest) = item-IsOk extra rest
  item-IsOk extra (other_argument x rest) = item-IsOk extra rest
  item-IsOk extra (assoc_type name t rest) =
      let later = item-IsOk extra rest in
      let here = type-IsOk extra t in
      elim (text_eq name (codes "Item"))
        as (λ b. IsOkOpt (if b then some (analyze_type extra t) else item_analyzed extra rest)) [
          | true ↦ here
          | false ↦ later
        ]

Succeeds-of : {A : Type 0} (m : SynResult A) → IsOk m → (a : A) × (m ≡ ok a)
Succeeds-of (ok a) h = (a, refl)
Succeeds-of (err e) h = absurd h

pub first_analyzed-Succeeds :
    {X : Type 0} (extra : Extra) (args : GenericArguments X)
    → (o : Option ReturnType) × (first_analyzed extra args ≡ ok o)
first_analyzed-Succeeds extra args = Succeeds-of (first_analyzed extra args) (first-IsOk extra args)

pub all_analyzed-Succeeds :
    {X : Type 0} (extra : Extra) (args : GenericArguments X)
    → (l : List ReturnType) × (all_analyzed extra args ≡ ok l)
all_analyzed-Succeeds extra args = Succeeds-of (all_analyzed extra args) (all-IsOk extra args)

-- The analysis of a type gives a result, and never an error.
pub analyze_type-Succeeds :
    {X : Type 0} (extra : Extra) (t : Ty X) → (r : ReturnType) × (analyze_type extra t ≡ ok r)
analyze_type-Succeeds extra t = Succeeds-of (analyze_type extra t) (type-IsOk extra t)
