-- ===== src/Macros/Parameters/Extracted.antt =====
-- What `extract_parameters` accepts.
use sqlx_data.Prelude.{
  ℕ, ◌+◌, ◌≤◌, ◌≡◌, ◌↔◌, Bool, false, ◌||◌, List, [], ◌∷◌, ◌++◌, append_assoc, append-nil, arith,
  if◌then◌else◌,
}
use sqlx_data.Error.{ok}
use sqlx_data.Macros.Syntax.{Generics}
use sqlx_data.Macros.Parameters.{
  DmlParameter, FnArg, receiver, typed, other_pattern, parameter_of, extract_from,
  extract_parameters,
}

module _ {X : Type 0} (generics : Generics X) where
  -- Every argument but `self` is a simple name with its type.
  abbrev pub AreSimple : List (FnArg X) → Type 0
  AreSimple [] = Unit
  AreSimple (receiver ∷ inputs) = AreSimple inputs
  AreSimple (typed name t ∷ inputs) = AreSimple inputs
  AreSimple (other_pattern t ∷ inputs) = ⊥

  -- The parameters of the arguments with a simple name, in their order.
  abbrev pub parameters_of : List (FnArg X) → List (DmlParameter X)
  parameters_of [] = []
  parameters_of (receiver ∷ inputs) = parameters_of inputs
  parameters_of (typed name t ∷ inputs) = parameter_of name t generics ∷ parameters_of inputs
  parameters_of (other_pattern t ∷ inputs) = parameters_of inputs

  abbrev pub count_pools : List (DmlParameter X) → ℕ
  count_pools [] = 0
  count_pools (p ∷ params) = (if p.is_pool then 1 else 0) + count_pools params

  extract_from_iff :
      (inputs : List (FnArg X)) (has_pool : Bool) (before params : List (DmlParameter X))
      → (extract_from inputs generics has_pool before ≡ ok params) ↔ (
          AreSimple inputs
          × (params ≡ before ++ parameters_of inputs)
          × ((if has_pool then 1 else 0) + count_pools (parameters_of inputs) ≤ 1))
  unfolding extract_from
  extract_from_iff [] has_pool before params = ground (arith, append-nil before)
  extract_from_iff (receiver ∷ inputs) has_pool before params =
      extract_from_iff inputs has_pool before params
  extract_from_iff (other_pattern t ∷ inputs) has_pool before params = ground arith
  extract_from_iff (typed name t ∷ inputs) has_pool before params =
      let p = parameter_of name t generics in
      ground (
        arith,
        extract_from_iff inputs (p.is_pool || has_pool) (before ++ p ∷ []) params,
        append_assoc before (p ∷ []) (parameters_of inputs),
      )

pub extract_parameters_iff :
    {X : Type 0} (inputs : List (FnArg X)) (generics : Generics X) (params : List (DmlParameter X))
    → (extract_parameters inputs generics ≡ ok params) ↔ (
        AreSimple generics inputs
        × (params ≡ parameters_of generics inputs)
        × (count_pools generics (parameters_of generics inputs) ≤ 1))
unfolding extract_parameters
extract_parameters_iff inputs generics params =
    let iff = extract_from_iff generics inputs false [] params in
    (
      λ e. let (simple, same, few) = iff.0 e in (simple, same, omega (arith, few)),
      λ h. iff.1 (h.0, h.1, omega (arith, h.2)),
    )
