-- ===== src/Macros/Syntax.antt =====
-- The syntax trees of the crate syn, as far as sqlx-data-macros/src/dml.rs and type_analyzer.rs name their
-- constructors and fields. Whatever else a tree may hold is of the type `X`, a parameter.
use sqlx_data.Prelude.{Text, text_eq, Bool, List, [], ◌∷◌, Option, none, some, if◌then◌else◌}

mutual
  -- `reference` has its mutability.
  pub data Ty (X : Type 0) : Type 0 where
    path : Segments X → Ty X
    impl_trait : Bounds X → Ty X
    tuple : Tys X → Ty X
    reference : Bool → Ty X → Ty X
    slice : Ty X → Ty X
    array : Ty X → X → Ty X
    other_type : X → Ty X

  -- The segments of a path.
  pub data Segments (X : Type 0) : Type 0 where
    no_segment : Segments X
    segment : Text → Arguments X → Segments X → Segments X

  pub data Arguments (X : Type 0) : Type 0 where
    no_arguments : Arguments X
    angle_bracketed : GenericArguments X → Arguments X
    parenthesized : X → Arguments X

  pub data GenericArguments (X : Type 0) : Type 0 where
    no_argument : GenericArguments X
    type_argument : Ty X → GenericArguments X → GenericArguments X
    assoc_type : Text → Ty X → GenericArguments X → GenericArguments X
    other_argument : X → GenericArguments X → GenericArguments X

  pub data Bounds (X : Type 0) : Type 0 where
    no_bound : Bounds X
    trait_bound : Segments X → Bounds X → Bounds X
    other_bound : X → Bounds X → Bounds X

  pub data Tys (X : Type 0) : Type 0 where
    no_type : Tys X
    type_element : Ty X → Tys X → Tys X

pub data WherePredicate (X : Type 0) : Type 0 where
  type_predicate : Ty X → Bounds X → WherePredicate X
  other_predicate : X → WherePredicate X

pub data GenericParam (X : Type 0) : Type 0 where
  type_param : Text → Bounds X → GenericParam X
  other_param : X → GenericParam X

pub record Generics (X : Type 0) : Type 0 where
  pub params : List (GenericParam X)
  pub where_clause : Option (List (WherePredicate X))

module _ {X : Type 0} where
  -- `segments.last()`: the identifier and the arguments.
  abbrev pub last_segment : Segments X → Option (Text × Arguments X)
  last_segment no_segment = none
  last_segment (segment name args no_segment) = some (name, args)
  last_segment (segment name args (segment name' args' rest)) =
      last_segment (segment name' args' rest)

  -- The names of the segments.
  abbrev pub idents : Segments X → List Text
  idents no_segment = []
  idents (segment name args rest) = name ∷ idents rest

  -- `args.first()`, if it is a type.
  abbrev pub first_type : GenericArguments X → Option (Ty X)
  first_type (type_argument t rest) = some t
  first_type _ = none

  -- The first `Item = T`.
  abbrev pub item_type : GenericArguments X → Option (Ty X)
  item_type no_argument = none
  item_type (type_argument t rest) = item_type rest
  item_type (assoc_type name t rest) =
      let later = item_type rest in
      if text_eq name (b'I' ∷ b't' ∷ b'e' ∷ b'm' ∷ []) then some t else later
  item_type (other_argument x rest) = item_type rest

  abbrev pub angle_of : Arguments X → Option (GenericArguments X)
  angle_of (angle_bracketed args) = some args
  angle_of _ = none

  abbrev pub tys : Tys X → List (Ty X)
  tys no_type = []
  tys (type_element t ts) = t ∷ tys ts
