-- ===== src/Examples/Signatures.antt =====
-- Signatures of methods and their queries.
use sqlx_data.Prelude.{
  ℕ, ◌≡◌, refl, true, false, Text, codes, text_eq, List, [], ◌∷◌, none, some, contains, to_string,
  ◌↔◌, arith,
}
use sqlx_data.Prelude.Texts.Methods.{has_char, ends_with}
use sqlx_data.Error.{Result, ok}
use sqlx_data.Macros.Syntax.{
  Ty, path, reference, Segments, segment, no_segment, angle_bracketed, no_arguments, type_argument,
  no_argument, Generics,
}
use sqlx_data.Macros.Types.{struct, no_extra}
use sqlx_data.Macros.Types.Analysis.{analyze_type}
use sqlx_data.Macros.Returns.{analyze}
use sqlx_data.Macros.Returns.Agreement.{IsPageResult, FetchesRows, is_pagination_iff}
use sqlx_data.Macros.Parameters.{
  DmlParameter, FnArg, receiver, typed, parameter_of, extract_parameters,
}
use sqlx_data.Macros.Parameters.Extracted.{parameters_of}
use sqlx_data.Macros.Named.{Piece, other_text, named_param, convert_named_to_positional_in_sql}
use sqlx_data.Macros.Named.Answers.{Answers}
use sqlx_data.Macros.Named.{unknowns, index_from, replaced}
use sqlx_data.Dynamic.Binder.{Database}

abbrev named_type : Text → Ty ℕ
named_type name = path (segment name no_arguments no_segment)

abbrev serial_users : Ty ℕ
serial_users = path (
    segment (codes "Serial")
      (angle_bracketed (type_argument (named_type (codes "User")) no_argument)) no_segment)

-- Result<Serial<User>>
abbrev paged : Segments ℕ
paged =
    segment (codes "Result") (angle_bracketed (type_argument serial_users no_argument)) no_segment

is_pagination_iff_example : ((analyze (some (path paged))).is_pagination ≡ true) ↔ (
    IsPageResult (analyze_type no_extra (path paged))
    × FetchesRows (analyze_type no_extra (path paged)))
is_pagination_iff_example =
    is_pagination_iff no_extra tt paged serial_users no_argument refl (omega arith)

paged_is_pagination : (analyze (some (path paged))).is_pagination ≡ true
unfolding analyze contains text_eq
paged_is_pagination = refl

-- Other return types: for a method that returns Serial<User> itself, only the analysis for the query
-- sees a page.
bare_differs :
    ((analyze (some serial_users)).is_pagination ≡ false)
    × (analyze_type no_extra serial_users ≡ ok (struct (codes "Serial")))
unfolding analyze analyze_type contains text_eq
bare_differs = (refl, refl)

abbrev generics : Generics ℕ
generics = record { params = []; where_clause = none }

-- &self, pool: &Pool, age: i64
abbrev inputs : List (FnArg ℕ)
inputs =
    receiver
    ∷ typed (codes "pool") (reference true (named_type (codes "Pool")))
    ∷ typed (codes "age") (named_type (codes "i64"))
    ∷ []

abbrev params : List (DmlParameter ℕ)
params = parameters_of generics inputs

one_pool : extract_parameters inputs generics ≡ ok params
unfolding extract_parameters text_eq ends_with
one_pool = refl

abbrev by_age : Text
by_age = codes "age > @age OR x < @age"

abbrev order : List Text → List Text
order names = names

abbrev pieces : List Piece
pieces =
    other_text (codes "age >")
    ∷ named_param (codes " ") (codes "age")
    ∷ other_text (codes " OR x <")
    ∷ named_param (codes " ") (codes "age")
    ∷ []

abbrev pieces_of : Text → Result Text (List Piece)
pieces_of sql = ok pieces

numbered :
    convert_named_to_positional_in_sql Database.sqlite order pieces_of by_age params
    ≡ ok (codes "age > $1 OR x < $1")
unfolding convert_named_to_positional_in_sql has_char parameter_of text_eq ends_with contains
    unknowns index_from replaced to_string
numbered = refl

-- On MySQL each place has its own value, so that one value is missing.
repeated :
    convert_named_to_positional_in_sql Database.mysql order pieces_of by_age params
    ≡ ok (codes "age > ? OR x < ?")
unfolding convert_named_to_positional_in_sql has_char parameter_of text_eq ends_with contains
    unknowns index_from replaced to_string
repeated = refl
