-- ===== src/Macros/Named.antt =====
-- sqlx-data-macros/src/dml.rs: `convert_named_to_positional_in_sql`. NAMED_PARAM_REGEX is a parameter: it
-- cuts a text into what it leaves alone and its matches, or fails.
pub mod Positions
pub mod Unknown
pub mod Answers
use sqlx_data.Prelude.{
  ℕ, ◌+◌, Text, codes, text_eq, contains, to_string, Bool, true, false, not, ◌&&◌, ◌||◌, List, [],
  ◌∷◌, ◌++◌, map, is_empty, Option, none, some, ◌or◌, if◌then◌else◌,
}
use sqlx_data.Prelude.Texts.Methods.{has_char, join}
use sqlx_data.Error.{Result, ok, err, ◌>>=◌}
use sqlx_data.Macros.SynResult.{SynResult}
use sqlx_data.Macros.Parameters.{DmlParameter}
use sqlx_data.Dynamic.Binder.{Database}

-- A match has the text in front of the `@`, and the name behind it.
pub data Piece : Type 0 where
  other_text : Text → Piece
  named_param : Text → Text → Piece

abbrev pub has_match : List Piece → Bool
has_match [] = false
has_match (other_text t ∷ pieces) = has_match pieces
has_match (named_param prefix name ∷ pieces) = true

abbrev pub placeholder : Database → Text
placeholder Database.mysql = codes "?"
placeholder Database.postgres = codes "$"
placeholder Database.sqlite = codes "$"

module _ {X : Type 0} where
  abbrev keep_query : DmlParameter X → Bool
  keep_query p = not p.is_pool && not p.is_dynamic_param

  -- The names of the parameters that are neither executors nor dynamic parameters, in their order.
  unfoldable pub query_names : List (DmlParameter X) → List Text
  query_names [] = []
  query_names (p ∷ params) =
      let rest = query_names params in if keep_query p then p.name ∷ rest else rest

-- The HashMap collected from names and numbers: the last of equal names counts.
unfoldable pub index_from : ℕ → List Text → Text → Option ℕ
index_from n [] name = none
index_from n (s ∷ names) name =
    index_from (n + 1) names name or (if text_eq s name then some n else none)

abbrev pub index_of : List Text → Text → Option ℕ
index_of names name = index_from 1 names name

abbrev pub shown_at : Database → Text → Text → Option ℕ → Text
shown_at Database.mysql prefix name (some i) = prefix ++ placeholder Database.mysql
shown_at db prefix name (some i) = prefix ++ (placeholder db ++ to_string i)
shown_at db prefix name none = prefix ++ (b'@' ∷ name)

module _ (db : Database) (names : List Text) where
  -- `replace_all`
  unfoldable pub replaced : List Piece → Text
  replaced [] = []
  replaced (other_text t ∷ pieces) = t ++ replaced pieces
  replaced (named_param prefix name ∷ pieces) =
      shown_at db prefix name (index_of names name) ++ replaced pieces

  abbrev pub noted : Option ℕ → Text → List Text → List Text
  noted (some i) name unknown_params = unknown_params
  noted none name unknown_params =
      if contains unknown_params name then unknown_params else unknown_params ++ name ∷ []

  -- What the closure collects.
  unfoldable pub unknowns : List Piece → List Text → List Text
  unknowns [] unknown_params = unknown_params
  unknowns (other_text t ∷ pieces) unknown_params = unknowns pieces unknown_params
  unknowns (named_param prefix name ∷ pieces) unknown_params =
      unknowns pieces (noted (index_of names name) name unknown_params)

-- The names of the message stand in the order of a HashMap, which `order` gives.
abbrev pub unknown_error : (List Text → List Text) → List Text → List Text → Text
unknown_error order unknown_params names =
    codes "Unknown named parameters in SQL: ["
    ++ (join (codes ", ") unknown_params
        ++ (codes "]. Available parameters: [" ++ (join (codes ", ") (order names) ++ codes "]")))

abbrev pub regex_error : Text → Text
regex_error e = codes "Regex error checking for named parameters: " ++ e

module _ (db : Database) (order : List Text → List Text)
    (pieces_of : Text → Result Text (List Piece)) where
  abbrev pub convert_pieces : Text → List Text → List Piece → SynResult Text
  convert_pieces sql names pieces =
      if not (has_match pieces)
      then ok sql
      else if is_empty names
      then ok sql
      else if is_empty (unknowns db names pieces [])
      then ok (replaced db names pieces)
      else err (unknown_error order (unknowns db names pieces []) names)

  abbrev pub with_pieces : Text → List Text → Result Text (List Piece) → SynResult Text
  with_pieces sql names (ok pieces) = convert_pieces sql names pieces
  with_pieces sql names (err e) = err (regex_error e)

  unfoldable pub convert_named_to_positional_in_sql :
      {X : Type 0} → Text → List (DmlParameter X) → SynResult Text
  unfolding query_names
  convert_named_to_positional_in_sql sql params =
      if not (has_char sql b'@')
      then ok sql
      else with_pieces sql (query_names params) (pieces_of sql)
