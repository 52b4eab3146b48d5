-- ===== src/Macros/Named/Answers.antt =====
-- What `convert_named_to_positional_in_sql` answers.
use sqlx_data.Prelude.{◌≡◌, ◌≢◌, ◌↔◌, refl, inl, Text, Listed, List, [], ◌∷◌}
use sqlx_data.Error.{ok, err}
use sqlx_data.Macros.SynResult.{SynResult}
use sqlx_data.Macros.Named.{Piece, unknown_error}
use sqlx_data.Macros.Named.Positions.{Converted}
use sqlx_data.Macros.Named.Unknown.{Occurs}

-- Nothing listed is nothing at all.
none-Listed : (us : List Text) → ((name : Text) → Listed name us → ⊥) → us ≡ []
none-Listed [] h = refl
none-Listed (u ∷ us) h = absurd (h u (inl refl))

-- A text whose names are numbers, or the list of all names that are none of the parameters'.
abbrev pub Answers : List Text → (List Text → List Text) → List Piece → SynResult Text → Type 0
Answers names order pieces (ok t) = Converted names pieces t
Answers names order pieces (err e) =
    (us : List Text) × (e ≡ unknown_error order us names)
    × (us ≢ [])
    × ((name : Text) → Listed name us ↔ (Occurs name pieces × (Listed name names → ⊥)))
