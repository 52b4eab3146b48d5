-- ===== src/Macros/SynResult.antt =====
-- `syn::Result`: an error is its message. The place in the source that a message points at is not kept.
use sqlx_data.Prelude.{Text}
use sqlx_data.Error.{Result}

abbrev pub SynResult : Type 0 → Type 0
SynResult A = Result Text A
