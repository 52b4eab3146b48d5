-- ===== src/Builder/Cursors.antt =====
-- sqlx-data-params/src/builder.rs: `CursorBuilder`. The typestate is an index: only `initial` may
-- choose a page or a direction, and only the three others may be finished with `done`.
use sqlx_data.Prelude.{Text, Option, none, some}
use sqlx_data.Error.{SqlxError, ok, err}
use sqlx_data.Value.{FilterValue}
use sqlx_data.Cursor
use sqlx_data.Cursor.{CursorParams, CursorDirection, SecureExtract}
use sqlx_data.Params
use sqlx_data.Params.{IntoParams, Params, cursor}
use sqlx_data.Builder.Root.{HasParams}
use sqlx_data.Builder.States.{CursorState}

pub record CursorBuilder (P : Type 0) (S : CursorState) : Type 0 where
  pub parent : Option P
  pub cursor : CursorParams

-- CursorBuilder::new
abbrev pub new : CursorBuilder (Unit {0}) CursorState.initial
new = record { parent = none; cursor = Cursor.default }

-- The cursor with one value and a direction.
abbrev directed : FilterValue → CursorDirection → CursorParams
directed value direction =
    let c = Cursor.and_field value Cursor.default in record c { direction = some direction }

module _ {T : Type 0} (x : SecureExtract T) (display : SqlxError → Text) where
  -- The cursor of a token; `display` is the error's `to_string`.
  unfoldable pub decoded_cursor : Text → CursorDirection → CursorParams
  decoded_cursor token direction = elim (x.decode token) [
    | ok values ↦ Cursor.from_values values direction
    | err e ↦ Cursor.with_error direction (display e)
  ]

module _ {P : Type 0} where
  unfoldable pub with_parent : P → CursorBuilder P CursorState.initial
  with_parent parent = record { parent = some parent; cursor = Cursor.default }

  unfoldable pub first_page :
      CursorBuilder P CursorState.initial → CursorBuilder P CursorState.first_page
  first_page b = record { parent = b.parent; cursor = Cursor.default }

  unfoldable pub after :
      FilterValue → CursorBuilder P CursorState.initial → CursorBuilder P CursorState.after
  after value b = record { parent = b.parent; cursor = directed value CursorDirection.after }

  unfoldable pub before :
      FilterValue → CursorBuilder P CursorState.initial → CursorBuilder P CursorState.before
  before value b = record { parent = b.parent; cursor = directed value CursorDirection.before }

  unfoldable pub next_cursor :
      {T : Type 0} (x : SecureExtract T) (display : SqlxError → Text)
      → Text
      → CursorBuilder P CursorState.initial
      → CursorBuilder P CursorState.after
  next_cursor x display token b = record {
    parent = b.parent;
    cursor = decoded_cursor x display token CursorDirection.after;
  }

  unfoldable pub prev_cursor :
      {T : Type 0} (x : SecureExtract T) (display : SqlxError → Text)
      → Text
      → CursorBuilder P CursorState.initial
      → CursorBuilder P CursorState.before
  prev_cursor x display token b = record {
    parent = b.parent;
    cursor = decoded_cursor x display token CursorDirection.before;
  }

  -- `and_field` of the states After and Before
  unfoldable pub and_field_after :
      FilterValue → CursorBuilder P CursorState.after → CursorBuilder P CursorState.after
  and_field_after value b = record b { cursor = Cursor.and_field value b.cursor }

  unfoldable pub and_field_before :
      FilterValue → CursorBuilder P CursorState.before → CursorBuilder P CursorState.before
  and_field_before value b = record b { cursor = Cursor.and_field value b.cursor }

module _ {P : Type 0} ⦃h : HasParams P⦄ where
  abbrev set_cursor : CursorParams → P → P
  set_cursor c parent =
      let p = h.read parent in h.write (record p { pagination = some (cursor c) }) parent

  unfoldable pub done_first_page : CursorBuilder P CursorState.first_page → Option P
  done_first_page b = elim b.parent [
    | none ↦ none
    | some parent ↦ some (set_cursor b.cursor parent)
  ]

  unfoldable pub done_after : CursorBuilder P CursorState.after → Option P
  done_after b = elim b.parent [ none ↦ none | some parent ↦ some (set_cursor b.cursor parent) ]

  unfoldable pub done_before : CursorBuilder P CursorState.before → Option P
  done_before b = elim b.parent [ none ↦ none | some parent ↦ some (set_cursor b.cursor parent) ]

-- In the initial state the cursor is left out.
abbrev into_params : (S : CursorState) → CursorBuilder (Unit {0}) S → Params
into_params CursorState.initial b = Params.default
into_params _ b = record Params.default { pagination = some (cursor b.cursor) }

instance abbrev pub from_cursor_builder :
    {S : CursorState} → IntoParams (CursorBuilder (Unit {0}) S)
from_cursor_builder {S} = record { into_params = into_params S }
