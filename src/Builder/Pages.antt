-- ===== src/Builder/Pages.antt =====
-- sqlx-data-params/src/builder.rs: `SerialBuilder` and `SliceBuilder`.
use sqlx_data.Prelude.{ℕ, false, Option, none, some}
use sqlx_data.Serial
use sqlx_data.Serial.{SerialParams}
use sqlx_data.Slice
use sqlx_data.Slice.{SliceParams}
use sqlx_data.Params
use sqlx_data.Params.{IntoParams, Params, serial, slice}
use sqlx_data.Builder.Root.{HasParams}

pub record SerialBuilder (P : Type 0) : Type 0 where
  pub parent : Option P
  pub params : SerialParams

pub record SliceBuilder (P : Type 0) : Type 0 where
  pub parent : Option P
  pub params : SliceParams

-- SerialBuilder::with_page
unfoldable pub serial_with_page : ℕ → ℕ → SerialBuilder (Unit {0})
serial_with_page page per_page = record { parent = none; params = Serial.new page per_page }

-- SliceBuilder::with_page
unfoldable pub slice_with_page : ℕ → ℕ → SliceBuilder (Unit {0})
slice_with_page page per_page = record { parent = none; params = Slice.new page per_page }

module _ {P : Type 0} where
  unfoldable pub serial_with_parent : P → SerialBuilder P
  serial_with_parent parent = record { parent = some parent; params = Serial.default }

  unfoldable pub serial_page : ℕ → ℕ → SerialBuilder P → SerialBuilder P
  serial_page page per_page b = record b { params = Serial.new page per_page }

  unfoldable pub slice_with_parent : P → SliceBuilder P
  slice_with_parent parent = record { parent = some parent; params = Slice.default }

  unfoldable pub slice_page : ℕ → ℕ → SliceBuilder P → SliceBuilder P
  slice_page page per_page b = record b { params = Slice.new page per_page }

  unfoldable pub enable_total_count : SliceBuilder P → SliceBuilder P
  enable_total_count b = record b { params = Slice.with_disable_total_count false b.params }

abbrev set_serial : SerialParams → Params → Params
set_serial s p = record p {
  pagination = some (serial s);
  limit = some (Serial.limit s);
  offset = some (Serial.offset s);
}

abbrev set_slice : SliceParams → Params → Params
set_slice s p = record p {
  pagination = some (slice s);
  limit = some (Slice.limit s);
  offset = some (Slice.offset s);
}

module _ {P : Type 0} ⦃h : HasParams P⦄ where
  -- SerialBuilder::done
  unfoldable pub serial_done : SerialBuilder P → Option P
  serial_done b = elim b.parent [
    | none ↦ none
    | some parent ↦ some (h.write (set_serial b.params (h.read parent)) parent)
  ]

  -- SliceBuilder::done
  unfoldable pub slice_done : SliceBuilder P → Option P
  slice_done b = elim b.parent [
    | none ↦ none
    | some parent ↦ some (h.write (set_slice b.params (h.read parent)) parent)
  ]

instance abbrev pub from_serial_builder : IntoParams (SerialBuilder (Unit {0}))
from_serial_builder = record { into_params = λ b. set_serial b.params Params.default }

instance abbrev pub from_slice_builder : IntoParams (SliceBuilder (Unit {0}))
from_slice_builder = record { into_params = λ b. set_slice b.params Params.default }
