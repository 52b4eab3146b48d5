-- ===== src/Cursor.antt =====
-- sqlx-data-params/src/cursor.rs: cursor values and the generation of cursor tokens.
-- `CursorSecureExtract` is implemented by the user of the library: it is a parameter, the record
-- `SecureExtract`, with no law assumed.
use sqlx_data.Prelude.{
  ℕ, Text, codes, Bool, not, ◌||◌, Option, none, some, List, [], ◌∷◌, ◌++◌, map,
  is_empty as list_is_empty, length, first, last, is_some, if◌then◌else◌, ◌==◌,
}
use sqlx_data.Prelude.Int.{ℤ}
use sqlx_data.Error.{
  SqlxError, CursorErrorKind, invalid_field, empty_data, Result, ok, err, ◌>>=◌, map_err,
  cursor_of_sqlx,
}
use sqlx_data.Value.{FilterValue}
use sqlx_data.Sorting.{SortingParams}

pub data CursorValue : Type 0 where
  int : ℤ → CursorValue
  uint : ℕ → CursorValue
  float : ℕ → CursorValue
  bool : Bool → CursorValue
  string : Text → CursorValue

pub record CursorEntry : Type 0 where
  pub value : CursorValue

-- The client-facing `Cursor`
pub record CursorData : Type 0 where
  pub entries : List CursorEntry
  pub version : Option ℕ
  pub fingerprint : Option ℕ

abbrev pub new_multi : List CursorEntry → CursorData
new_multi entries = record { entries = entries; version = none; fingerprint = none }

pub data CursorDirection : Type 0 where
  after before : CursorDirection

pub record CursorParams : Type 0 where
  pub direction : Option CursorDirection
  pub values : List FilterValue
  pub error : Option Text

-- `Default`
abbrev pub default : CursorParams
default = record { direction = none; values = []; error = none }

-- CursorParams::new
abbrev pub new : FilterValue → CursorDirection → CursorParams
new value direction = record { direction = some direction; values = value ∷ []; error = none }

unfoldable pub from_values : List FilterValue → CursorDirection → CursorParams
from_values values direction = record { direction = some direction; values = values; error = none }

unfoldable pub with_error : CursorDirection → Text → CursorParams
with_error direction error = record { direction = some direction; values = []; error = some error }

unfoldable pub and_field : FilterValue → CursorParams → CursorParams
and_field value p = record p { values = p.values ++ value ∷ [] }

abbrev pub is_empty : CursorParams → Bool
is_empty p = list_is_empty p.values

abbrev pub len : CursorParams → ℕ
len p = length p.values

abbrev pub has_error : CursorParams → Bool
has_error p = is_some p.error

-- The trait `CursorSecureExtract`, whose methods the user writes.
pub record SecureExtract (T : Type 0) : Type 0 where
  pub extract_whitelisted_fields : T → List Text → Result SqlxError (List CursorValue)
  pub encode : CursorData → Result SqlxError Text
  pub decode : Text → Result SqlxError (List FilterValue)

abbrev pub requires_order_by : Text
requires_order_by = codes "Cursor pagination requires ORDER BY fields"

abbrev pub fields_mismatch : Text
fields_mismatch = codes "Cursor fields mismatch with sorting params"

abbrev ok_or_empty {ℓ} : {A : Type ℓ} → Option A → Result CursorErrorKind A
ok_or_empty none = err empty_data
ok_or_empty (some a) = ok a

abbrev pub sort_fields : SortingParams → List Text
sort_fields sorting = map (λ s. s.field) sorting.sorts

abbrev entry : CursorValue → CursorEntry
entry v = record { value = v }

module _ {T : Type 0} (x : SecureExtract T) where
  -- The tail of `generate_cursor`, once an item is chosen.
  unfoldable pub cursor_of_item : List Text → T → Result CursorErrorKind (Option CursorData)
  cursor_of_item fields item = do
    values ← map_err cursor_of_sqlx (x.extract_whitelisted_fields item fields)
    if not (length values == length fields)
        then err (invalid_field fields_mismatch)
        else ok (some (new_multi (map entry values)))

  unfoldable pub generate_cursor :
      List T
      → Bool
      → SortingParams
      → (List T → Option T)
      → Result CursorErrorKind (Option CursorData)
  unfolding cursor_of_item
  generate_cursor items has_more sorting get_item =
      if not has_more || list_is_empty items
      then ok none
      else if list_is_empty (sort_fields sorting)
      then err (invalid_field requires_order_by)
      else ok_or_empty (get_item items) >>= cursor_of_item (sort_fields sorting)

  abbrev pub encode_cursor : Option CursorData → Result CursorErrorKind (Option Text)
  encode_cursor none = ok none
  encode_cursor (some c) = map_err cursor_of_sqlx (x.encode c) >>= λ t. ok (some t)

  unfoldable pub generate_next_cursor :
      List T → Bool → SortingParams → Result CursorErrorKind (Option Text)
  unfolding generate_cursor
  generate_next_cursor items has_next sorting =
      generate_cursor items has_next sorting last >>= encode_cursor

  unfoldable pub generate_prev_cursor :
      List T → Bool → SortingParams → Result CursorErrorKind (Option Text)
  unfolding generate_cursor
  generate_prev_cursor items has_prev sorting =
      generate_cursor items has_prev sorting first >>= encode_cursor
