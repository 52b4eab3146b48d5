-- ===== src/Error.antt =====
-- The errors of sqlx-data-params/src/cursor.rs, and of sqlx::Error the variants that the source
-- builds. `foreign` stands for any other error that the database library may hand over, and `panicked` for
-- a panic, by which a function of the model ends where the source would index out of range.
use sqlx_data.Prelude.{Text, ◌≡◌, refl}

mutual
  pub data SqlxError : Type 0 where
    invalid_argument protocol encode : Text → SqlxError
    decode : CursorErrorKind → SqlxError
    foreign : Text → SqlxError
    panicked : SqlxError

  pub data CursorErrorKind : Type 0 where
    sqlx : SqlxError → CursorErrorKind
    invalid_field : Text → CursorErrorKind
    empty_data : CursorErrorKind
    encode_error decode_error : Text → CursorErrorKind

pub data Result {ℓ κ} (E : Type ℓ) (A : Type κ) : Type (ℓ ⊔ κ) where
  ok : A → Result E A
  err : E → Result E A

module _ {ℓ κ ν} {E : Type ℓ} {A : Type κ} {B : Type ν} where
  infixl 5 ◌>>=◌
  -- The operator `?` at an unchanged error type.
  abbrev pub ◌>>=◌ : Result E A → (A → Result E B) → Result E B
  ok a >>= f = f a
  err e >>= f = err e

  -- A sequence that succeeds has a first part that does.
  pub split_ok :
      (r : Result E A) {f : A → Result E B} {b : B}
      → (r >>= f) ≡ ok b
      → (a : A) × (r ≡ ok a) × (f a ≡ ok b)
  split_ok (ok a) h = (a, refl, h)
  split_ok (err e) h = cc

module _ {ℓ κ ν} {E : Type ℓ} {F : Type κ} {A : Type ν} where
  abbrev pub map_err : (E → F) → Result E A → Result F A
  map_err f (ok a) = ok a
  map_err f (err e) = err (f e)

-- `From<SqlxError> for CursorError`
unfoldable pub cursor_of_sqlx : SqlxError → CursorErrorKind
cursor_of_sqlx e = sqlx e

-- `From<CursorError> for sqlx::Error`
unfoldable pub sqlx_of_cursor : CursorErrorKind → SqlxError
sqlx_of_cursor (sqlx e) = e
sqlx_of_cursor (invalid_field t) = decode (invalid_field t)
sqlx_of_cursor empty_data = decode empty_data
sqlx_of_cursor (encode_error t) = decode (encode_error t)
sqlx_of_cursor (decode_error t) = decode (decode_error t)
