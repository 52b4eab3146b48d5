-- ===== src/Dynamic/Binder.antt =====
-- sqlx-data-parser/src/dynamic/builder.rs: the closure `bind` of `process_query` and its generator
-- of placeholders, as a state that each step takes and returns. The generator counts in a u8, and
-- wraps as a release build does.
pub mod Numbering
use sqlx_data.Prelude.{ℕ, ◌+◌, ◌%◌, ◌≡◌, Text, codes, List, [], ◌∷◌, ◌++◌, to_string}
use sqlx_data.Error.{SqlxError, Result, ok, err}
use sqlx_data.Value.{FilterValue}
use sqlx_data.Ast.{Expr, Value}

-- The Cargo features that choose the database.
pub data Database : Type 0 where
  sqlite postgres mysql : Database

-- `to_lowercase` of a string and the `Debug` text of a value, which the source takes from the
-- standard library and from a derive.
pub record Config : Type 0 where
  pub database : Database
  pub to_lowercase : Text → Text
  pub debug : FilterValue → Text

pub record Binder : Type 0 where
  pub binds : List FilterValue
  pub next : ℕ

abbrev pub M {ℓ} : Type ℓ → Type ℓ
M A = Binder → Result SqlxError (A × Binder)

module _ {ℓ} {A : Type ℓ} where
  abbrev pub pure : A → M A
  pure a b = ok (a, b)

  abbrev pub fail : SqlxError → M A
  fail e b = err e

module _ {ℓ κ} {A : Type ℓ} {B : Type κ} where
  infixl 5 ◌>>=◌
  abbrev pub ◌>>=◌ : M A → (A → M B) → M B
  ◌>>=◌ m f b = elim (m b) [ ok r ↦ f (r.0) (r.1) | err e ↦ err e ]

  pub >>=_ok :
      (m : M A) (f : A → M B) (b : Binder) {a : A} {b' : Binder}
      → m b ≡ ok (a, b')
      → (m >>= f) b ≡ f a b'
  >>=_ok m f b h = rw (h, ◌>>=◌)

-- The text of a placeholder, and the counter after it.
abbrev pub placeholder_text : Database → ℕ → Text
placeholder_text Database.mysql n = codes "?"
placeholder_text _ n = b'$' ∷ to_string n

abbrev pub advance : Database → ℕ → ℕ
advance Database.mysql n = n
advance _ n = (n + 1) % 256

-- make_generator
unfoldable pub make_generator : ℕ → List FilterValue → Binder
make_generator start binds = record { binds = binds; next = (start + 1) % 256 }

module _ {X : Type 0} where
  unfoldable pub bind : Database → FilterValue → M (Expr X)
  bind db v b = ok (
    Expr.value (Value.placeholder (placeholder_text db b.next)),
    record { binds = b.binds ++ v ∷ []; next = advance db b.next },
  )

  -- A loop that binds each value in turn.
  unfoldable pub bind_all : Database → List FilterValue → M (List (Expr X))
  unfolding bind
  bind_all db [] = pure []
  bind_all db (v ∷ vs) = do e ← bind db v; es ← bind_all db vs; pure (e ∷ es)
