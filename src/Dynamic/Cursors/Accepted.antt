-- ===== src/Dynamic/Cursors/Accepted.antt =====
-- Which cursors the builder takes, and which it refuses.
use sqlx_data.Prelude.{
  ℕ, suc, ◌≡◌, refl, ◌∙◌, ap, ◌≢◌, ◌⊎◌, inl, inr, ◌↔◌, List, [], ◌∷◌, length, length-map, Option,
  none, some, arith, Bool, true, false, not, ◌==◌, if◌then◌else◌, unwrap_or, Text, ==_iff,
}
use sqlx_data.Error.{SqlxError, ok, err, panicked}
use sqlx_data.Value.{FilterValue}
use sqlx_data.Sort.{Sort}
use sqlx_data.Sorting.{SortingParams}
use sqlx_data.Cursor
use sqlx_data.Cursor.{CursorParams, CursorDirection, SecureExtract}
use sqlx_data.Builder.Cursors.{decoded_cursor}
use sqlx_data.Params.{Pagination}
use sqlx_data.Ast.{Expr}
use sqlx_data.Dynamic.Binder.{Database, Binder, M, fail, ◌>>=◌, >>=_ok, bind}
use sqlx_data.Dynamic.Cursors.{
  build_cursor_condition, cursor_expr, nonempty_cursor, where_cursor, equal_value, directed,
}

-- An action that ends with a result.
abbrev Succeeds : {A : Type 0} → M A → Binder → Type 0
Succeeds {A} m b = (a : A) × (b' : Binder) × (m b ≡ ok (a, b'))

then-Succeeds :
    {A B : Type 0} (m : M A) (f : A → M B) (b : Binder)
    → Succeeds m b
    → ((a : A) (b' : Binder) → Succeeds (f a) b')
    → Succeeds (m >>= f) b
then-Succeeds m f b (a, b', e) g = let (c, b'', h) = g a b' in (c, b'', >>=_ok m f b e ∙ h)

equal-Succeeds :
    (X : Type 0) (db : Database) (v : FilterValue) (ph : Expr X) (b : Binder)
    → Succeeds (equal_value db v ph) b
unfolding bind
equal-Succeeds X Database.mysql v ph b = (_, _, refl)
equal-Succeeds X Database.sqlite v ph b = (_, _, refl)
equal-Succeeds X Database.postgres v ph b = (_, _, refl)

build-Succeeds :
    (X : Type 0) (db : Database) (dir : CursorDirection) (s : Sort) (sorts : List Sort)
    (v : FilterValue) (vs : List FilterValue) (b : Binder)
    → length sorts ≡ length vs
    → Succeeds (build_cursor_condition {X = X} db dir (s ∷ sorts) (v ∷ vs)) b
unfolding build_cursor_condition
build-Succeeds X db dir s [] v vs b e = (_, _, refl)
build-Succeeds X db dir s (s' ∷ sorts) v [] b e = absurd (omega arith)
build-Succeeds X db dir s (s' ∷ sorts) v (v' ∷ vs) b e =
    then-Succeeds (build_cursor_condition db dir (s' ∷ sorts) (v' ∷ vs)) _ _
      (build-Succeeds X db dir s' sorts v' vs _ (omega arith))
      (λ rest b'.
        then-Succeeds (equal_value db v _) _ b' (equal-Succeeds X db v _ b')
          (λ eq_ph b''. (_, _, refl)))

expr-Succeeds :
    (X : Type 0) (db : Database) (dir : CursorDirection) (sorts : List Sort) (v : FilterValue)
    (vs : List FilterValue) (b : Binder)
    → length sorts ≡ suc (length vs)
    → Succeeds (cursor_expr {X = X} db dir sorts (v ∷ vs)) b
unfolding cursor_expr
expr-Succeeds X db dir [] v vs b e = absurd (omega arith)
expr-Succeeds X db dir (s ∷ sorts) v [] b e = (_, _, refl)
expr-Succeeds X db dir (s ∷ sorts) v (w ∷ vs) b e =
    build-Succeeds X db dir s sorts v (w ∷ vs) b (omega arith)

-- What a cursor needs to be taken.
abbrev pub Accepted : CursorParams → Option SortingParams → Type 0
Accepted c sort_by =
    (c.error ≡ none)
    × ((sorting : SortingParams) × (sort_by ≡ some sorting)
        × (length sorting.sorts ≡ length c.values))
    × ((dir : CursorDirection) × (c.direction ≡ some dir))

-- A run that ends with a result where `P` holds, and with an error that is no panic where not.
abbrev pub Decides : {A : Type 0} → Type 0 → M A → Binder → Type 0
Decides P m b = (P × Succeeds m b) ⊎ ((¬ P) × (e : SqlxError) × (e ≢ panicked) × (m b ≡ err e))

by_test :
    {A P : Type 0} (t : Bool) (e : SqlxError) (m : M A) (b : Binder)
    → e ≢ panicked
    → (t ≡ false → ¬ P)
    → (t ≡ true → Decides P m b)
    → Decides P (if not t then fail e else m) b
by_test true e m b ne refuse accept = accept refl
by_test false e m b ne refuse accept = inr (refuse refl, e, ne, refl)

same_length :
    (sorting : SortingParams) (n : ℕ)
    → ((length (Cursor.sort_fields sorting) == n) ≡ true) ↔ (length sorting.sorts ≡ n)
same_length sorting n =
    rw (length-map (λ s. s.field) sorting.sorts) (==_iff (length sorting.sorts) n)

module _ (X : Type 0) (db : Database) (v : FilterValue) (vs : List FilterValue) (b : Binder) where
  abbrev cursor : Option Text → Option CursorDirection → CursorParams
  cursor error direction = record { direction = direction; values = v ∷ vs; error = error }

  nonempty-Decides :
      (error : Option Text) (direction : Option CursorDirection) (sort_by : Option SortingParams)
      → Decides
          (Accepted (cursor error direction) sort_by)
          (nonempty_cursor {X = X} db (cursor error direction) sort_by)
          b
  unfolding nonempty_cursor
  nonempty-Decides (some msg) direction sort_by = inr ((λ h. cc), _, (λ h. cc), refl)
  nonempty-Decides none direction none = inr ((λ h. cc), _, (λ h. cc), refl)
  nonempty-Decides none direction (some sorting) =
      by_test (length (Cursor.sort_fields sorting) == suc (length vs)) _ _ b (λ h. cc)
        (λ other h. mismatch h other)
        (λ same. rest direction ((same_length sorting (suc (length vs))).0 same))
    where
      mismatch :
          Accepted (cursor none direction) (some sorting)
          → (length (Cursor.sort_fields sorting) == suc (length vs)) ≢ false
      mismatch (e, (sorting', same, k), d) other =
          let k' = ap (λ o. length (unwrap_or o sorting).sorts) same ∙ k in
          let yes' = (same_length sorting (suc (length vs))).1 k' in cc

      rest :
          (direction : Option CursorDirection)
          → length sorting.sorts ≡ suc (length vs)
          → Decides
              (Accepted (cursor none direction) (some sorting))
              (directed {X = X} db direction sorting.sorts (v ∷ vs))
              b
      rest none k = inr ((λ h. cc), _, (λ h. cc), refl)
      rest (some dir) k =
          inl
            ((refl, (sorting, refl, k), (dir, refl)), expr-Succeeds X db dir sorting.sorts v vs b k)

-- What becomes of a cursor: a condition if it is accepted, and an error that is no panic if not.
abbrev pub Handled : (X : Type 0) → Database → CursorParams → Option SortingParams → Binder → Type 0
Handled X db c sort_by b =
    (Accepted c sort_by
      × (e : Expr X) × (b' : Binder) × (where_cursor {X = X} db (some (Pagination.cursor c)) sort_by
            b
          ≡ ok (some e, b')))
    ⊎ ((¬ Accepted c sort_by)
        × (e : SqlxError) × (e ≢ panicked)
        × (where_cursor {X = X} db (some (Pagination.cursor c)) sort_by b ≡ err e))

nonempty-Handled :
    (X : Type 0) (db : Database) (error : Option Text) (direction : Option CursorDirection)
    (values : List FilterValue) (sort_by : Option SortingParams) (b : Binder)
    → values ≢ []
    → Handled X db (record { direction = direction; values = values; error = error }) sort_by b
unfolding where_cursor
nonempty-Handled X db error direction [] sort_by b ne = absurd (ne refl)
nonempty-Handled X db error direction (v ∷ vs) sort_by b ne =
    elim (nonempty-Decides X db v vs b error direction sort_by) [
      | inl (h, (e, b', k)) ↦
          inl (
            h,
            e,
            b',
            >>=_ok (nonempty_cursor db (cursor X db v vs b error direction) sort_by) _ b k,
          )
      | inr (h, e, good, k) ↦ inr (h, e, good, rw (k, ◌>>=◌))
    ]

-- A cursor with values is taken exactly if it has no error, there is a sorting with as many keys as
-- values, and it has a direction. Then there is a condition; otherwise building fails with an
-- error of the library, and never by a panic.
pub where_cursor-Handled :
    (X : Type 0) (db : Database) (c : CursorParams) (sort_by : Option SortingParams) (b : Binder)
    → c.values ≢ []
    → Handled X db c sort_by b
where_cursor-Handled X db c sort_by b ne =
    nonempty-Handled X db c.error c.direction c.values sort_by b ne

decoded_cursor_failed :
    {T : Type 0} (x : SecureExtract T) (display : SqlxError → Text) (token : Text)
    (dir : CursorDirection) (e : SqlxError)
    → x.decode token ≡ err e
    → decoded_cursor x display token dir ≡ Cursor.with_error dir (display e)
unfolding decoded_cursor
decoded_cursor_failed x display token dir e h = rw (h, decoded_cursor)

-- If a token does not decode, its cursor carries the error, but building a condition does not report
-- it: whatever the sorting and the values bound so far, it succeeds without a condition, the same
-- as for a cursor of the first page.
pub where_cursor-decoded_cursor :
    {T : Type 0} (x : SecureExtract T) (display : SqlxError → Text) (token : Text)
    (dir : CursorDirection) (e : SqlxError) (X : Type 0) (db : Database)
    (sort_by : Option SortingParams) (b : Binder)
    → x.decode token ≡ err e
    → (where_cursor {X = X} db
          (some (Pagination.cursor (decoded_cursor x display token dir)))
          sort_by
          b
        ≡ where_cursor db (some (Pagination.cursor Cursor.default)) sort_by b)
      × (where_cursor {X = X} db
            (some (Pagination.cursor (decoded_cursor x display token dir)))
            sort_by
            b
          ≡ ok (none, b))
      × ((decoded_cursor x display token dir).error ≡ some (display e))
unfolding decoded_cursor where_cursor Cursor.with_error
where_cursor-decoded_cursor x display token dir e X db sort_by b h =
    let failed = decoded_cursor_failed x display token dir e h in rw failed (refl, refl, refl)
