-- ===== src/Dynamic/Cursors/Keyset.antt =====
-- The condition of a cursor selects the rows that come after its position.
use Prim.Native.Nat.{Ordering}
use sqlx_data.Prelude.{
  ℕ, ◌+◌, ◌<◌, ◌≡◌, ◌≢◌, ◌↔◌, ◌⊎◌, refl, ◌∙◌, ap, inl, inr, true, Text, List, [], ◌∷◌, ◌++◌,
  append_assoc, length, Option, some, arith,
}
use sqlx_data.Error.{SqlxError, Result, ok}
use sqlx_data.Value.{FilterValue}
use sqlx_data.Sort
use sqlx_data.Sort.{Sort}
use sqlx_data.Cursor.{CursorDirection}
use sqlx_data.Ast.{Expr, Value}
use sqlx_data.Response.{is_before}
use sqlx_data.Dynamic.Binder.{Database, Binder, placeholder_text, advance, pure, >>=_ok}
use sqlx_data.Dynamic.Binder.Numbering.{
  resolve, resolve_next, InStep, bound, bound-InStep, bound_all, binds-bound_all,
}
use sqlx_data.Dynamic.Exprs
use sqlx_data.Dynamic.Query.{final_direction}
use sqlx_data.Dynamic.Semantics.{Values, eval, Follows, Past}
use sqlx_data.Dynamic.Cursors.{
  cursor_operator, key_or_rest, equal_value, build_cursor_condition, cursor_expr,
}

module _ {X : Type 0} where
  abbrev pub hole : Database → ℕ → Expr X
  hole db n = Expr.value (Value.placeholder (placeholder_text db n))

  abbrev pub test_key : Database → CursorDirection → ℕ → Sort → Expr X
  test_key db dir n s =
      Exprs.bin (cursor_operator dir (Sort.is_asc s)) (Exprs.id s.field) (hole db n)

  -- What the builder returns, written without its state.
  abbrev pub condition : Database → CursorDirection → ℕ → List Sort → Expr X
  condition db dir n [] = hole db n
  condition db dir n (s ∷ sorts) = elim sorts [
    | [] ↦ test_key db dir n s
    | t ∷ [] ↦
        key_or_rest (cursor_operator dir (Sort.is_asc s)) s.field (hole db n) (hole db n)
          (test_key db dir (n + 1) t)
    | _ ↦
        key_or_rest (cursor_operator dir (Sort.is_asc s)) s.field (hole db n) (hole db n)
          (Expr.nested (condition db dir (n + 1) sorts))
  ]

advance_small : (db : Database) (n : ℕ) → db ≢ Database.mysql → n + 1 < 256 → advance db n ≡ n + 1
advance_small Database.mysql n ne h = absurd (ne refl)
advance_small Database.sqlite n ne h = omega arith
advance_small Database.postgres n ne h = omega arith

equal_value_again :
    {X : Type 0} (db : Database) (v : FilterValue) (ph : Expr X)
    → db ≢ Database.mysql
    → equal_value db v ph ≡ pure ph
equal_value_again Database.mysql v ph ne = absurd (ne refl)
equal_value_again Database.sqlite v ph ne = refl
equal_value_again Database.postgres v ph ne = refl

abbrev with_rest :
    {X : Type 0}
    → Database
    → CursorDirection
    → ℕ
    → Sort
    → Expr X
    → Binder
    → Result SqlxError (Expr X × Binder)
with_rest db dir n s rest b = ok (
  key_or_rest (cursor_operator dir (Sort.is_asc s)) s.field (hole db n) (hole db n)
      (Expr.nested rest),
  b,
)

build-condition :
    {X : Type 0} (db : Database) (dir : CursorDirection) (s : Sort) (sorts : List Sort)
    (v : FilterValue) (vs : List FilterValue) (b : Binder)
    → db ≢ Database.mysql
    → length sorts ≡ length vs
    → b.next + length vs < 255
    → build_cursor_condition {X = X} db dir (s ∷ sorts) (v ∷ vs) b
      ≡ ok (condition db dir b.next (s ∷ sorts), bound_all db (v ∷ vs) b)
unfolding build_cursor_condition
build-condition db dir s [] v [] b ne same small = refl
build-condition db dir s [] v (w ∷ vs) b ne same small = absurd (omega arith)
build-condition db dir s (t ∷ sorts) v [] b ne same small = absurd (omega arith)
build-condition db dir s (t ∷ []) v (w ∷ []) b ne same small =
    rw (equal_value_again db v (hole db b.next) ne, advance_small db b.next ne (omega arith))
build-condition db dir s (t ∷ []) v (w ∷ _ ∷ _) b ne same small = absurd (omega arith)
build-condition db dir s (t ∷ u ∷ sorts) v (w ∷ vs) b ne same small =
    let e = advance_small db b.next ne (omega arith) in
    >>=_ok (build_cursor_condition db dir (t ∷ u ∷ sorts) (w ∷ vs)) _ (bound db v b)
      (build-condition db dir t (u ∷ sorts) w vs (bound db v b) ne (omega arith) (omega (arith, e)))
    ∙ rw (equal_value_again db v (hole db b.next) ne) (
        ap
          (λ n.
            with_rest db dir b.next s (condition db dir n (t ∷ u ∷ sorts))
              (bound_all db (v ∷ w ∷ vs) b))
          e)

module _ (w : Values) (row : Text → w.V) (look : Text → Option FilterValue) where
  test_key_iff :
      (X : Type 0) (db : Database) (dir : CursorDirection) (n : ℕ) (s : Sort) {v : FilterValue}
      → look (placeholder_text db n) ≡ some v
      → (eval w row {X = X} look (test_key db dir n s) ≡ true)
        ↔ Past w (final_direction (is_before (some dir)) s) (row s.field) (w.meaning v)
  test_key_iff X db CursorDirection.after n s h = ground arith
  test_key_iff X db CursorDirection.before n s h = ground arith

  key_or_rest_iff :
      (db : Database) (dir : CursorDirection) (n : ℕ) (s : Sort) {X : Type 0} (rest : Expr X)
      {v : FilterValue}
      → look (placeholder_text db n) ≡ some v
      → (eval w row look
            (key_or_rest (cursor_operator dir (Sort.is_asc s)) s.field (hole db n) (hole db n) rest)
          ≡ true)
        ↔ (Past w (final_direction (is_before (some dir)) s) (row s.field) (w.meaning v)
            ⊎ ((w.cmp (row s.field) (w.meaning v) ≡ Ordering.eq) × (eval w row look rest ≡ true)))
  key_or_rest_iff db CursorDirection.after n s rest h = ground arith
  key_or_rest_iff db CursorDirection.before n s rest h = ground arith

-- The value bound first is found by its placeholder, whatever is bound later.
resolve_first :
    (db : Database) (count most n : ℕ) (v : FilterValue) (vs more : List FilterValue) (b : Binder)
    → db ≢ Database.mysql
    → InStep count most b
    → b.next ≡ n
    → n < 256
    → resolve count most ((bound_all db (v ∷ vs) b).binds ++ more) (placeholder_text db n) ≡ some v
resolve_first db count most n v vs more b ne h e small =
    rw
      (
        binds-bound_all db vs (bound db v b),
        append_assoc b.binds _ vs,
        append_assoc b.binds _ more,
        ← e,
      )
      (resolve_next db count most b v (vs ++ more) ne h (omega arith))

either_iff : {A B C D : Type 0} → A ↔ (B ⊎ (C × D)) → {E : Type 0} → D ↔ E → A ↔ (B ⊎ (C × E))
either_iff (to, from) (up, down) = (
  λ a. elim (to a) [ inl b ↦ inl b | inr p ↦ inr (p.0, up (p.1)) ],
  λ o. from (elim o [ inl b ↦ inl b | inr p ↦ inr (p.0, down (p.1)) ]),
)

alone_iff : {A B C : Type 0} → A ↔ B → A ↔ (B ⊎ (C × ⊥))
alone_iff (to, from) = (λ a. inl (to a), λ o. elim o [ inl b ↦ from b | inr p ↦ absurd (p.1) ])

module _ (w : Values) (row : Text → w.V) (X : Type 0) (db : Database) (ne : db ≢ Database.mysql)
    (dir : CursorDirection) (count most : ℕ) (more : List FilterValue) where
  abbrev lookup : List FilterValue → Binder → Text → Option FilterValue
  lookup vs b = resolve count most ((bound_all db vs b).binds ++ more)

  condition_iff :
      (s : Sort) (sorts : List Sort) (v : FilterValue) (vs : List FilterValue) (b : Binder) (n : ℕ)
      → InStep count most b
      → b.next ≡ n
      → length sorts ≡ length vs
      → n + length vs < 255
      → (eval w row (lookup (v ∷ vs) b) (condition {X = X} db dir n (s ∷ sorts)) ≡ true)
        ↔ Follows w row (is_before (some dir)) (s ∷ sorts) (v ∷ vs)
  condition_iff s [] v [] b n h e same small = alone_iff (
      test_key_iff w row (lookup (v ∷ []) b) X db dir n s
        (resolve_first db count most n v [] more b ne h e (omega arith)))
  condition_iff s [] v (_ ∷ _) b n h e same small = absurd (omega arith)
  condition_iff s (t ∷ sorts) v [] b n h e same small = absurd (omega arith)
  condition_iff s (t ∷ []) v (u ∷ vs) b n h e same small =
      let a = advance_small db b.next ne (omega arith) in
      either_iff
        (key_or_rest_iff w row (lookup (v ∷ u ∷ vs) b) db dir n s
          (test_key {X = X} db dir (n + 1) t)
          (resolve_first db count most n v (u ∷ vs) more b ne h e (omega arith)))
        (condition_iff t [] u vs (bound db v b) (n + 1)
          (bound-InStep db count most b v ne h (omega arith)) (a ∙ omega arith) (omega arith)
          (omega arith))
  condition_iff s (t ∷ t' ∷ sorts) v (u ∷ vs) b n h e same small =
      let a = advance_small db b.next ne (omega arith) in
      either_iff
        (key_or_rest_iff w row (lookup (v ∷ u ∷ vs) b) db dir n s
          (Expr.nested (condition {X = X} db dir (n + 1) (t ∷ t' ∷ sorts)))
          (resolve_first db count most n v (u ∷ vs) more b ne h e (omega arith)))
        (condition_iff t (t' ∷ sorts) u vs (bound db v b) (n + 1)
          (bound-InStep db count most b v ne h (omega arith)) (a ∙ omega arith) (omega arith)
          (omega arith))

  cursor_expr-condition :
      (s : Sort) (sorts : List Sort) (v : FilterValue) (vs : List FilterValue) (b : Binder)
      → length sorts ≡ length vs
      → b.next + length vs < 255
      → cursor_expr {X = X} db dir (s ∷ sorts) (v ∷ vs) b
        ≡ ok (condition db dir b.next (s ∷ sorts), bound_all db (v ∷ vs) b)
  unfolding cursor_expr
  cursor_expr-condition s [] v [] b same small = refl
  cursor_expr-condition s (t ∷ sorts) v [] b same small = absurd (omega arith)
  cursor_expr-condition s sorts v (u ∷ vs) b same small =
      build-condition db dir s sorts v (u ∷ vs) b ne same small

-- With numbered placeholders and as many values as sort keys, at most 254 of them with what was
-- bound before, the condition of a cursor is built, its values are bound in order, and it holds of
-- a row exactly when the row comes strictly after the cursor in the order that the query asks for,
-- which is reversed for a cursor that pages backwards.
pub cursor_expr-Follows :
    (w : Values) (row : Text → w.V) (X : Type 0) (db : Database) (dir : CursorDirection)
    (count most : ℕ) (sorts : List Sort) (values : List FilterValue) (b : Binder)
    → db ≢ Database.mysql
    → InStep count most b
    → 0 < length values
    → length sorts ≡ length values
    → b.next + length values < 256
    → (e : Expr X) × (b' : Binder) × (cursor_expr db dir sorts values b ≡ ok (e, b'))
      × (b'.binds ≡ b.binds ++ values)
      × ((more : List FilterValue)
          → (eval w row (resolve count most (b'.binds ++ more)) e ≡ true)
            ↔ Follows w row (is_before (some dir)) sorts values)
cursor_expr-Follows w row X db dir count most sorts [] b ne h some_values same small =
    absurd (omega arith)
cursor_expr-Follows w row X db dir count most [] (v ∷ vs) b ne h some_values same small =
    absurd (omega arith)
cursor_expr-Follows w row X db dir count most (s ∷ sorts) (v ∷ vs) b ne h some_values same small = (
  condition db dir b.next (s ∷ sorts),
  bound_all db (v ∷ vs) b,
  cursor_expr-condition w row X db ne dir count most [] s sorts v vs b (omega arith) (omega arith),
  binds-bound_all db (v ∷ vs) b,
  λ more.
      condition_iff w row X db ne dir count most more s sorts v vs b b.next h refl (omega arith)
        (omega arith),
)
