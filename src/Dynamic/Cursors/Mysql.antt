-- ===== src/Dynamic/Cursors/Mysql.antt =====
-- The condition of a cursor on MySQL, where each value is given to the next ? of the text.
use sqlx_data.Prelude.{
  ◌<◌, ◌≡◌, refl, ◌∙◌, ap, Text, List, [], ◌∷◌, ◌++◌, length, append_assoc, arith,
}
use sqlx_data.Error.{ok}
use sqlx_data.Value.{FilterValue}
use sqlx_data.Sort.{Sort}
use sqlx_data.Cursor.{CursorDirection}
use sqlx_data.Ast.{Expr}
use sqlx_data.Dynamic.Binder.{Database, Binder, M, >>=_ok}
use sqlx_data.Dynamic.Cursors.{wrap_rest, build_cursor_condition, cursor_expr}

-- The columns that are compared with a placeholder, in the order of the text.
abbrev pub tested : {X : Type 0} → Expr X → List Text
tested (Expr.binary_op (Expr.identifier name) op r) = name ∷ []
tested (Expr.binary_op l op r) = tested l ++ tested r
tested (Expr.nested e) = tested e
tested _ = []

-- Each key but the last is compared twice before the next one.
abbrev pub text_order : List Sort → List Text
text_order [] = []
text_order (s ∷ []) = s.field ∷ []
text_order (s ∷ t ∷ sorts) = s.field ∷ (s.field ∷ text_order (t ∷ sorts))

-- The second copy of a value comes after the values of all the keys that follow.
abbrev pub bind_order : List FilterValue → List FilterValue
bind_order [] = []
bind_order (v ∷ []) = v ∷ []
bind_order (v ∷ w ∷ values) = v ∷ (bind_order (w ∷ values) ++ v ∷ [])

abbrev Emits : {X : Type 0} → M (Expr X) → Binder → List Text → List FilterValue → Type 0
Emits {X} m b columns values =
    (e : Expr X) × (b' : Binder) × (m b ≡ ok (e, b'))
    × (tested e ≡ columns)
    × (b'.binds ≡ b.binds ++ values)

tested-wrap_rest :
    {X : Type 0} (sorts : List Sort) (e : Expr X) → tested (wrap_rest sorts e) ≡ tested e
tested-wrap_rest [] e = refl
tested-wrap_rest (s ∷ []) e = refl
tested-wrap_rest (s ∷ t ∷ sorts) e = refl

build-Emits :
    (X : Type 0) (dir : CursorDirection) (s : Sort) (sorts : List Sort) (v : FilterValue)
    (values : List FilterValue) (b : Binder)
    → length sorts ≡ length values
    → Emits
        (build_cursor_condition {X = X} Database.mysql dir (s ∷ sorts) (v ∷ values))
        b
        (text_order (s ∷ sorts))
        (bind_order (v ∷ values))
unfolding build_cursor_condition
build-Emits X dir s [] v [] b same = (_, _, refl, refl, refl)
build-Emits X dir s [] v (w ∷ values) b same = absurd (omega arith)
build-Emits X dir s (t ∷ sorts) v [] b same = absurd (omega arith)
build-Emits X dir s (t ∷ sorts) v (w ∷ values) b same =
    let b1 : Binder = record { binds = b.binds ++ v ∷ []; next = b.next } in
    let (rest, b', made, columns, bound) = build-Emits X dir t sorts w values b1 (omega arith) in
    (
      _,
      record { binds = b'.binds ++ v ∷ []; next = b'.next },
      >>=_ok (build_cursor_condition Database.mysql dir (t ∷ sorts) (w ∷ values)) _ b1 made,
      ap (λ l. s.field ∷ (s.field ∷ l)) (tested-wrap_rest (t ∷ sorts) rest ∙ columns),
      ap (λ l. l ++ v ∷ []) bound
          ∙ append_assoc (b.binds ++ v ∷ []) (bind_order (w ∷ values)) (v ∷ [])
          ∙ append_assoc b.binds (v ∷ []) (bind_order (w ∷ values) ++ v ∷ []),
    )

-- On MySQL, with as many values as sort keys and at least one: the condition of a cursor is built. Its
-- text compares each key but the last twice before it comes to the next key, but the second copy
-- of a key's value is bound only after the values of all later keys. With two keys a, b and values
-- v, w the text asks for a, a, b and gets v, w, v.
pub cursor_expr-mysql_order :
    (X : Type 0) (dir : CursorDirection) (sorts : List Sort) (values : List FilterValue)
    (b : Binder)
    → 0 < length values
    → length sorts ≡ length values
    → (e : Expr X) × (b' : Binder) × (cursor_expr Database.mysql dir sorts values b ≡ ok (e, b'))
      × (tested e ≡ text_order sorts)
      × (b'.binds ≡ b.binds ++ bind_order values)
unfolding cursor_expr
cursor_expr-mysql_order X dir sorts [] b h same = absurd (omega arith)
cursor_expr-mysql_order X dir [] (v ∷ values) b h same = absurd (omega arith)
cursor_expr-mysql_order X dir (s ∷ []) (v ∷ []) b h same = (_, _, refl, refl, refl)
cursor_expr-mysql_order X dir (s ∷ t ∷ sorts) (v ∷ []) b h same = absurd (omega arith)
cursor_expr-mysql_order X dir (s ∷ sorts) (v ∷ w ∷ values) b h same =
    build-Emits X dir s sorts v (w ∷ values) b (omega arith)
