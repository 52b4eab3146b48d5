-- ===== src/Dynamic/Query/Order.antt =====
-- The ORDER BY that `process_query` emits: what it means for two rows without NULLs, and how it
-- fits the condition of a cursor.
use Prim.Native.Nat.{Ordering}
use sqlx_data.Prelude.{
  ℕ, suc, ◌+◌, ◌<◌, ◌≡◌, ◌≢◌, ◌↔◌, ◌⊎◌, refl, ap, sym, inl, true, false, Bool, not, Text, List, [],
  ◌∷◌, ◌++◌, map, length, Option, some, arith,
}
use sqlx_data.Error.{ok}
use sqlx_data.Value.{FilterValue}
use sqlx_data.Sort
use sqlx_data.Sort.{Sort}
use sqlx_data.Sorting.{SortingParams}
use sqlx_data.Cursor.{CursorParams, CursorDirection}
use sqlx_data.Params.{Params, Pagination}
use sqlx_data.Ast.{Expr, OrderByExpr, OrderBy}
use sqlx_data.Response.{is_before}
use sqlx_data.Dynamic.Binder.{Database, Binder}
use sqlx_data.Dynamic.Binder.Numbering.{resolve, InStep}
use sqlx_data.Dynamic.Query.{should_invert_order, final_direction, order_of, order_expr, new_order}
use sqlx_data.Dynamic.Semantics.{Values, eval, Follows, Past}
use sqlx_data.Dynamic.Cursors.{cursor_expr}
use sqlx_data.Dynamic.Cursors.Keyset.{cursor_expr-Follows}

abbrev pub swap : Ordering → Ordering
swap Ordering.lt = Ordering.gt
swap Ordering.eq = Ordering.eq
swap Ordering.gt = Ordering.lt

abbrev pub then : Ordering → Ordering → Ordering
then Ordering.lt o = Ordering.lt
then Ordering.eq o = o
then Ordering.gt o = Ordering.gt

abbrev directed : Option Bool → Ordering → Ordering
directed (some false) o = swap o
directed _ o = o

module _ (w : Values) where
  -- Two rows by one key: `gt` if the first comes after the second.
  abbrev by_key : {X : Type 0} → Expr X → Option Bool → (r s : Text → w.V) → Ordering
  by_key (Expr.identifier name) asc r s = directed asc (w.cmp (r name) (s name))
  by_key _ asc r s = Ordering.eq

  abbrev by_keys : {X : Type 0} → List (OrderByExpr X) → (r s : Text → w.V) → Ordering
  by_keys [] r s = Ordering.eq
  by_keys (k ∷ ks) r s = then (by_key k.expr k.asc r s) (by_keys ks r s)

  abbrev pub by_order : {X : Type 0} → Option (OrderBy X) → (r s : Text → w.V) → Ordering
  by_order (some (OrderBy.expressions ks)) r s = by_keys ks r s
  by_order _ r s = Ordering.eq

  -- The values are those of the row, key by key.
  abbrev pub TakenFrom : (Text → w.V) → List Sort → List FilterValue → Type 0
  TakenFrom s (k ∷ ks) (v ∷ vs) = (w.meaning v ≡ s k.field) × TakenFrom s ks vs
  TakenFrom s [] [] = Unit
  TakenFrom s _ _ = ⊥

after_iff :
    (o rest : Ordering) (P : Type 0)
    → P ↔ (rest ≡ Ordering.gt)
    → ((o ≡ Ordering.gt) ⊎ ((o ≡ Ordering.eq) × P)) ↔ (then o rest ≡ Ordering.gt)
after_iff Ordering.gt rest P h = (λ u. refl, λ e. inl refl)
after_iff Ordering.lt rest P h = ground arith
after_iff Ordering.eq rest P h = ground arith

before_iff :
    (o rest : Ordering) (P : Type 0)
    → P ↔ (rest ≡ Ordering.gt)
    → ((o ≡ Ordering.lt) ⊎ ((o ≡ Ordering.eq) × P)) ↔ (then (swap o) rest ≡ Ordering.gt)
before_iff Ordering.lt rest P h = (λ u. refl, λ e. inl refl)
before_iff Ordering.gt rest P h = ground arith
before_iff Ordering.eq rest P h = ground arith

swap-then : (o rest : Ordering) → swap (then o rest) ≡ then (swap o) (swap rest)
swap-then Ordering.lt rest = refl
swap-then Ordering.eq rest = refl
swap-then Ordering.gt rest = refl

module _ (w : Values) (r s : Text → w.V) (X : Type 0) where
  by_one_iff :
      (dir : Bool) (a b c : w.V) (rest : Ordering) (P : Type 0)
      → b ≡ c
      → P ↔ (rest ≡ Ordering.gt)
      → (Past w dir a b ⊎ ((w.cmp a b ≡ Ordering.eq) × P))
        ↔ (then (directed (some dir) (w.cmp a c)) rest ≡ Ordering.gt)
  by_one_iff true a b c rest P e h = rw (sym e) (after_iff (w.cmp a b) rest P h)
  by_one_iff false a b c rest P e h = rw (sym e) (before_iff (w.cmp a b) rest P h)

  Follows-by_keys :
      (invert : Bool) (sorts : List Sort) (values : List FilterValue)
      → TakenFrom w s sorts values
      → Follows w r invert sorts values
        ↔ (by_keys w (map (order_expr {X = X} invert) sorts) r s ≡ Ordering.gt)
  Follows-by_keys invert [] [] h = (λ u. absurd u, λ e. ground arith)
  Follows-by_keys invert [] (v ∷ vs) h = absurd h
  Follows-by_keys invert (k ∷ ks) [] h = absurd h
  Follows-by_keys invert (k ∷ ks) (v ∷ vs) (e, h) =
      by_one_iff (final_direction invert k) (r k.field) (w.meaning v) (s k.field)
        (by_keys w (map (order_expr {X = X} invert) ks) r s) (Follows w r invert ks vs) e
        (Follows-by_keys invert ks vs h)

  directed-not :
      (dir : Bool) (o : Ordering) → directed (some (not dir)) o ≡ swap (directed (some dir) o)
  directed-not true o = refl
  directed-not false Ordering.lt = refl
  directed-not false Ordering.eq = refl
  directed-not false Ordering.gt = refl

  by_keys-swap :
      (sorts : List Sort)
      → by_keys w (map (order_expr {X = X} true) sorts) r s
        ≡ swap (by_keys w (map (order_expr {X = X} false) sorts) r s)
  by_keys-swap [] = refl
  by_keys-swap (k ∷ ks) =
      let o = w.cmp (r k.field) (s k.field) in
      rw
        (
          directed-not (Sort.is_asc k) o,
          by_keys-swap ks,
          swap-then (directed (some (Sort.is_asc k)) o)
              (by_keys w (map (order_expr {X = X} false) ks) r s),
        )
        refl

length-TakenFrom :
    (w : Values) (s : Text → w.V) (sorts : List Sort) (values : List FilterValue)
    → TakenFrom w s sorts values
    → length sorts ≡ length values
length-TakenFrom w s [] [] h = refl
length-TakenFrom w s [] (v ∷ vs) h = absurd h
length-TakenFrom w s (k ∷ ks) [] h = absurd h
length-TakenFrom w s (k ∷ ks) (v ∷ vs) (e, h) = ap suc (length-TakenFrom w s ks vs h)

sorted :
    (X : Type 0) (invert : Bool) (sorts : List Sort) (old : Option (OrderBy X))
    → 0 < length sorts
    → order_of invert sorts old ≡ some (OrderBy.expressions (map (order_expr invert) sorts))
sorted X invert [] old h = absurd (omega arith)
sorted X invert (k ∷ ks) old h = refl

module _ (X : Type 0) (params : Params) (sorting : SortingParams) (old : Option (OrderBy X)) where
  new_order-sorted :
      params.sort_by ≡ some sorting
      → 0 < length sorting.sorts
      → new_order params old
        ≡ some (
            OrderBy.expressions
              (map (order_expr (should_invert_order params.pagination)) sorting.sorts))
  unfolding new_order
  new_order-sorted e h =
      rw (e, new_order) (sorted X (should_invert_order params.pagination) sorting.sorts old h)

-- For two cursors, the first of which pages backwards and the second of which does not, and at
-- least one sort key: the ORDER BY emitted with the first puts any two rows without NULLs in the
-- opposite order of the ORDER BY emitted with the second.
pub new_order-reversed :
    (w : Values) (r s : Text → w.V) (X : Type 0) (params : Params) (sorting : SortingParams)
    (old : Option (OrderBy X)) (back forth : CursorParams)
    → params.sort_by ≡ some sorting
    → 0 < length sorting.sorts
    → is_before back.direction ≡ true
    → is_before forth.direction ≡ false
    → by_order w (new_order (record params { pagination = some (Pagination.cursor back) }) old) r s
      ≡ swap (
          by_order w
            (new_order (record params { pagination = some (Pagination.cursor forth) }) old)
            r
            s)
new_order-reversed w r s X params sorting old back forth e h b f =
    let with_cursor : CursorParams → Params =
      λ c. record params { pagination = some (Pagination.cursor c) } in
    rw
      (
        new_order-sorted X (with_cursor back) sorting old e h,
        new_order-sorted X (with_cursor forth) sorting old e h,
        b,
        f,
      )
      (by_keys-swap w r s X sorting.sorts)

-- For a cursor whose values are those of the row `s` at the sort keys, at least one and at most 254
-- of them with what was bound before, with numbered placeholders and without NULLs: the condition
-- of the cursor is built, and it holds of exactly the rows that the emitted ORDER BY puts strictly
-- after `s`, whichever way the cursor pages.
pub new_order-cursor :
    (w : Values) (r s : Text → w.V) (X : Type 0) (params : Params) (sorting : SortingParams)
    (old : Option (OrderBy X)) (db : Database) (dir : CursorDirection) (c : CursorParams)
    (count most : ℕ) (b : Binder)
    → params.sort_by ≡ some sorting
    → params.pagination ≡ some (Pagination.cursor c)
    → c.direction ≡ some dir
    → db ≢ Database.mysql
    → InStep count most b
    → 0 < length sorting.sorts
    → TakenFrom w s sorting.sorts c.values
    → b.next + length c.values < 256
    → (e : Expr X) × (b' : Binder) × (cursor_expr db dir sorting.sorts c.values b ≡ ok (e, b'))
      × ((more : List FilterValue)
          → (eval w r (resolve count most (b'.binds ++ more)) e ≡ true)
            ↔ (by_order w (new_order params old) r s ≡ Ordering.gt))
new_order-cursor w r s X params sorting old db dir c count most b e p d ne step h taken small =
    let same = length-TakenFrom w s sorting.sorts c.values taken in
    let (x, b', built, bound, holds) =
      cursor_expr-Follows w r X db dir count most sorting.sorts c.values b ne step
        (omega (arith, same, h)) same small in
    let ordered : Follows w r (is_before (some dir)) sorting.sorts c.values
        ↔ (by_order w (new_order params old) r s ≡ Ordering.gt) =
      rw (new_order-sorted X params sorting old e h, p, d)
        (Follows-by_keys w r s X (is_before (some dir)) sorting.sorts c.values taken) in
    (x, b', built, λ more. (λ u. ordered.0 ((holds more).0 u), λ u. (holds more).1 (ordered.1 u)))
