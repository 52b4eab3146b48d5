-- ===== src/Response/Tokens.antt =====
-- The tokens of a cursor page against its flags.
use sqlx_data.Prelude.{
  ℕ, zero, suc, Bool-cases, inl, inr, ◌≤◌, ◌≡◌, Text, Bool, true, false, not, Option, none, some,
  is_some, first, last, List, ◌∷◌, length, take, ltb, arith, if◌then◌else◌,
}
use sqlx_data.Error.{CursorErrorKind, Result, ok, err, map_err, sqlx_of_cursor, split_ok}
use sqlx_data.Sorting.{SortingParams}
use sqlx_data.Cursor
use sqlx_data.Cursor.{
  CursorData, CursorParams, CursorDirection, SecureExtract, generate_cursor, cursor_of_item,
  encode_cursor, generate_next_cursor, generate_prev_cursor,
}
use sqlx_data.Response.{
  CursorPage, cursor_page, truncated, with_tokens, generate_cursors, is_before,
}

map_err_ok :
    {A : Type 0} (r : Result CursorErrorKind A) {a : A} → map_err sqlx_of_cursor r ≡ ok a → r ≡ ok a
map_err_ok (ok a) h = cc
map_err_ok (err e) h = cc

module _ {T : Type 0} (x : SecureExtract T) where
  cursor_of_item-some :
      (fields : List Text) (item : T) {o : Option CursorData}
      → cursor_of_item x fields item ≡ ok o
      → is_some o ≡ true
  unfolding cursor_of_item
  cursor_of_item-some fields item h = ground arith

  generate_cursor-some :
      (i : T) (items : List T) (sorting : SortingParams) (get : List T → Option T)
      {o : Option CursorData}
      → generate_cursor x (i ∷ items) true sorting get ≡ ok o
      → is_some o ≡ true
  unfolding generate_cursor
  generate_cursor-some i items sorting get h = ground arith

  encode_cursor-some :
      (o : Option CursorData) {t : Option Text}
      → is_some o ≡ true
      → encode_cursor x o ≡ ok t
      → is_some t ≡ true
  encode_cursor-some none e h = cc
  encode_cursor-some (some c) e h = ground arith

  generate_next_cursor-some :
      (i : T) (items : List T) (sorting : SortingParams) {t : Option Text}
      → generate_next_cursor x (i ∷ items) true sorting ≡ ok t
      → is_some t ≡ true
  unfolding generate_next_cursor
  generate_next_cursor-some i items sorting h =
      let (c, made, encoded) = split_ok (generate_cursor x (i ∷ items) true sorting last) h in
      encode_cursor-some c (generate_cursor-some i items sorting last made) encoded

  generate_prev_cursor-some :
      (i : T) (items : List T) (sorting : SortingParams) {t : Option Text}
      → generate_prev_cursor x (i ∷ items) true sorting ≡ ok t
      → is_some t ≡ true
  unfolding generate_prev_cursor
  generate_prev_cursor-some i items sorting h =
      let (c, made, encoded) = split_ok (generate_cursor x (i ∷ items) true sorting first) h in
      encode_cursor-some c (generate_cursor-some i items sorting first made) encoded

  next_token :
      (flag : Bool) (i : T) (items : List T) (sorting : SortingParams) {t : Option Text}
      → (if flag
          then map_err sqlx_of_cursor (generate_next_cursor x (i ∷ items) flag sorting)
          else ok none)
        ≡ ok t
      → is_some t ≡ flag
  next_token true i items sorting h = generate_next_cursor-some i items sorting (map_err_ok _ h)
  next_token false i items sorting h = ground arith

  prev_token :
      (flag : Bool) (i : T) (items : List T) (sorting : SortingParams) {t : Option Text}
      → (if flag
          then map_err sqlx_of_cursor (generate_prev_cursor x (i ∷ items) flag sorting)
          else ok none)
        ≡ ok t
      → is_some t ≡ flag
  prev_token true i items sorting h = generate_prev_cursor-some i items sorting (map_err_ok _ h)
  prev_token false i items sorting h = ground arith

  generate_cursors-some :
      (i : T) (items : List T) (has_more had_prev : Bool) (sorting : SortingParams)
      (tokens : Option Text × Option Text)
      → generate_cursors x (i ∷ items) has_more had_prev sorting ≡ ok tokens
      → (is_some (tokens.0) ≡ has_more) × (is_some (tokens.1) ≡ had_prev)
  unfolding generate_cursors
  generate_cursors-some i items has_more had_prev sorting tokens h =
      let (n, made_next, h') = split_ok _ h in
      let (p, made_prev, done) = split_ok _ h' in
      let e : (n, p) ≡ tokens = cc done in
      rw (← e) (
        next_token has_more i items sorting made_next,
        prev_token had_prev i items sorting made_prev,
      )

truncated-cons :
    {T : Type 0} (i : T) (items : List T) (limit : ℕ)
    → 1 ≤ limit
    → (rest : List T) × (truncated limit (i ∷ items) ≡ i ∷ rest)
truncated-cons i items zero h = absurd (omega arith)
truncated-cons i items (suc n) h = elim (Bool-cases (ltb (suc n) (length (i ∷ items)))) [
  | inl more ↦ (take n items, rw more)
  | inr all_here ↦ (items, rw all_here)
]

with_tokens-flags :
    {T : Type 0} (is_backward has_more had_prev : Bool) (page : List T) (limit : ℕ)
    (tokens : Option Text × Option Text)
    → (is_some (tokens.0) ≡ has_more) × (is_some (tokens.1) ≡ had_prev)
    → let p = with_tokens is_backward has_more had_prev page limit tokens in
      (is_some p.next_cursor ≡ (if is_backward then p.has_prev else p.has_next))
      × (is_some p.prev_cursor ≡ (if is_backward then p.has_next else p.has_prev))
with_tokens-flags true has_more had_prev page limit tokens h = h
with_tokens-flags false has_more had_prev page limit tokens h = h

pub ok-injective : {E A : Type 0} {a b : A} → ◌≡◌ {A = Result E A} (ok a) (ok b) → a ≡ b
ok-injective h = cc h

-- A page by cursor that succeeds, over at least one row and with room for one. Paging forward, it
-- has a next token exactly if it says that there is a next page, and a previous token exactly if
-- it says that there is a previous page. Paging backward it is the other way round: the next token
-- goes with the flag of the previous page, and the previous token with that of the next.
pub cursor_page-tokens :
    {T : Type 0} (x : SecureExtract T) (i : T) (items : List T) (limit : ℕ)
    (sorting : SortingParams) (c : CursorParams) (p : CursorPage T)
    → 1 ≤ limit
    → cursor_page x (i ∷ items) limit sorting c ≡ ok p
    → (is_some p.next_cursor ≡ (if is_before c.direction then p.has_prev else p.has_next))
      × (is_some p.prev_cursor ≡ (if is_before c.direction then p.has_next else p.has_prev))
unfolding cursor_page
cursor_page-tokens x i items limit sorting c p h e =
    let (rest, cut) = truncated-cons i items limit h in
    let has_more = ltb limit (length (i ∷ items)) in
    let had_prev = not (Cursor.is_empty c) in
    let (tokens, made, done) =
      split_ok (generate_cursors x (truncated limit (i ∷ items)) has_more had_prev sorting) e in
    rw (← ok-injective done) (
      with_tokens-flags (is_before c.direction) has_more had_prev (truncated limit (i ∷ items))
        limit tokens
        (generate_cursors-some x i rest has_more had_prev sorting tokens (rw cut at made)))
