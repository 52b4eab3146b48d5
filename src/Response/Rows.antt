-- ===== src/Response/Rows.antt =====
-- The rows of a cursor page against the rows of the query.
use sqlx_data.Prelude.{
  ℕ, suc, ◌≤◌, ◌<◌, ◌≡◌, refl, ◌∙◌, sym, Bool, not, Option, some, List, length, take, reverse, ltb,
  max, arith, take-take-suc, take_all, length-take, Bool-cases, inl, inr, if◌then◌else◌, Text,
}
use sqlx_data.Error.{ok, split_ok}
use sqlx_data.Serial.{max_u32}
use sqlx_data.Sorting.{SortingParams}
use sqlx_data.Cursor
use sqlx_data.Cursor.{CursorParams, SecureExtract}
use sqlx_data.Params
use sqlx_data.Params.{Params, Pagination}
use sqlx_data.Dynamic.Query.{actual_limit}
use sqlx_data.Response.Tokens.{ok-injective}
use sqlx_data.Response.{
  CursorPage, cursor, cursor_page, page_size, truncated, with_tokens, generate_cursors, is_before,
}

truncated-take :
    {T : Type 0} (rows : List T) (n : ℕ) → truncated n (take (suc n) rows) ≡ take n rows
truncated-take rows n = elim (Bool-cases (ltb n (length (take (suc n) rows)))) [
  | inl more ↦ rw more (take-take-suc n rows)
  | inr all_here ↦
      let short : length rows ≤ n = ground (arith, length-take (suc n) rows) in
      rw all_here (take_all (suc n) rows (omega arith) ∙ sym (take_all n rows short))
]

more-take :
    {T : Type 0} (rows : List T) (n : ℕ) → ltb n (length (take (suc n) rows)) ≡ ltb n (length rows)
more-take rows n = ground (arith, length-take (suc n) rows)

limit-cursor :
    (params : Params) (c : CursorParams) (n : ℕ)
    → params.pagination ≡ some (Pagination.cursor c)
    → n < max_u32
    → actual_limit params n ≡ suc n
unfolding actual_limit Params.limit_plus_one
limit-cursor params c n ps h = rw ps (omega arith)

-- The page of `limit` rows, as `with_tokens` puts it together.
abbrev Holds : {T : Type 0} → List T → Bool → Bool → CursorPage T → CursorParams → Type 0
Holds page has_more had_prev p c =
    (p.items ≡ (if is_before c.direction then reverse page else page))
    × ((if is_before c.direction then p.has_prev else p.has_next) ≡ has_more)
    × ((if is_before c.direction then p.has_next else p.has_prev) ≡ had_prev)

with_tokens-Holds :
    {T : Type 0} (page : List T) (has_more had_prev : Bool) (limit : ℕ)
    (tokens : Option Text × Option Text) (c : CursorParams)
    → Holds page has_more had_prev
        (with_tokens (is_before c.direction) has_more had_prev page limit tokens)
        c
with_tokens-Holds page has_more had_prev limit tokens c =
    elim (Bool-cases (is_before c.direction)) [
      | inl h ↦ rw h (refl, refl, refl)
      | inr h ↦ rw h (refl, refl, refl)
    ]

cursor_page-Holds :
    {T : Type 0} (x : SecureExtract T) (rows : List T) (limit : ℕ) (sorting : SortingParams)
    (c : CursorParams) (p : CursorPage T)
    → cursor_page x rows limit sorting c ≡ ok p
    → Holds (truncated limit rows) (ltb limit (length rows)) (not (Cursor.is_empty c)) p c
unfolding cursor_page
cursor_page-Holds x rows limit sorting c p e =
    let (tokens, made, done) =
      split_ok
        (generate_cursors x (truncated limit rows) (ltb limit (length rows))
          (not (Cursor.is_empty c)) sorting)
        e in
    rw (← ok-injective done) (
      with_tokens-Holds (truncated limit rows) (ltb limit (length rows)) (not (Cursor.is_empty c))
        limit tokens c)

cursor-cursor_page :
    {T : Type 0} (x : SecureExtract T) (items : List T) (params : Params) (sorting : SortingParams)
    (c : CursorParams) (n : ℕ)
    → params.sort_by ≡ some sorting
    → params.pagination ≡ some (Pagination.cursor c)
    → params.limit ≡ some n
    → 1 ≤ n
    → cursor x items params ≡ cursor_page x items n sorting c
unfolding cursor page_size
cursor-cursor_page x items params sorting c n ps pp pl h =
    let e : max n 1 ≡ n = omega arith in rw (ps, cursor, pp, pl, e) refl

-- A query by cursor with sort keys asks for `n` rows a page, at least one and below the largest u32, and
-- the database returns as many of the rows as the emitted LIMIT allows. If the page is made, it
-- holds the first `n` rows, reversed when paging backward; the flag in the direction of paging says
-- whether there are more than `n` rows, and the other flag whether the cursor had a position.
pub cursor_of_limited :
    {T : Type 0} (x : SecureExtract T) (rows : List T) (params : Params) (sorting : SortingParams)
    (c : CursorParams) (n : ℕ) (p : CursorPage T)
    → params.sort_by ≡ some sorting
    → params.pagination ≡ some (Pagination.cursor c)
    → params.limit ≡ some n
    → 1 ≤ n
    → n < max_u32
    → cursor x (take (actual_limit params n) rows) params ≡ ok p
    → (p.items ≡ (if is_before c.direction then reverse (take n rows) else take n rows))
      × ((if is_before c.direction then p.has_prev else p.has_next) ≡ ltb n (length rows))
      × ((if is_before c.direction then p.has_next else p.has_prev) ≡ not (Cursor.is_empty c))
cursor_of_limited x rows params sorting c n p ps pp pl h k e =
    let lim = limit-cursor params c n pp k in
    let made =
      sym (cursor-cursor_page x (take (actual_limit params n) rows) params sorting c n ps pp pl h)
      ∙ e in
    rw (truncated-take rows n, more-take rows n) at
      (cursor_page-Holds x (take (suc n) rows) n sorting c p (rw lim at made))
