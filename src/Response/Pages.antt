-- ===== src/Response/Pages.antt =====
-- Numbered pages: how many there are, and what one extra row says of the rows beyond a page.
use native.Mathlib.Nat.{div-add-mod, mod-lt}
use sqlx_data.Prelude.{
  ℕ, suc, ◌+◌, ◌-◌, ◌*◌, ◌/◌, ◌≤◌, ◌<◌, ◌≡◌, refl, some, List, length, take, take-take-suc,
  take_all, length-take, ltb, max, arith, Bool-cases, inl, inr, sym, ◌∙◌,
}
use sqlx_data.Prelude.Int.{ℤ, pos, max_i64}
use sqlx_data.Serial.{max_u32}
use sqlx_data.Slice.{SliceParams}
use sqlx_data.Params
use sqlx_data.Params.{Params, Pagination}
use sqlx_data.Dynamic.Query.{actual_limit}
use sqlx_data.Response.{slice, calculate_total_pages, trim_to_page}

-- For a count of at least zero that leaves room in an i64 and needs at most as many pages as a u32
-- can number, the pages hold all items, and one page less would not.
pub calculate_total_pages_covers :
    (n size : ℕ)
    → 1 ≤ size
    → n + (size - 1) ≤ max_i64
    → (n + (size - 1)) / size ≤ max_u32
    → (n ≤ calculate_total_pages (pos n) size * size)
      × (calculate_total_pages (pos n) size * size < n + size)
unfolding calculate_total_pages
calculate_total_pages_covers n size h k fits = grind (arith, div-add-mod, mod-lt)

trim-take :
    {T : Type 0} (items : List T) (n : ℕ)
    → 1 ≤ n
    → (trim_to_page (take (suc n) items) n).0 ≡ take n items
unfolding trim_to_page
trim-take items n h = elim (Bool-cases (ltb n (length (take (suc n) items)))) [
  | inl more ↦ rw more (take-take-suc n items)
  | inr all_here ↦
      let short : length items ≤ n = ground (arith, length-take (suc n) items) in
      rw all_here (take_all (suc n) items (omega arith) ∙ sym (take_all n items short))
]

trim-has_next :
    {T : Type 0} (items : List T) (n : ℕ)
    → (trim_to_page (take (suc n) items) n).1 ≡ ltb n (length items)
unfolding trim_to_page
trim-has_next items n = ground (arith, length-take (suc n) items)

limit-slice :
    (params : Params) (s : SliceParams) (n : ℕ)
    → params.pagination ≡ some (Pagination.slice s)
    → n < max_u32
    → actual_limit params n ≡ suc n
unfolding actual_limit Params.limit_plus_one
limit-slice params s n ps h = rw ps (omega arith)

slice-trim :
    {T : Type 0} (items : List T) (params : Params) (s : SliceParams) (n : ℕ) (total : ℤ)
    → params.pagination ≡ some (Pagination.slice s)
    → params.limit ≡ some n
    → 1 ≤ n
    → ((slice items params total).items ≡ (trim_to_page items n).0)
      × ((slice items params total).has_next ≡ (trim_to_page items n).1)
      × ((slice items params total).size ≡ n)
unfolding slice
slice-trim items params s n total ps pl h =
    let e : max n 1 ≡ n = omega arith in simp (ps, pl, e) (refl, refl, refl)

-- If a query for a slice asks for `n` rows a page, at least one and below the largest u32, and the
-- database returns as many of the rows as the emitted LIMIT allows, then the page holds the first
-- `n` rows, and it says that there is a next page exactly when there are more than `n` rows.
pub slice_of_limited :
    {T : Type 0} (rows : List T) (params : Params) (s : SliceParams) (n : ℕ) (total : ℤ)
    → params.pagination ≡ some (Pagination.slice s)
    → params.limit ≡ some n
    → 1 ≤ n
    → n < max_u32
    → ((slice (take (actual_limit params n) rows) params total).items ≡ take n rows)
      × ((slice (take (actual_limit params n) rows) params total).has_next ≡ ltb n (length rows))
      × ((slice (take (actual_limit params n) rows) params total).size ≡ n)
slice_of_limited rows params s n total ps pl h k = rw (limit-slice params s n ps k) (
    let (a, b, c) = slice-trim (take (suc n) rows) params s n total ps pl h in
    (a ∙ trim-take rows n h, b ∙ trim-has_next rows n, c))
