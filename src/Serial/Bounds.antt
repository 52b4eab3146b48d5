-- ===== src/Serial/Bounds.antt =====
-- Numbered pages cover the rows, each row on one page, as far as an offset is a u32.
use sqlx_data.Prelude.{ℕ, ◌+◌, ◌-◌, ◌*◌, ◌/◌, ◌≤◌, ◌<◌, ◌≡◌, ◌↔◌, ap, max, min, arith}
use native.Mathlib.Nat.{div-eq_of_lt-le, div-mul-le_self, lt-div-mul-add}
use sqlx_data.Serial
use sqlx_data.Serial.{SerialParams, max_u32}

-- The row, counted from 0, is one of those from the offset on that the limit lets through.
abbrev pub IsOn : ℕ → SerialParams → Type 0
IsOn row p = (Serial.offset p ≤ row) × (row < Serial.offset p + Serial.limit p)

-- Pages before the given one, and the size, are numbers without bounds here.
on_page_iff :
    (before size row cap : ℕ)
    → 0 < size
    → row < cap
    → ((min (before * size) cap ≤ row) × (row < min (before * size) cap + size))
      ↔ (row / size ≡ before)
on_page_iff before size row cap pos small = (
  λ h. div-eq_of_lt-le size (omega (arith, h, small)) (grind (arith, h, small)),
  λ e.
      let low = div-mul-le_self row size in
      let high = lt-div-mul-add {a = row} pos in
      let same = ap (λ (t : ℕ). t * size) e in
      (omega (arith, low, same), omega (arith, low, high, same, small)),
)

-- For every request, the page and the size that are kept are at least one, and every row whose number,
-- from 0, is below the largest u32 is on exactly one page: on the page of the number that is one more than
-- the full pages of this size before the row, where a request for page 0 is one for page 1.
pub offset-new :
    (page per_page row : ℕ)
    → row < max_u32
    → (let p = Serial.new page per_page in
        (1 ≤ p.page)
        × (1 ≤ Serial.limit p)
        × (IsOn row p ↔ (max page 1 ≡ row / max per_page 1 + 1)))
unfolding Serial.new Serial.offset Serial.limit
offset-new page per_page row small = (
  omega arith,
  omega arith,
  let on = on_page_iff (max page 1 - 1) (max per_page 1) row max_u32 (omega arith) small in
      (λ h. omega (arith, on.0 h), λ e. on.1 (omega (arith, e))),
)
