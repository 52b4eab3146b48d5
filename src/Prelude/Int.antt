-- ===== src/Prelude/Int.antt =====
-- Signed 64-bit integers as integers, with the checked operations that the source calls.
use sqlx_data.Prelude.{ℕ, ◌+◌, ◌-◌, ◌/◌, ◌^◌, ◌==◌, ltb, leb, Option, none, some, if◌then◌else◌}

-- `negsuc n` is -(n + 1).
pub data ℤ : Type 0 where
  pos : ℕ → ℤ
  negsuc : ℕ → ℤ

abbrev pub max_i64 : ℕ
max_i64 = 2 ^ 63 - 1

-- The sum of an integer and a natural number.
abbrev pub add_ℕ : ℤ → ℕ → ℤ
add_ℕ (pos n) k = pos (n + k)
add_ℕ (negsuc n) k = if leb k n then negsuc (n - k) else pos (k - (n + 1))

-- `checked_add` with a summand that is not negative: only the upper bound can be passed.
abbrev pub in_i64 : ℤ → Option ℤ
in_i64 (pos n) = if ltb max_i64 n then none else some (pos n)
in_i64 (negsuc n) = some (negsuc n)

-- -n
abbrev pub neg : ℕ → ℤ
neg n = if n == 0 then pos 0 else negsuc (n - 1)

-- `checked_div` by a divisor that is not negative; it rounds towards zero.
abbrev pub checked_div : ℤ → ℕ → Option ℤ
checked_div (pos n) k = if k == 0 then none else some (pos (n / k))
checked_div (negsuc n) k = if k == 0 then none else some (neg ((n + 1) / k))

-- `max(0)`
abbrev pub max_zero : ℤ → ℕ
max_zero (pos n) = n
max_zero (negsuc n) = 0
