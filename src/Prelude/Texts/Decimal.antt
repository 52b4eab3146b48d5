-- ===== src/Prelude/Texts/Decimal.antt =====
-- Printing a number and reading it back.
use Prim.Native.Nat.{ℕ, zero, suc, ◌+◌, ◌*◌, ◌-◌, ◌/◌, ◌%◌, ◌≤◌, ◌<◌}
use mathlib.Core.Path.{◌≡◌, refl, ◌∙◌}
use mathlib.Core.Logic.{◌≢◌, inl, inr}
use mathlib.Core.Bool.{true}
use mathlib.Core.List.{[], ◌∷◌}
use mathlib.Core.Option.{some}
use native.Mathlib.Omega.{arith}
use sqlx_data.Prelude.Tests.{ltb, ltb→lt, Bool-cases}
use sqlx_data.Prelude.Lists.{All}
use sqlx_data.Prelude.Texts.{Text, max_u64, is_ascii_digit, emit, to_string, scan, parse_usize}

abbrev pub AreDigits : Text → Type 0
AreDigits = All (λ c. is_ascii_digit c ≡ true)

digit_of_rem : (n : ℕ) → is_ascii_digit (b'0' + n % 10) ≡ true
digit_of_rem n = ground arith

emit-AreDigits : (f n : ℕ) (out : Text) → AreDigits out → AreDigits (emit f n out)
unfolding emit
emit-AreDigits zero n out h = h
emit-AreDigits (suc f) n out h = elim (Bool-cases (ltb n 10)) [
  | inl small ↦ rw small (digit_of_rem n, h)
  | inr big ↦ rw big (emit-AreDigits f (n / 10) _ (digit_of_rem n, h))
]

emit_ne_nil : (f n c : ℕ) (out : Text) → emit f n (c ∷ out) ≢ []
unfolding emit
emit_ne_nil zero n c out = λ e. cc
emit_ne_nil (suc f) n c out = elim (Bool-cases (ltb n 10)) [
  | inl small ↦ rw small (λ e. cc)
  | inr big ↦ rw big (emit_ne_nil f (n / 10) _ _)
]

pub to_string_ne_nil : (n : ℕ) → to_string n ≢ []
unfolding to_string
to_string_ne_nil n = elim (Bool-cases (ltb n 10)) [
  | inl small ↦ rw small (λ e. cc)
  | inr big ↦ rw big (emit_ne_nil n (n / 10) _ _)
]

pub to_string-AreDigits : (n : ℕ) → AreDigits (to_string n)
unfolding to_string
to_string-AreDigits n = emit-AreDigits (suc n) n [] tt

scan_digit : (n : ℕ) (out : Text) → n ≤ max_u64 → scan ((b'0' + n % 10) ∷ out) (n / 10) ≡ scan out n
unfolding scan
scan_digit n out h =
    let e : n / 10 * 10 + (b'0' + n % 10 - b'0') ≡ n = omega arith in
    rw e (ground (arith, digit_of_rem n))

scan_small :
    (n : ℕ) (out : Text) → n < 10 → n ≤ max_u64 → scan ((b'0' + n % 10) ∷ out) 0 ≡ scan out n
scan_small n out h k = let e : n / 10 ≡ 0 = omega arith in rw e at (scan_digit n out k)

scan-emit : (f n : ℕ) (out : Text) → n < f → n ≤ max_u64 → scan (emit f n out) 0 ≡ scan out n
unfolding emit
scan-emit zero n out h k = absurd (omega arith)
scan-emit (suc f) n out h k = elim (Bool-cases (ltb n 10)) [
  | inl small ↦ rw small (scan_small n out (ltb→lt n 10 small) k)
  | inr big ↦ rw big (scan-emit f (n / 10) _ (ground arith) (omega arith) ∙ scan_digit n out k)
]

scan_nil : (n : ℕ) → scan [] n ≡ some n
unfolding scan
scan_nil n = refl

parse_usize-AreDigits : (t : Text) → AreDigits t → t ≢ [] → parse_usize t ≡ scan t 0
unfolding parse_usize
parse_usize-AreDigits [] h ne = absurd (ne refl)
parse_usize-AreDigits (c ∷ []) h ne = refl
parse_usize-AreDigits (c ∷ d ∷ s) h ne = ground arith

-- What is printed reads back as the number, if the number fits.
pub parse_usize-to_string : (n : ℕ) → n ≤ max_u64 → parse_usize (to_string n) ≡ some n
unfolding to_string
parse_usize-to_string n h =
    parse_usize-AreDigits (to_string n) (emit-AreDigits (suc n) n [] tt) (to_string_ne_nil n)
    ∙ scan-emit (suc n) n [] (omega arith) h
    ∙ scan_nil n
