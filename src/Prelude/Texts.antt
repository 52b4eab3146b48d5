-- ===== src/Prelude/Texts.antt =====
-- Rust's `String` as the list of its code points, with the methods that the source calls:
-- equality, `to_string` of an unsigned number, and `parse::<usize>`.
pub mod Decimal
pub mod Methods
pub mod Laws
use Prim.Native.Nat.{ℕ, zero, suc, ◌+◌, ◌-◌, ◌*◌, ◌/◌, ◌%◌, ◌^◌}
use Prim.Native.Char.{code}
use Prim.Native.String.{String}
use mathlib.Core.Path.{◌≡◌}
use mathlib.Core.Logic.{◌↔◌, ◌⊎◌}
use mathlib.Core.Bool.{Bool, true, false, ◌&&◌}
use mathlib.Core.List.{List, [], ◌∷◌}
use mathlib.Core.Option.{Option, none, some}
use native.Mathlib.Omega.{arith}
use sqlx_data.Prelude.Tests.{leb, ltb, ◌==◌, if◌then◌else◌}

abbrev pub Text : Type 0
Text = List ℕ

-- The code points of a literal.
abbrev pub codes : String → Text
codes String.[] = []
codes (String.◌∷◌ c s) = code c ∷ codes s

unfoldable pub text_eq : Text → Text → Bool
text_eq [] [] = true
text_eq (c ∷ s) (d ∷ t) = (c == d) && text_eq s t
text_eq _ _ = false

pub text_eq_iff : (s t : Text) → (text_eq s t ≡ true) ↔ (s ≡ t)
unfolding text_eq
text_eq_iff [] [] = ground arith
text_eq_iff [] (d ∷ t) = ground arith
text_eq_iff (c ∷ s) [] = ground arith
text_eq_iff (c ∷ s) (d ∷ t) = ground (arith, text_eq_iff s t)

-- `slice::contains` over texts: an exact comparison.
unfoldable pub contains : List Text → Text → Bool
contains [] t = false
contains (s ∷ ss) t = let rest = contains ss t in if text_eq s t then true else rest

-- Membership, with the place.
abbrev pub Listed : Text → List Text → Type 0
Listed t [] = ⊥
Listed t (s ∷ ss) = (s ≡ t) ⊎ Listed t ss

pub contains_iff : (ss : List Text) (t : Text) → (contains ss t ≡ true) ↔ Listed t ss
unfolding contains
contains_iff [] t = ground arith
contains_iff (s ∷ ss) t = ground (arith, text_eq_iff s t, contains_iff ss t)

-- `u64::MAX`, also the largest `usize`.
abbrev pub max_u64 : ℕ
max_u64 = 2 ^ 64 - 1

abbrev pub is_ascii_digit : ℕ → Bool
is_ascii_digit c = leb b'0' c && leb c b'9'

-- Prints `n` in front of `out`; the fuel is at least the number of digits.
emit : ℕ → ℕ → Text → Text
emit zero n out = out
emit (suc f) n out =
    let rest = emit f (n / 10) ((b'0' + n % 10) ∷ out) in
    if ltb n 10 then (b'0' + n % 10) ∷ out else rest

unfoldable pub to_string : ℕ → Text
unfolding emit
to_string n = emit (suc n) n []

-- The loop of `parse::<usize>`, with its overflow test.
scan : Text → ℕ → Option ℕ
scan [] n = some n
scan (c ∷ s) n =
    let rest = scan s (n * 10 + (c - b'0')) in
    if is_ascii_digit c then (if leb (n * 10 + (c - b'0')) max_u64 then rest else none) else none

-- Rust accepts one leading plus sign, if something follows it.
unfoldable pub parse_usize : Text → Option ℕ
unfolding scan
parse_usize [] = none
parse_usize (c ∷ []) = scan (c ∷ []) 0
parse_usize (c ∷ d ∷ s) = if c == b'+' then scan (d ∷ s) 0 else scan (c ∷ d ∷ s) 0
