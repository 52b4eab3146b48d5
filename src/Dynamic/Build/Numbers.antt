-- ===== src/Dynamic/Build/Numbers.antt =====
-- The placeholders of a text that appear first as $1, $2, and so on.
use sqlx_data.Prelude.{
  ℕ, zero, suc, ◌+◌, ◌-◌, ◌≤◌, ◌<◌, ◌≡◌, refl, ◌∙◌, ap, List, [], ◌∷◌, length, map, get_elem?, none,
  some, All, arith, if◌then◌else◌, ◌==◌, ltb, Bool-cases, inl, inr,
}
use sqlx_data.Value.{FilterValue}
use sqlx_data.Dynamic.Placeholders.{position, bind_position, value_of}
use sqlx_data.Dynamic.Placeholders.Assigning.{at_number, Valued}
use sqlx_data.Dynamic.Build.{retain, largest}

-- The numbers from `a` on, `n` of them.
abbrev pub numbers_from : (a n : ℕ) → List ℕ
numbers_from a zero = []
numbers_from a (suc n) = a ∷ numbers_from (a + 1) n

position-numbers_from :
    (a n k : ℕ) → a ≤ k → k < a + n → position (numbers_from a n) k ≡ some (k - a)
position-numbers_from a zero k h h' = absurd (omega arith)
position-numbers_from a (suc n) k h h' = ground (arith, position-numbers_from (a + 1) n k)

in_range :
    (binds : List FilterValue) (i : ℕ)
    → i < length binds
    → (v : FilterValue) × (get_elem? binds i ≡ some v)
in_range [] i h = absurd (omega arith)
in_range (v ∷ vs) zero h = (v, refl)
in_range (v ∷ vs) (suc i) h = in_range vs i (omega arith)

-- Each number has a value at its place.
abbrev pub InRange : ℕ → ℕ → Type 0
InRange n k = (1 ≤ k) × (k ≤ n)

pub retain_all : (ns : List ℕ) → retain [] ns ≡ ns
retain_all [] = refl
retain_all (n ∷ ns) = ap (λ l. n ∷ l) (retain_all ns)

position_beyond : (a n k : ℕ) → a + n ≤ k → position (numbers_from a n) k ≡ none
position_beyond a zero k h = refl
position_beyond a (suc n) k h = ground (arith, position_beyond (a + 1) n k)

length-numbers_from : (a n : ℕ) → length (numbers_from a n) ≡ n
length-numbers_from a zero = refl
length-numbers_from a (suc n) = ap suc (length-numbers_from (a + 1) n)

largest-numbers_from : (a n : ℕ) → largest (numbers_from (a + 1) n) ≡ (if n == 0 then 0 else a + n)
largest-numbers_from a zero = refl
largest-numbers_from a (suc n) = ground (arith, largest-numbers_from (a + 1) n)

-- With the numbers up to `n` in the text, every number from one on stands for the value at its place.
pub value_of-at_number :
    (binds : List FilterValue) (n k : ℕ)
    → 1 ≤ k
    → value_of binds (numbers_from 1 n) n k ≡ at_number binds k
value_of-at_number binds n k h = elim (Bool-cases (ltb n k)) [
  | inl beyond ↦
      let e = position_beyond 1 n k (ground (arith, beyond)) in
      let same : n + (k - (n + 1)) ≡ k - 1 = ground (arith, beyond) in
      rw (e, bind_position, beyond, length-numbers_from 1 n, same) refl
  | inr within ↦
      let e = position-numbers_from 1 n k h (ground (arith, within)) in rw (e, bind_position) refl
]

pub All-Valued :
    (binds : List FilterValue) (n : ℕ) (ns : List ℕ)
    → All (InRange (length binds)) ns
    → All (Valued binds (numbers_from 1 n) n) ns
All-Valued binds n [] h = tt
All-Valued binds n (k ∷ ns) ((h, h'), hs) =
    let (v, e) = in_range binds (k - 1) (omega arith) in
    ((v, value_of-at_number binds n k h ∙ e), All-Valued binds n ns hs)

pub same_values :
    (binds : List FilterValue) (n : ℕ) (ns : List ℕ)
    → All (InRange (length binds)) ns
    → map (value_of binds (numbers_from 1 n) n) ns ≡ map (at_number binds) ns
same_values binds n [] h = refl
same_values binds n (k ∷ ns) ((h, h'), hs) =
    let first = value_of-at_number binds n k h in
    let rest = same_values binds n ns hs in λ i. first i ∷ rest i

pub largest_of : (n : ℕ) → largest (numbers_from 1 n) ≡ n
largest_of n = ground (arith, largest-numbers_from 0 n)
