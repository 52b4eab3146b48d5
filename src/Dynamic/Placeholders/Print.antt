-- ===== src/Dynamic/Placeholders/Print.antt =====
-- Reading back a text into which numbers are printed.
use sqlx_data.Prelude.{
  ℕ, zero, suc, ◌≤◌, ◌≡◌, ◌≢◌, refl, ap, Text, false, List, [], ◌∷◌, ◌++◌, length, is_empty, Option,
  none, some, arith, max_u64, to_string, parse_usize-to_string, AreDigits, to_string-AreDigits,
  to_string_ne_nil,
}
use sqlx_data.Value.{FilterValue}
use sqlx_data.Dynamic.Placeholders.{
  digits, after_digits, number_at, number_here, Renumbered, renumber_from, assign, push_char,
  push_number,
}
use sqlx_data.Dynamic.Placeholders.Scan.{numbers_in}

digits-append : (ds t : Text) → AreDigits ds → digits t ≡ [] → digits (ds ++ t) ≡ ds
digits-append [] t h e = e
digits-append (c ∷ ds) t (d, h) e = ground (arith, digits-append ds t h e)

pub digits-after_digits : (s : Text) → digits (after_digits s) ≡ []
digits-after_digits [] = refl
digits-after_digits (c ∷ s) = ground (arith, digits-after_digits s)

numbers_in-append : (ds t : Text) → AreDigits ds → numbers_in (ds ++ t) ≡ numbers_in t
numbers_in-append [] t h = refl
numbers_in-append (c ∷ ds) t (d, h) = ground (arith, numbers_in-append ds t h)

is_empty_ne_nil : (s : Text) → s ≢ [] → is_empty s ≡ false
is_empty_ne_nil [] h = absurd (h refl)
is_empty_ne_nil (c ∷ s) h = refl

number_at-to_string :
    (n : ℕ) (t : Text) → n ≤ max_u64 → digits t ≡ [] → number_at (to_string n ++ t) ≡ some n
number_at-to_string n t h e =
    rw
      (
        digits-append (to_string n) t (to_string-AreDigits n) e,
        is_empty_ne_nil (to_string n) (to_string_ne_nil n),
      )
      (parse_usize-to_string n h)

-- A number that is printed behind a dollar sign is read, if no digit follows.
pub numbers_in-to_string :
    (n : ℕ) (t : Text)
    → n ≤ max_u64
    → digits t ≡ []
    → numbers_in (b'$' ∷ (to_string n ++ t)) ≡ n ∷ numbers_in t
numbers_in-to_string n t h e =
    rw (number_at-to_string n t h e)
      (ap (λ ns. n ∷ ns) (numbers_in-append (to_string n) t (to_string-AreDigits n)))

-- Only a dollar sign starts a number.
number_here_dollar : (c : ℕ) (s : Text) (n : ℕ) → number_here c s ≡ some n → c ≡ b'$'
number_here_dollar c s n h = ground arith

pub number_here-digits :
    (c : ℕ) (s t : Text) → digits t ≡ digits s → number_here c t ≡ number_here c s
number_here-digits c s t e = rw e

module _ (binds : List FilterValue) (originals : List ℕ) (most : ℕ) where
  digits_round :
      (k c : ℕ) (s : Text) (st : Renumbered) (o : Option ℕ)
      → number_here c s ≡ o
      → ((st : Renumbered) → digits ((renumber_from binds originals most k s st).0) ≡ digits s)
      → digits (
          (elim o as (λ o. Text × Renumbered) [
            | none ↦ push_char c (renumber_from binds originals most k s st)
            | some old ↦
                let a = assign binds originals most old st in
                push_number (a.0) (renumber_from binds originals most k (after_digits s) (a.1))
          ]).0)
        ≡ digits (c ∷ s)
  digits_round k c s st none e ih = rw (ih st)
  digits_round k c s st (some old) e ih = rw (number_here_dollar c s old e)

  -- The digits at the front of the text stay.
  pub digits-renumber_from :
      (k : ℕ) (s : Text) (st : Renumbered)
      → length s ≤ k
      → digits ((renumber_from binds originals most k s st).0) ≡ digits s
  unfolding renumber_from
  digits-renumber_from zero [] st h = refl
  digits-renumber_from zero (c ∷ s) st h = absurd (omega arith)
  digits-renumber_from (suc k) [] st h = refl
  digits-renumber_from (suc k) (c ∷ s) st h =
      digits_round k c s st (number_here c s) refl
        (λ st'. digits-renumber_from k s st' (omega arith))
