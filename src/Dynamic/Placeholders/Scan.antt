-- ===== src/Dynamic/Placeholders/Scan.antt =====
-- The numbered placeholders of a text, and what the scan collects.
use sqlx_data.Prelude.{
  ℕ, zero, suc, ◌≤◌, ◌≡◌, refl, ◌∙◌, ap, Text, List, [], ◌∷◌, ◌++◌, length, Option, none, some,
  if◌then◌else◌, arith, Bool-cases, inl, inr,
}
use sqlx_data.Dynamic.Placeholders.{
  after_digits, number_here, includes, unseen, collect_from, collect_numbered_placeholders,
}

abbrev pub cons_some : Option ℕ → List ℕ → List ℕ
cons_some none ns = ns
cons_some (some n) ns = n ∷ ns

-- Each dollar sign with the number that follows it, in order.
abbrev pub numbers_in : Text → List ℕ
numbers_in [] = []
numbers_in (c ∷ s) = cons_some (number_here c s) (numbers_in s)

-- The numbers without the repeats, behind those that are there.
abbrev pub add_new : List ℕ → List ℕ → List ℕ
add_new ordered [] = ordered
add_new ordered (n ∷ ns) =
    if includes n ordered then add_new ordered ns else add_new (ordered ++ n ∷ []) ns

pub length-after_digits : (s : Text) → length (after_digits s) ≤ length s
length-after_digits [] = omega arith
length-after_digits (c ∷ s) = ground (arith, length-after_digits s)

-- There is no dollar sign among digits.
pub numbers_in-after_digits : (s : Text) → numbers_in (after_digits s) ≡ numbers_in s
numbers_in-after_digits [] = refl
numbers_in-after_digits (c ∷ s) = ground (arith, numbers_in-after_digits s)

-- One round, given the rounds that are left.
collect_round :
    (k : ℕ) (s : Text) (ordered : List ℕ) (o : Option ℕ)
    → length s ≤ k
    → ((t : Text) (ordered : List ℕ)
        → length t ≤ k
        → collect_from k t ordered ≡ add_new ordered (numbers_in t))
    → (elim (unseen ordered o) [
      | none ↦ collect_from k s ordered
      | some n ↦ collect_from k (after_digits s) (ordered ++ n ∷ [])
    ])
      ≡ add_new ordered (cons_some o (numbers_in s))
collect_round k s ordered none h rest = rest s ordered h
collect_round k s ordered (some n) h rest = elim (Bool-cases (includes n ordered)) [
  | inl seen ↦ rw seen (rest s ordered h)
  | inr new ↦ rw new (
      rest (after_digits s) (ordered ++ n ∷ []) (omega (arith, length-after_digits s))
      ∙ ap (add_new (ordered ++ n ∷ [])) (numbers_in-after_digits s))
]

collect_from-add_new :
    (k : ℕ) (s : Text) (ordered : List ℕ)
    → length s ≤ k
    → collect_from k s ordered ≡ add_new ordered (numbers_in s)
unfolding collect_from
collect_from-add_new zero [] ordered h = refl
collect_from-add_new zero (c ∷ s) ordered h = absurd (omega arith)
collect_from-add_new (suc k) [] ordered h = refl
collect_from-add_new (suc k) (c ∷ s) ordered h =
    collect_round k s ordered (number_here c s) (omega arith) (collect_from-add_new k)

-- What is collected from a text: the numbers of its numbered placeholders, each once, in the order in
-- which they first appear. The fuel of the scan is enough.
pub collect_numbered_placeholders-add_new :
    (sql : Text) → collect_numbered_placeholders sql ≡ add_new [] (numbers_in sql)
unfolding collect_numbered_placeholders
collect_numbered_placeholders-add_new sql = collect_from-add_new (length sql) sql [] (omega arith)
