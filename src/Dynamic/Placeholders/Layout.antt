-- ===== src/Dynamic/Placeholders/Layout.antt =====
-- What the placeholders of a renumbered text stand for, by an account of the values that does not
-- mention how the code finds them.
use sqlx_data.Prelude.{
  ℕ, zero, suc, ◌+◌, ◌-◌, ◌<◌, ◌==◌, ◌≡◌, ◌⊎◌, refl, ◌∙◌, ap, inl, inr, ltb, true, Text, List, [],
  ◌∷◌, length, map, get_elem?, Option, none, some, All, arith, max_u64, Bool-cases, Option-cases,
  ==_iff,
}
use sqlx_data.Value.{FilterValue}
use sqlx_data.Dynamic.Placeholders.{position, bind_position, value_of, renumber}
use sqlx_data.Dynamic.Placeholders.Scan.{numbers_in}
use sqlx_data.Dynamic.Placeholders.Assigning.{at_number, Valued}
use sqlx_data.Dynamic.Placeholders.Renumbering.{renumber-values}

-- The number stands at some place of the list.
abbrev pub StandsIn : ℕ → List ℕ → Type 0
StandsIn n ns = (i : ℕ) × (get_elem? ns i ≡ some n)

some_eq : {m n : ℕ} → some m ≡ some n → m ≡ n
some_eq h = cc h

found_at : (n i : ℕ) (ns : List ℕ) → position ns n ≡ some i → get_elem? ns i ≡ some n
found_at n i [] h = cc
found_at n zero (m ∷ ns) h = elim (Bool-cases (m == n)) [
  | inl same ↦ rw ((==_iff m n).0 same) refl
  | inr other ↦ ground arith
]
found_at n (suc i) (m ∷ ns) h = elim (Bool-cases (m == n)) [
  | inl same ↦ ground arith
  | inr other ↦ found_at n i ns (ground arith)
]

not_found : (n i : ℕ) (ns : List ℕ) → position ns n ≡ none → get_elem? ns i ≡ some n → ⊥
not_found n i [] h e = cc
not_found n zero (m ∷ ns) h e = let itself = (==_iff m n).1 (some_eq e) in ground arith
not_found n (suc i) (m ∷ ns) h e = not_found n i ns (ground arith) e

-- The list `binds` has first the values of the numbers in `originals`, in their order, and then those of
-- the numbers above `most`, from `most + 1` on. Values in the order of $1, $2 and so on are laid out so only
-- if these numbers first appear in that order.
pub record IsLaidOut (value : ℕ → Option FilterValue) (binds : List FilterValue)
    (originals : List ℕ) (most : ℕ) : Type 0 where
  pub old : (i n : ℕ) → get_elem? originals i ≡ some n → get_elem? binds i ≡ value n
  pub added : (j : ℕ) → get_elem? binds (length originals + j) ≡ value (most + 1 + j)

module _ (value : ℕ → Option FilterValue) (binds : List FilterValue) (originals : List ℕ) (most : ℕ)
    (laid : IsLaidOut value binds originals most) where
  -- A number that has a place in the list, and a value.
  abbrev pub Given : ℕ → Type 0
  Given n = (StandsIn n originals ⊎ (most < n)) × ((v : FilterValue) × (value n ≡ some v))

  value_of-added :
      (n : ℕ)
      → (StandsIn n originals ⊎ (most < n))
      → position originals n ≡ none
      → value_of binds originals most n ≡ value n
  value_of-added n (inl (i, e)) absent = absurd (not_found n i originals absent e)
  value_of-added n (inr above) absent =
      let shift : most + 1 + (n - (most + 1)) ≡ n = omega (arith, above) in
      let is_above : ltb most n ≡ true = ground arith in
      rw (absent, bind_position, is_above) (laid.added (n - (most + 1)) ∙ ap value shift)

  value_of-value :
      (n : ℕ) → (StandsIn n originals ⊎ (most < n)) → value_of binds originals most n ≡ value n
  value_of-value n h = elim (Option-cases (position originals n)) [
    | inl absent ↦ value_of-added n h absent
    | inr (i, found) ↦ rw (found, bind_position) (laid.old i n (found_at n i originals found))
  ]

  All-Valued : (ns : List ℕ) → All Given ns → All (Valued binds originals most) ns
  All-Valued [] h = tt
  All-Valued (n ∷ ns) ((place, (v, e)), hs) = ((v, value_of-value n place ∙ e), All-Valued ns hs)

  same_values : (ns : List ℕ) → All Given ns → map (value_of binds originals most) ns ≡ map value ns
  same_values [] h = refl
  same_values (n ∷ ns) ((place, v), hs) = rw (value_of-value n place, same_values ns hs) refl

  -- Let each number have a value, and let the values that are handed over be laid out as the code expects:
  -- first those of the original numbers in their order, then those of the numbers above the largest. If
  -- every numbered placeholder of a text is one of these and has a value, and the text is no longer than an
  -- address allows, then after the renumbering the placeholders of the text stand for the same values,
  -- in order, where a new number n stands for the n-th value that is handed over.
  pub renumber-laid_out :
      (sql : Text)
      → All Given (numbers_in sql)
      → length sql < max_u64
      → (let r = renumber sql binds originals most in
          (map (at_number (r.1)) (numbers_in (r.0)) ≡ map value (numbers_in sql)))
  renumber-laid_out sql given small =
      renumber-values binds originals most sql (All-Valued (numbers_in sql) given) small
      ∙ same_values (numbers_in sql) given
