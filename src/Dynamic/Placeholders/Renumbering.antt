-- ===== src/Dynamic/Placeholders/Renumbering.antt =====
-- A text whose placeholders are renumbered stands for the values that the code finds for the old ones.
use sqlx_data.Prelude.{
  ℕ, zero, suc, ◌+◌, ◌≤◌, ◌<◌, ◌≡◌, refl, ◌∙◌, ap, Text, List, [], ◌∷◌, ◌++◌, length, is_empty,
  Option, none, some, map, All, arith, max_u64, if◌then◌else◌, append_assoc, append-nil,
}
use sqlx_data.Value.{FilterValue}
use sqlx_data.Dynamic.Placeholders.{
  digits, after_digits, number_here, Renumbered, start, value_of, assign, push_char, push_number,
  renumber_from, renumber,
}
use sqlx_data.Dynamic.Placeholders.Scan.{
  cons_some, numbers_in, numbers_in-after_digits, length-after_digits,
}
use sqlx_data.Dynamic.Placeholders.Assigning.{
  at_number, Valued, InOrder, Given, start-InOrder, at_number_stable, assign-Given,
}
use sqlx_data.Dynamic.Placeholders.Print.{
  numbers_in-to_string, digits-after_digits, number_here-digits, digits-renumber_from,
}

module _ (binds : List FilterValue) (originals : List ℕ) (most : ℕ) where
  -- From a state on, a text was written whose numbers stand for the values of the old numbers.
  abbrev Ran : List ℕ → Renumbered → Text × Renumbered → Type 0
  Ran ns st r =
      (more : List FilterValue) × ((r.1).reordered ≡ st.reordered ++ more)
      × (map (at_number (r.1).reordered) (numbers_in (r.0))
          ≡ map (value_of binds originals most) ns)

  abbrev Rest : ℕ → Type 0
  Rest k =
      (t : Text) (st : Renumbered)
      → length t ≤ k
      → InOrder binds originals most st
      → All (Valued binds originals most) (numbers_in t)
      → st.next_index + length t ≤ max_u64
      → Ran (numbers_in t) st (renumber_from binds originals most k t st)

  char_round :
      (k c : ℕ) (s : Text) (st : Renumbered)
      → length s ≤ k
      → number_here c s ≡ none
      → Ran (numbers_in s) st (renumber_from binds originals most k s st)
      → Ran (numbers_in s) st (push_char c (renumber_from binds originals most k s st))
  char_round k c s st fits e (more, grown, same) =
      let kept =
        number_here-digits c s ((renumber_from binds originals most k s st).0)
          (digits-renumber_from binds originals most k s st fits)
        ∙ e in
      (more, grown, rw kept same)

  number_round :
      (k c : ℕ) (s : Text) (st : Renumbered) (old : ℕ)
      → length s ≤ k
      → st.next_index + suc (length s) ≤ max_u64
      → Given binds originals most old st
      → (let a = assign binds originals most old st in
          Ran
            (numbers_in (after_digits s))
            (a.1)
            (renumber_from binds originals most k (after_digits s) (a.1)))
      → (let a = assign binds originals most old st in
          Ran
            (old ∷ numbers_in s)
            st
            (push_number (a.0) (renumber_from binds originals most k (after_digits s) (a.1))))
  number_round k c s st old fits small g (more, grown, same) =
      let a = assign binds originals most old st in
      let r = renumber_from binds originals most k (after_digits s) (a.1) in
      let cut : digits (r.0) ≡ [] =
        digits-renumber_from binds originals most k (after_digits s) (a.1)
          (omega (arith, fits, length-after_digits s))
        ∙ digits-after_digits s in
      let read =
        numbers_in-to_string (a.0) (r.0) (omega (arith, g.step, g.here.known, small)) cut in
      let first : at_number (r.1).reordered (a.0) ≡ value_of binds originals most old = rw grown (
        at_number_stable (a.1).reordered more (a.0) g.here.positive
          (omega (arith, g.here.known, g.in_order.next))
        ∙ g.here.same) in
      (
        g.more ++ more,
        grown ∙ rw g.grown (append_assoc st.reordered g.more more),
        rw read (λ i.
            first i
            ∷ (same ∙ ap (map (value_of binds originals most)) (numbers_in-after_digits s)) i),
      )

  round-Ran :
      (k c : ℕ) (s : Text) (st : Renumbered) (o : Option ℕ)
      → number_here c s ≡ o
      → length s ≤ k
      → InOrder binds originals most st
      → All (Valued binds originals most) (cons_some o (numbers_in s))
      → st.next_index + suc (length s) ≤ max_u64
      → Rest k
      → Ran (cons_some o (numbers_in s)) st (elim o as (λ o. Text × Renumbered) [
        | none ↦ push_char c (renumber_from binds originals most k s st)
        | some old ↦
            let a = assign binds originals most old st in
            push_number (a.0) (renumber_from binds originals most k (after_digits s) (a.1))
      ])
  round-Ran k c s st none e fits h valued small rest =
      char_round k c s st fits e (rest s st fits h valued (omega (arith, small)))
  round-Ran k c s st (some old) e fits h ((v, is_v), valued) small rest =
      let g = assign-Given binds originals most old v st h is_v in
      let shorter = length-after_digits s in
      number_round k c s st old fits small g (
        rest (after_digits s) ((assign binds originals most old st).1)
          (omega (arith, fits, shorter)) g.in_order (rw (numbers_in-after_digits s) valued)
          (omega (arith, small, g.step, shorter)))

  renumber_from-Ran : (k : ℕ) → Rest k
  unfolding renumber_from
  renumber_from-Ran zero [] st fits h valued small = ([], rw append-nil, refl)
  renumber_from-Ran zero (c ∷ s) st fits h valued small = absurd (omega arith)
  renumber_from-Ran (suc k) [] st fits h valued small = ([], rw append-nil, refl)
  renumber_from-Ran (suc k) (c ∷ s) st fits h valued small =
      round-Ran k c s st (number_here c s) refl (omega arith) h valued small (renumber_from-Ran k)

  -- Without values there is no placeholder.
  no_numbers :
      (ns ms : List ℕ)
      → All (Valued binds originals most) ns
      → map (at_number []) ms ≡ map (value_of binds originals most) ns
      → ns ≡ []
  no_numbers [] ms valued e = refl
  no_numbers (n ∷ ns) [] valued e = cc
  no_numbers (n ∷ ns) (m ∷ ms) ((v, is_v), valued) e = cc

  chosen :
      (sql t : Text) (vs : List FilterValue)
      → All (Valued binds originals most) (numbers_in sql)
      → map (at_number vs) (numbers_in t) ≡ map (value_of binds originals most) (numbers_in sql)
      → (let r : Text × List FilterValue = if is_empty vs then (sql, binds) else (t, vs) in
          (map (at_number (r.1)) (numbers_in (r.0))
            ≡ map (value_of binds originals most) (numbers_in sql)))
  chosen sql t [] valued same = rw (no_numbers (numbers_in sql) (numbers_in t) valued same) refl
  chosen sql t (v ∷ vs) valued same = same

  -- If the code finds a value for every numbered placeholder of a text, and the text is no longer than
  -- an address allows, then a new number n stands for the n-th value that is handed over, which is
  -- the value that was found.
  pub renumber-values :
      (sql : Text)
      → All (Valued binds originals most) (numbers_in sql)
      → length sql < max_u64
      → (let r = renumber sql binds originals most in
          (map (at_number (r.1)) (numbers_in (r.0))
            ≡ map (value_of binds originals most) (numbers_in sql)))
  unfolding renumber
  renumber-values sql valued small =
      let (more, grown, same) =
        renumber_from-Ran (length sql) sql start (omega arith) (start-InOrder binds originals most)
          valued (omega arith) in
      let r = renumber_from binds originals most (length sql) sql start in
      chosen sql (r.0) (r.1).reordered valued same
