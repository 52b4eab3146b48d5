-- ===== src/Dynamic/Trim/Kept.antt =====
-- Which values stay when a LIMIT and OFFSET are replaced.
use sqlx_data.Prelude.{
  ℕ, zero, suc, ◌+◌, ◌-◌, ◌≤◌, ◌<◌, ◌≡◌, ◌≢◌, refl, ◌∙◌, ap, sym, List, [], ◌∷◌, length, take,
  take_all, true, if◌then◌else◌, ltb, leb, ◌==◌, arith, Bool-cases, inl, inr, some,
}
use sqlx_data.Value.{FilterValue}
use sqlx_data.Ast.{LimitClause, Query}
use sqlx_data.Dynamic.Placeholders.{includes}
use sqlx_data.Dynamic.Trim.{
  remove_at, pop, pop_times, sort_descending, remove_each, counted, clause_placeholders,
  drop_values, trim_limit_offset_placeholder_binds,
}

-- The values whose number, counted from `i` on, is not in the list.
abbrev pub kept : (i : ℕ) → List ℕ → List FilterValue → List FilterValue
kept i ns [] = []
kept i ns (v ∷ vs) = let rest = kept (i + 1) ns vs in if includes i ns then rest else v ∷ rest

length-pop : {A : Type 0} (xs : List A) → length (pop xs) ≡ length xs - 1
length-pop [] = omega arith
length-pop (x ∷ []) = omega arith
length-pop (x ∷ y ∷ xs) = omega (arith, length-pop (y ∷ xs))

pop-take : {A : Type 0} (xs : List A) → pop xs ≡ take (length xs - 1) xs
pop-take [] = refl
pop-take (x ∷ []) = refl
pop-take (x ∷ y ∷ xs) =
    let e : suc (suc (length xs)) - 1 ≡ suc (length xs) = omega arith in
    let e' : suc (length xs) - 1 ≡ length xs = omega arith in
    rw e (ap (λ l. x ∷ l) (rw e' at (pop-take (y ∷ xs))))

kept_none : (i n : ℕ) (vs : List FilterValue) → n < i → kept i (n ∷ []) vs ≡ vs
kept_none i n [] h = refl
kept_none i n (v ∷ vs) h = ground (arith, kept_none (i + 1) n vs)

under_cons :
    (v : FilterValue) (vs : List FilterValue) (m : ℕ)
    → (if ltb (suc m) (suc (length vs)) then remove_at (suc m) (v ∷ vs) else v ∷ vs)
      ≡ v ∷ (if ltb m (length vs) then remove_at m vs else vs)
under_cons v vs m = ground arith

kept_one :
    (i n : ℕ) (vs : List FilterValue)
    → i ≤ n
    → (if ltb (n - i) (length vs) then remove_at (n - i) vs else vs) ≡ kept i (n ∷ []) vs
kept_one i n [] h = ground arith
kept_one i n (v ∷ vs) h = elim (Bool-cases (i == n)) [
  | inl same ↦
      let e : n - i ≡ 0 = ground (arith, same) in
      let t : ltb 0 (suc (length vs)) ≡ true = ground arith in
      rw (e, t, same) (sym (kept_none (i + 1) n vs (ground (arith, same))))
  | inr other ↦
      let e : n - i ≡ suc (n - (i + 1)) = ground (arith, other) in
      rw (e, other)
        (under_cons v vs (n - (i + 1))
          ∙ ap (λ l. v ∷ l) (kept_one (i + 1) n vs (ground (arith, other))))
]

kept-kept :
    (i a b : ℕ) (vs : List FilterValue)
    → b < a
    → kept i (b ∷ []) (kept i (a ∷ []) vs) ≡ kept i (a ∷ b ∷ []) vs
kept-kept i a b [] h = refl
kept-kept i a b (v ∷ vs) h = ground (
  arith,
  kept-kept (i + 1) a b vs h,
  kept_none i b (kept (i + 1) (a ∷ []) vs),
  kept_none (i + 1) b (kept (i + 1) (a ∷ []) vs),
)

kept_swap : (i a b : ℕ) (vs : List FilterValue) → kept i (a ∷ b ∷ []) vs ≡ kept i (b ∷ a ∷ []) vs
kept_swap i a b [] = refl
kept_swap i a b (v ∷ vs) = ground (arith, kept_swap (i + 1) a b vs)

take_shorter : {A : Type 0} (i j : ℕ) (xs : List A) → i ≤ j → take i (take j xs) ≡ take i xs
take_shorter zero j xs h = refl
take_shorter (suc i) zero xs h = absurd (omega arith)
take_shorter (suc i) (suc j) [] h = refl
take_shorter (suc i) (suc j) (x ∷ xs) h = ap (λ l. x ∷ l) (take_shorter i j xs (omega arith))

pop_times-take : {A : Type 0} (n : ℕ) (xs : List A) → pop_times n xs ≡ take (length xs - n) xs
pop_times-take zero xs = sym (take_all (length xs - 0) xs (omega arith))
pop_times-take (suc n) xs =
    let fewer : length (pop xs) - n ≡ length xs - suc n = omega (arith, length-pop xs) in
    pop_times-take n (pop xs)
    ∙ rw (fewer, pop-take xs) (take_shorter (length xs - suc n) (length xs - 1) xs (omega arith))

-- One or two numbers, counted from one and different.
abbrev pub Plain : List ℕ → Type 0
Plain (a ∷ []) = 1 ≤ a
Plain (a ∷ b ∷ []) = (1 ≤ a) × (1 ≤ b) × (a ≢ b)
Plain _ = ⊥

removed_two :
    (a b : ℕ) (binds : List FilterValue)
    → 1 ≤ a
    → 1 ≤ b
    → b < a
    → remove_each (a ∷ b ∷ []) binds ≡ kept 1 (a ∷ b ∷ []) binds
removed_two a b binds h k less =
    rw (kept_one 1 a binds h, kept_one 1 b (kept 1 (a ∷ []) binds) k) (kept-kept 1 a b binds less)

remove_each-kept :
    (ns : List ℕ) (binds : List FilterValue)
    → Plain ns
    → remove_each (sort_descending ns) binds ≡ kept 1 ns binds
remove_each-kept [] binds h = absurd h
remove_each-kept (a ∷ []) binds h = kept_one 1 a binds h
remove_each-kept (a ∷ b ∷ []) binds (h, k, ne) = elim (Bool-cases (leb b a)) [
  | inl less ↦ rw less (removed_two a b binds h k (ground (arith, less, ne)))
  | inr more ↦ rw more (removed_two b a binds k h (ground (arith, more)) ∙ kept_swap 1 b a binds)
]
remove_each-kept (a ∷ b ∷ c ∷ ns) binds h = absurd h

dropped :
    (n : ℕ) (ns : List ℕ) (binds : List FilterValue)
    → Plain ns
    → (drop_values (n, ns) binds).0 ≡ remove_each (sort_descending ns) binds
dropped n [] binds h = absurd h
dropped n (a ∷ ns) binds h = refl

module _ {X : Type 0} (q : Query X) (clause : LimitClause X) (binds : List FilterValue) where
  trimmed :
      q.limit_clause ≡ some clause
      → trim_limit_offset_placeholder_binds q binds
        ≡ drop_values (counted (clause_placeholders clause)) binds
  unfolding trim_limit_offset_placeholder_binds
  trimmed e = rw (e, trim_limit_offset_placeholder_binds) refl

  -- If no placeholder in the LIMIT and OFFSET has a number, as many values go from the end of the list as
  -- there are placeholders, and no number is reported.
  pub trim_limit_offset_placeholder_binds-take :
      q.limit_clause ≡ some clause
      → (counted (clause_placeholders clause)).1 ≡ []
      → trim_limit_offset_placeholder_binds q binds
        ≡ (take (length binds - (counted (clause_placeholders clause)).0) binds, [])
  trim_limit_offset_placeholder_binds-take e none_numbered =
      trimmed e
      ∙ rw none_numbered
          (ap (λ l. (l, [])) (pop_times-take ((counted (clause_placeholders clause)).0) binds))

  -- If the placeholders in the LIMIT and OFFSET have one number or two different ones, counted from one,
  -- exactly the values at these places go, and the others keep their order.
  pub trim_limit_offset_placeholder_binds-kept :
      (ns : List ℕ)
      → q.limit_clause ≡ some clause
      → (counted (clause_placeholders clause)).1 ≡ ns
      → Plain ns
      → (trim_limit_offset_placeholder_binds q binds).0 ≡ kept 1 ns binds
  trim_limit_offset_placeholder_binds-kept ns e numbered h =
      ap (λ r. r.0) (trimmed e)
      ∙ rw numbered (
          dropped ((counted (clause_placeholders clause)).0) ns binds h
          ∙ remove_each-kept ns binds h)
