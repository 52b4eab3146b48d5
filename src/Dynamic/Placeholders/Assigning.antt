-- ===== src/Dynamic/Placeholders/Assigning.antt =====
-- The numbers that are given to placeholders, and the values that they stand for.
use sqlx_data.Prelude.{
  ℕ, ◌+◌, ◌-◌, ◌≤◌, ◌<◌, ◌≡◌, refl, ◌∙◌, List, [], ◌∷◌, ◌++◌, length, length-append, get_elem?,
  get_elem?-append_left, Option, some, arith, ◌==◌, Option-cases, inl, inr, append-nil, Bool-cases,
  ==_iff,
}
use sqlx_data.Value.{FilterValue}
use sqlx_data.Dynamic.Binder.Numbering.{get_elem?_here}
use sqlx_data.Dynamic.Placeholders.{Renumbered, start, lookup, value_of, add, assign}

-- The value of a new number.
abbrev pub at_number : List FilterValue → ℕ → Option FilterValue
at_number vs n = get_elem? vs (n - 1)

module _ (binds : List FilterValue) (originals : List ℕ) (most : ℕ) where
  -- The placeholder has a value.
  abbrev pub Valued : ℕ → Type 0
  Valued n = (v : FilterValue) × (value_of binds originals most n ≡ some v)

  -- The new number stands for the value of the old one.
  pub record Placed (st : Renumbered) (old new : ℕ) : Type 0 where
    pub positive : 1 ≤ new
    pub known : new < st.next_index
    pub same : at_number st.reordered new ≡ value_of binds originals most old

  pub record InOrder (st : Renumbered) : Type 0 where
    pub next : st.next_index ≡ length st.reordered + 1
    pub placed : (old new : ℕ) → lookup st.old_to_new old ≡ some new → Placed st old new

pub start-InOrder :
    (binds : List FilterValue) (originals : List ℕ) (most : ℕ) → InOrder binds originals most start
start-InOrder binds originals most = record { next = refl; placed = λ old new h. cc }

pub at_number_stable :
    (vs ws : List FilterValue) (n : ℕ)
    → 1 ≤ n
    → n < length vs + 1
    → at_number (vs ++ ws) n ≡ at_number vs n
at_number_stable vs ws n h k = get_elem?-append_left vs ws (n - 1) (omega arith)

some-injective : {A : Type 0} {a b : A} → some a ≡ some b → a ≡ b
some-injective h = cc h

at_number_last :
    (vs : List FilterValue) (v : FilterValue) → at_number (vs ++ v ∷ []) (length vs + 1) ≡ some v
at_number_last vs v = get_elem?_here vs [] v (length vs + 1 - 1) (omega arith)

module _ (binds : List FilterValue) (originals : List ℕ) (most : ℕ) where
  add-Placed :
      (old : ℕ) (v : FilterValue) (st : Renumbered)
      → InOrder binds originals most st
      → value_of binds originals most old ≡ some v
      → Placed binds originals most (add binds originals most old st) old st.next_index
  add-Placed old v st h e = record {
    positive = omega (arith, h.next);
    known = omega arith;
    same = rw (h.next, e) (at_number_last st.reordered v);
  }

  grow-Placed :
      (old : ℕ) (v : FilterValue) (st : Renumbered) (old' new : ℕ)
      → InOrder binds originals most st
      → value_of binds originals most old ≡ some v
      → Placed binds originals most st old' new
      → Placed binds originals most (add binds originals most old st) old' new
  grow-Placed old v st old' new h e p = record {
    positive = p.positive;
    known = omega (arith, p.known);
    same = rw e (
        at_number_stable st.reordered (v ∷ []) new p.positive (omega (arith, p.known, h.next))
        ∙ p.same);
  }

  add-InOrder :
      (old : ℕ) (v : FilterValue) (st : Renumbered)
      → InOrder binds originals most st
      → value_of binds originals most old ≡ some v
      → InOrder binds originals most (add binds originals most old st)
  add-InOrder old v st h e = record {
    next = rw e (omega (arith, h.next, length-append st.reordered (v ∷ [])));
    placed = λ old' new k. elim (Bool-cases (old == old')) [
      | inl t ↦
          let e1 : old ≡ old' = (==_iff old old').0 t in
          let e2 : st.next_index ≡ new = some-injective (rw t at k) in
          rw (← e1, ← e2) (add-Placed old v st h e)
      | inr f ↦ grow-Placed old v st old' new h e (h.placed old' new (rw f at k))
    ];
  }

  -- A number that is given stands for the value, and the state keeps its order.
  pub record Given (old : ℕ) (st : Renumbered) : Type 0 where
    pub in_order : InOrder binds originals most ((assign binds originals most old st).1)
    pub here :
        Placed binds originals most
          ((assign binds originals most old st).1)
          old
          ((assign binds originals most old st).0)
    pub step : ((assign binds originals most old st).1).next_index ≤ st.next_index + 1
    pub more : List FilterValue
    pub grown : ((assign binds originals most old st).1).reordered ≡ st.reordered ++ more

  pub assign-Given :
      (old : ℕ) (v : FilterValue) (st : Renumbered)
      → InOrder binds originals most st
      → value_of binds originals most old ≡ some v
      → Given old st
  assign-Given old v st h e = elim (Option-cases (lookup st.old_to_new old)) [
    | inl new ↦ record {
      in_order = rw new (add-InOrder old v st h e);
      here = rw new (add-Placed old v st h e);
      step = rw new (omega arith);
      more = v ∷ [];
      grown = rw (new, e) refl;
    }
    | inr (n, found) ↦ record {
      in_order = rw found h;
      here = rw found (h.placed old n found);
      step = rw found (omega arith);
      more = [];
      grown = rw (found, append-nil st.reordered) refl;
    }
  ]
