-- ===== src/Macros/Named/Unknown.antt =====
-- The names that `convert_named_to_positional_in_sql` complains about.
use sqlx_data.Prelude.{
  ℕ, ◌≡◌, ◌⊎◌, refl, inl, inr, subst, sym, Text, contains, contains_iff, Listed, List, [], ◌∷◌,
  ◌++◌, none, some, Option-cases, Bool-cases, if◌then◌else◌,
}
use sqlx_data.Dynamic.Binder.{Database}
use sqlx_data.Macros.Named.{Piece, other_text, named_param, index_of, noted, unknowns}
use sqlx_data.Macros.Named.Positions.{index_from-none, index_from-some, Listed-get_elem?}

-- The name stands behind an `@` of a match.
abbrev pub Occurs : Text → List Piece → Type 0
Occurs name [] = ⊥
Occurs name (other_text t ∷ pieces) = Occurs name pieces
Occurs name (named_param prefix n ∷ pieces) = (n ≡ name) ⊎ Occurs name pieces

Listed-concat :
    (us : List Text) (n name : Text) → Listed name (us ++ n ∷ []) → Listed name us ⊎ (n ≡ name)
Listed-concat [] n name (inl e) = inr e
Listed-concat [] n name (inr l) = absurd l
Listed-concat (u ∷ us) n name (inl e) = inl (inl e)
Listed-concat (u ∷ us) n name (inr l) = elim (Listed-concat us n name l) [
  | inl l' ↦ inl (inr l')
  | inr e ↦ inr e
]

Listed-left : (us : List Text) (n name : Text) → Listed name us → Listed name (us ++ n ∷ [])
Listed-left [] n name l = absurd l
Listed-left (u ∷ us) n name (inl e) = inl e
Listed-left (u ∷ us) n name (inr l) = inr (Listed-left us n name l)

Listed-last : (us : List Text) (n : Text) → Listed n (us ++ n ∷ [])
Listed-last [] n = inl refl
Listed-last (u ∷ us) n = inr (Listed-last us n)

-- What a name that is not among the parameters adds.
added : (n : Text) (us : List Text) → List Text
added n us = if contains us n then us else us ++ n ∷ []

added-Listed : (n : Text) (us : List Text) → Listed n (added n us)
unfolding added
added-Listed n us = elim (Bool-cases (contains us n)) [
  | inl old ↦ rw old ((contains_iff us n).0 old)
  | inr fresh ↦ rw fresh (Listed-last us n)
]

added_keeps : (n : Text) (us : List Text) (name : Text) → Listed name us → Listed name (added n us)
unfolding added
added_keeps n us name l = elim (Bool-cases (contains us n)) [
  | inl old ↦ rw old l
  | inr fresh ↦ rw fresh (Listed-left us n name l)
]

added_only :
    (n : Text) (us : List Text) (name : Text)
    → Listed name (added n us)
    → Listed name us ⊎ (n ≡ name)
unfolding added
added_only n us name = elim (Bool-cases (contains us n)) [
  | inl old ↦ rw old (λ l. inl l)
  | inr fresh ↦ rw fresh (Listed-concat us n name)
]

module _ (db : Database) (names : List Text) where
  unknowns-some :
      (prefix n : Text) (pieces : List Piece) (us : List Text) (i : ℕ)
      → index_of names n ≡ some i
      → unknowns db names (named_param prefix n ∷ pieces) us ≡ unknowns db names pieces us
  unfolding unknowns
  unknowns-some prefix n pieces us i e = rw e refl

  unknowns-none :
      (prefix n : Text) (pieces : List Piece) (us : List Text)
      → index_of names n ≡ none
      → unknowns db names (named_param prefix n ∷ pieces) us ≡ unknowns db names pieces (added n us)
  unfolding unknowns added
  unknowns-none prefix n pieces us e = rw e refl

  pub unknowns_keep :
      (pieces : List Piece) (us : List Text) (name : Text)
      → Listed name us
      → Listed name (unknowns db names pieces us)
  unfolding unknowns
  unknowns_keep [] us name l = l
  unknowns_keep (other_text t ∷ pieces) us name l = unknowns_keep pieces us name l
  unknowns_keep (named_param prefix n ∷ pieces) us name l = elim (Option-cases (index_of names n)) [
    | inl e ↦
        rw (unknowns-none prefix n pieces us e)
          (unknowns_keep pieces (added n us) name (added_keeps n us name l))
    | inr (i, e) ↦ rw (unknowns-some prefix n pieces us i e) (unknowns_keep pieces us name l)
  ]

  after_unknown :
      (prefix n : Text) (pieces : List Piece) (us : List Text) (name : Text)
      → index_of names n ≡ none
      → Listed name (added n us) ⊎ (Occurs name pieces × (Listed name names → ⊥))
      → Listed name us ⊎ (Occurs name (named_param prefix n ∷ pieces) × (Listed name names → ⊥))
  after_unknown prefix n pieces us name e (inr (o, h)) = inr (inr o, h)
  after_unknown prefix n pieces us name e (inl l) = elim (added_only n us name l) [
    | inl l' ↦ inl l'
    | inr same ↦
        inr (inl same, λ m. index_from-none 1 names n e (subst (λ x. Listed x names) (sym same) m))
  ]

  after_known :
      (prefix n : Text) (pieces : List Piece) (us : List Text) (name : Text)
      → Listed name us ⊎ (Occurs name pieces × (Listed name names → ⊥))
      → Listed name us ⊎ (Occurs name (named_param prefix n ∷ pieces) × (Listed name names → ⊥))
  after_known prefix n pieces us name (inl l) = inl l
  after_known prefix n pieces us name (inr (o, h)) = inr (inr o, h)

  pub unknowns_only :
      (pieces : List Piece) (us : List Text) (name : Text)
      → Listed name (unknowns db names pieces us)
      → Listed name us ⊎ (Occurs name pieces × (Listed name names → ⊥))
  unfolding unknowns
  unknowns_only [] us name l = inl l
  unknowns_only (other_text t ∷ pieces) us name l = unknowns_only pieces us name l
  unknowns_only (named_param prefix n ∷ pieces) us name l = elim (Option-cases (index_of names n)) [
    | inl e ↦ after_unknown prefix n pieces us name e (
        unknowns_only pieces (added n us) name
          (subst (λ x. Listed name x) (unknowns-none prefix n pieces us e) l))
    | inr (i, e) ↦ after_known prefix n pieces us name (
        unknowns_only pieces us name
          (subst (λ x. Listed name x) (unknowns-some prefix n pieces us i e) l))
  ]

  not_known :
      (n name : Text) (i : ℕ) → n ≡ name → index_of names n ≡ some i → (Listed name names → ⊥) → ⊥
  not_known n name i same e h =
      let (k, at, found) = index_from-some 1 names n i e in
      h (subst (λ x. Listed x names) same (Listed-get_elem? names k n found))

  pub unknowns_all :
      (pieces : List Piece) (us : List Text) (name : Text)
      → Occurs name pieces
      → (Listed name names → ⊥)
      → Listed name (unknowns db names pieces us)
  unfolding unknowns
  unknowns_all [] us name o h = absurd o
  unknowns_all (other_text t ∷ pieces) us name o h = unknowns_all pieces us name o h
  unknowns_all (named_param prefix n ∷ pieces) us name (inr o) h =
      unknowns_all pieces (noted db names (index_of names n) n us) name o h
  unknowns_all (named_param prefix n ∷ pieces) us name (inl same) h =
      elim (Option-cases (index_of names n)) [
        | inl e ↦ rw (unknowns-none prefix n pieces us e) (
            unknowns_keep pieces (added n us) name
              (subst (λ x. Listed x (added n us)) same (added-Listed n us)))
        | inr (i, e) ↦ absurd (not_known n name i same e h)
      ]
