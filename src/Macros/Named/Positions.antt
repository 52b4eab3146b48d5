-- ===== src/Macros/Named/Positions.antt =====
-- Named parameters turned into positions.
use sqlx_data.Prelude.{
  ℕ, zero, suc, ◌+◌, ◌≡◌, ◌≢◌, refl, ap, inl, inr, Text, text_eq, text_eq_iff, Listed, to_string,
  true, false, List, [], ◌∷◌, ◌++◌, get_elem?, Option, none, some, ◌or◌, Bool-cases, arith,
  if◌then◌else◌,
}
use sqlx_data.Prelude.Texts.Methods.{has_char}
use sqlx_data.Prelude.Texts.Laws.{has_char_right}
use sqlx_data.Dynamic.Binder.{Database}
use sqlx_data.Macros.Named.{
  Piece, other_text, named_param, has_match, index_from, index_of, shown_at, replaced,
}

-- The text that the pieces were cut from.
abbrev pub glue : List Piece → Text
glue [] = []
glue (other_text t ∷ pieces) = t ++ glue pieces
glue (named_param prefix name ∷ pieces) = prefix ++ (b'@' ∷ (name ++ glue pieces))

-- Each name has become the number of a parameter of that name, counted from one.
pub data Converted (names : List Text) : List Piece → Text → Type 0 where
  done : Converted names [] []
  kept :
      {pieces : List Piece} {rest : Text} (t : Text)
      → Converted names pieces rest
      → Converted names (other_text t ∷ pieces) (t ++ rest)
  numbered :
      {pieces : List Piece} {rest : Text} (prefix name : Text) (i : ℕ)
      → get_elem? names i ≡ some name
      → Converted names pieces rest
      → Converted names
          (named_param prefix name ∷ pieces)
          ((prefix ++ (b'$' ∷ to_string (i + 1))) ++ rest)

index_or :
    (n : ℕ) (s : Text) (names : List Text) (name : Text) (i : ℕ) (o : Option ℕ)
    → ((j : ℕ) → o ≡ some j → (k : ℕ) × (j ≡ n + 1 + k) × (get_elem? names k ≡ some name))
    → (o or (if text_eq s name then some n else none)) ≡ some i
    → (k : ℕ) × (i ≡ n + k) × (get_elem? (s ∷ names) k ≡ some name)
index_or n s names name i (some j) later h =
    let same : j ≡ i = cc in
    let (k, e, found) = later j refl in (suc k, omega (arith, same, e), found)
index_or n s names name i none later h = elim (Bool-cases (text_eq s name)) [
  | inl e ↦ (0, ground arith, ap some ((text_eq_iff s name).0 e))
  | inr e ↦ absurd (ground arith)
]

pub index_from-some :
    (n : ℕ) (names : List Text) (name : Text) (i : ℕ)
    → index_from n names name ≡ some i
    → (k : ℕ) × (i ≡ n + k) × (get_elem? names k ≡ some name)
unfolding index_from
index_from-some n [] name i h = cc
index_from-some n (s ∷ names) name i h =
    index_or n s names name i (index_from (n + 1) names name)
      (λ j e. index_from-some (n + 1) names name j e) h

pub index_from-none :
    (n : ℕ) (names : List Text) (name : Text)
    → index_from n names name ≡ none
    → Listed name names
    → ⊥
unfolding index_from
index_from-none n [] name h l = l
index_from-none n (s ∷ names) name h (inl e) = ground (arith, text_eq_iff s name)
index_from-none n (s ∷ names) name h (inr l) = index_from-none (n + 1) names name (ground arith) l

pub Listed-get_elem? :
    (names : List Text) (i : ℕ) (name : Text) → get_elem? names i ≡ some name → Listed name names
Listed-get_elem? [] i name h = cc
Listed-get_elem? (s ∷ names) zero name h = inl (ground arith)
Listed-get_elem? (s ∷ names) (suc i) name h = inr (Listed-get_elem? names i name h)

at_sign :
    (name : Text) (pieces : List Piece)
    → has_char (b'@' ∷ (name ++ glue pieces)) b'@' ≡ false
    → true ≡ false
unfolding has_char
at_sign name pieces h = h

pub without_at :
    (pieces : List Piece) → has_char (glue pieces) b'@' ≡ false → has_match pieces ≡ false
without_at [] h = refl
without_at (other_text t ∷ pieces) h = without_at pieces (has_char_right t (glue pieces) b'@' h)
without_at (named_param prefix name ∷ pieces) h =
    at_sign name pieces (has_char_right prefix (b'@' ∷ (name ++ glue pieces)) b'@' h)

pub unmatched :
    (names : List Text) (pieces : List Piece)
    → has_match pieces ≡ false
    → Converted names pieces (glue pieces)
unmatched names [] h = done
unmatched names (other_text t ∷ pieces) h = kept t (unmatched names pieces h)
unmatched names (named_param prefix name ∷ pieces) h = cc

shown_numbered :
    (db : Database) (prefix name : Text) (k : ℕ)
    → db ≢ Database.mysql
    → shown_at db prefix name (some (1 + k)) ≡ prefix ++ (b'$' ∷ to_string (k + 1))
shown_numbered Database.mysql prefix name k ne = absurd (ne refl)
shown_numbered Database.postgres prefix name k ne =
    ap (λ n. prefix ++ (b'$' ∷ to_string n)) (omega arith)
shown_numbered Database.sqlite prefix name k ne =
    ap (λ n. prefix ++ (b'$' ∷ to_string n)) (omega arith)

-- One name that is known.
pub numbered_here :
    (db : Database) (names : List Text) (prefix name : Text) (pieces : List Piece) (i : ℕ)
    → db ≢ Database.mysql
    → index_of names name ≡ some i
    → Converted names pieces (replaced db names pieces)
    → Converted names
        (named_param prefix name ∷ pieces)
        (replaced db names (named_param prefix name ∷ pieces))
unfolding replaced
numbered_here db names prefix name pieces i ne e rest =
    let (k, at, found) = index_from-some 1 names name i e in
    rw (e, at, shown_numbered db prefix name k ne) (numbered prefix name k found rest)
