-- ===== src/Macros/Aliases/Expansion.antt =====
-- How the text that `substitute_aliases` works on comes about.
use sqlx_data.Prelude.{
  ℕ, zero, suc, ◌≡◌, refl, Text, true, false, contains, List, [], ◌∷◌, ◌⊎◌, inl, inr, Option, none,
  some, All, Bool-cases,
}
use sqlx_data.Prelude.Texts.Methods.{has_text, replace}
use sqlx_data.Error.{ok, err, ◌>>=◌}
use sqlx_data.Macros.SynResult.{SynResult}
use sqlx_data.Macros.Aliases.{
  Entries, pattern_of, circular, Round, start_round, after_round, visit, visit_all, rounds,
}

abbrev pub Among : Text × Text → Entries → Type 0
Among p [] = ⊥
Among p (q ∷ entries) = (p ≡ q) ⊎ Among p entries

-- The text comes from `sql` by putting the contents of aliases in the place of their placeholders, which
-- stood in the text, each alias once at most; the list has the names, the latest first.
pub data Expands (entries : Entries) (sql : Text) : List Text → Text → Type 0 where
  unchanged : Expands entries sql [] sql
  expanded :
      (used : List Text) (t u name content : Text)
      → Expands entries sql used t
      → Among (name, content) entries
      → has_text t (pattern_of name) ≡ true
      → contains used name ≡ false
      → u ≡ replace (pattern_of name) content t
      → Expands entries sql (name ∷ used) u

-- An alias that was substituted stands in the text again.
abbrev pub IsCircular : Entries → (sql e : Text) → Type 0
IsCircular entries sql e =
    (name : Text) × (used : List Text) × (t : Text) × Expands entries sql used t
    × (contains used name ≡ true)
    × (has_text t (pattern_of name) ≡ true)
    × (e ≡ circular name)

module _ (all : Entries) (sql : Text) where
  abbrev RoundExpands : SynResult Round → Type 0
  RoundExpands (ok r) = Expands all sql r.substituted r.result
  RoundExpands (err e) = IsCircular all sql e

  visit-RoundExpands :
      (name content : Text) (r : Round)
      → Among (name, content) all
      → Expands all sql r.substituted r.result
      → RoundExpands (visit name content r)
  unfolding visit
  visit-RoundExpands name content r m h = elim (Bool-cases (has_text r.result (pattern_of name))) [
    | inr absent ↦ rw absent h
    | inl present ↦ elim (Bool-cases (contains r.substituted name)) [
      | inl old ↦ rw (present, old) (name, r.substituted, r.result, h, old, present, refl)
      | inr fresh ↦
          rw (present, fresh)
            (expanded r.substituted r.result (replace (pattern_of name) content r.result) name
              content h m present fresh refl)
    ]
  ]

  RoundExpands-bind :
      (m : SynResult Round) (f : Round → SynResult Round)
      → RoundExpands m
      → ((r : Round) → Expands all sql r.substituted r.result → RoundExpands (f r))
      → RoundExpands (m >>= f)
  RoundExpands-bind (ok r) f h k = k r h
  RoundExpands-bind (err e) f h k = h

  visit_all-RoundExpands :
      (entries : Entries) (r : Round)
      → All (λ p. Among p all) entries
      → Expands all sql r.substituted r.result
      → RoundExpands (visit_all entries r)
  unfolding visit_all
  visit_all-RoundExpands [] r m h = h
  visit_all-RoundExpands ((name, content) ∷ entries) r (m, ms) h =
      RoundExpands-bind (visit name content r) (visit_all entries)
        (visit-RoundExpands name content r m h) (λ r' h'. visit_all-RoundExpands entries r' ms h')

  abbrev pub ResultExpands : Option (SynResult Text) → Type 0
  ResultExpands none = Unit
  ResultExpands (some (ok t)) = (used : List Text) × Expands all sql used t
  ResultExpands (some (err e)) = IsCircular all sql e

  after_round-ResultExpands :
      (again : Text → List Text → Option (SynResult Text)) (m : SynResult Round)
      → RoundExpands m
      → ((t : Text) (done : List Text) → Expands all sql done t → ResultExpands (again t done))
      → ResultExpands (after_round again m)
  after_round-ResultExpands again (err e) h later = h
  after_round-ResultExpands again (ok r) h later =
      elim (r.changed)
        as (λ b.
          ResultExpands
            (elim b [ true ↦ again r.result r.substituted | false ↦ some (ok r.result) ])) [
              | true ↦ later r.result r.substituted h
              | false ↦ (r.substituted, h)
            ]

  rounds-ResultExpands :
      (fuel : ℕ) (t : Text) (done : List Text)
      → All (λ p. Among p all) all
      → Expands all sql done t
      → ResultExpands (rounds fuel all t done)
  unfolding rounds
  rounds-ResultExpands zero t done m h = tt
  rounds-ResultExpands (suc fuel) t done m h =
      after_round-ResultExpands (rounds fuel all) (visit_all all (start_round t done))
        (visit_all-RoundExpands all (start_round t done) m h)
        (λ t' done' h'. rounds-ResultExpands fuel t' done' m h')

Among-later :
    (p : Text × Text) (entries rest : Entries)
    → All (λ q. Among q entries) rest
    → All (λ q. Among q (p ∷ entries)) rest
Among-later p entries [] h = tt
Among-later p entries (q ∷ rest) (h, hs) = (inr h, Among-later p entries rest hs)

All-Among : (entries : Entries) → All (λ q. Among q entries) entries
All-Among [] = tt
All-Among (p ∷ entries) = (inl refl, Among-later p entries entries (All-Among entries))

pub rounds-Expands :
    (fuel : ℕ) (entries : Entries) (sql : Text)
    → ResultExpands entries sql (rounds fuel entries sql [])
rounds-Expands fuel entries sql =
    rounds-ResultExpands entries sql fuel sql [] (All-Among entries) unchanged
