-- ===== src/Macros/Aliases/Substitution.antt =====
-- `substitute_aliases`: it ends, and what it leaves.
use sqlx_data.Prelude.{
  ℕ, zero, suc, ◌∙◌, ◌+◌, ◌<◌, ◌≤◌, ◌≡◌, refl, Text, true, false, contains, text_eq_iff, Listed,
  List, [], ◌∷◌, length, map, sym, ap, ◌⊎◌, Option, none, some, All, arith, Bool-cases, inl, inr,
  if◌then◌else◌,
}
use sqlx_data.Prelude.Texts.Methods.{has_text}
use sqlx_data.Error.{Result, ok, err, ◌>>=◌}
use sqlx_data.Macros.SynResult.{SynResult}
use sqlx_data.Macros.Aliases.Expansion.{Expands, IsCircular, ResultExpands, rounds-Expands}
use sqlx_data.Macros.Aliases.{
  Entries, AliasManager, pattern_of, unresolved, Round, start_round, after_round, visit, visit_all,
  rounds, validate_no_unresolved_aliases, checked, finish, substitute_aliases,
}

-- How many entries have a name that is not yet substituted.
left : List Text → Entries → ℕ
left done [] = 0
left done ((name, content) ∷ entries) = (if contains done name then 0 else 1) + left done entries

left_le :
    (name : Text) (done : List Text) (entries : Entries)
    → left (name ∷ done) entries ≤ left done entries
unfolding left contains
left_le name done [] = omega arith
left_le name done ((n, c) ∷ entries) = ground (arith, left_le name done entries)

abbrev pub names_of : Entries → List Text
names_of entries = map (λ (p : Text × Text). p.0) entries

left_lt :
    (name : Text) (done : List Text) (entries : Entries)
    → Listed name (names_of entries)
    → contains done name ≡ false
    → left (name ∷ done) entries < left done entries
unfolding left contains
left_lt name done [] h fresh = absurd h
left_lt name done ((n, c) ∷ entries) (inl e) fresh =
    let same = (text_eq_iff name n).1 (sym e) in
    ground (arith, left_le name done entries, same, ap (contains done) e)
left_lt name done ((n, c) ∷ entries) (inr h) fresh =
    ground (arith, left_lt name done entries h fresh)

left_le_length : (done : List Text) (entries : Entries) → left done entries ≤ length entries
unfolding left
left_le_length done [] = omega arith
left_le_length done ((n, c) ∷ entries) = ground (arith, left_le_length done entries)

-- No placeholder of the alias stands in the text.
abbrev pub IsFree : Text → Text × Text → Type 0
IsFree t (name, content) = has_text t (pattern_of name) ≡ false

-- Nothing had to be done, or a name that was not yet substituted is now.
abbrev Progress : (Text → Type 0) → Entries → Round → Round → Type 0
Progress Free all r r' =
    ((r' ≡ r) × Free r.result)
    ⊎ ((r'.changed ≡ true) × (left r'.substituted all < left r.substituted all))

abbrev Visited : (Text → Type 0) → Entries → Round → SynResult Round → Type 0
Visited Free all r (ok r') = Progress Free all r r'
Visited Free all r (err e) = Unit

visit-Visited :
    (all : Entries) (name content : Text) (r : Round)
    → Listed name (names_of all)
    → Visited (λ t. IsFree t (name, content)) all r (visit name content r)
unfolding visit
visit-Visited all name content r h = elim (Bool-cases (has_text r.result (pattern_of name))) [
  | inr absent ↦ rw absent (inl (refl, absent))
  | inl present ↦ elim (Bool-cases (contains r.substituted name)) [
    | inl old ↦ rw (present, old) tt
    | inr fresh ↦ rw (present, fresh) (inr (refl, left_lt name r.substituted all h fresh))
  ]
]

module _ (all : Entries) (p : Text × Text) (entries : Entries) where
  abbrev FreeOf : Text → Type 0
  FreeOf t = All (IsFree t) entries

  abbrev FreeOfBoth : Text → Type 0
  FreeOfBoth t = All (IsFree t) (p ∷ entries)

  Visited-after_none :
      (r : Round) (m : SynResult Round)
      → IsFree r.result p
      → Visited FreeOf all r m
      → Visited FreeOfBoth all r m
  Visited-after_none r (ok r') f (inl (e, fs)) = inl (e, (f, fs))
  Visited-after_none r (ok r') f (inr h) = inr h
  Visited-after_none r (err e) f h = h

  Visited-after_some :
      (r r' : Round) (m : SynResult Round)
      → r'.changed ≡ true
      → left r'.substituted all < left r.substituted all
      → Visited FreeOf all r' m
      → Visited FreeOfBoth all r m
  Visited-after_some r r' (ok r'') c h (inl (e, fs)) =
      inr
        (ap (λ x. x.changed) e ∙ c, omega (arith, h, ap (λ (x : Round). left x.substituted all) e))
  Visited-after_some r r' (ok r'') c h (inr (c', h')) = inr (c', omega (arith, h, h'))
  Visited-after_some r r' (err e) c h v = v

  Visited-bind :
      (r : Round) (m : SynResult Round)
      → Visited (λ t. IsFree t p) all r m
      → ((r' : Round) → Visited FreeOf all r' (visit_all entries r'))
      → Visited FreeOfBoth all r (m >>= visit_all entries)
  Visited-bind r (err e) h rest = h
  Visited-bind r (ok r') (inr (c, h)) rest =
      Visited-after_some r r' (visit_all entries r') c h (rest r')
  Visited-bind r (ok r') (inl (e, f)) rest =
      rw e (Visited-after_none r (visit_all entries r) f (rest r))

visit_all-Visited :
    (all entries : Entries) (r : Round)
    → All (λ p. Listed (p.0) (names_of all)) entries
    → Visited (λ t. All (IsFree t) entries) all r (visit_all entries r)
unfolding visit_all
visit_all-Visited all [] r h = inl (refl, tt)
visit_all-Visited all ((name, content) ∷ entries) r (h, hs) =
    Visited-bind all (name, content) entries r (visit name content r)
      (visit-Visited all name content r h) (λ r'. visit_all-Visited all entries r' hs)

-- A text is without any alias.
abbrev Settled : Entries → SynResult Text → Type 0
Settled entries (ok t) = All (IsFree t) entries
Settled entries (err e) = Unit

abbrev Settles : Entries → Option (SynResult Text) → Type 0
Settles entries o = (r : SynResult Text) × (o ≡ some r) × Settled entries r

Listed-later :
    (p : Text × Text) (entries rest : Entries)
    → All (λ q. Listed (q.0) (names_of entries)) rest
    → All (λ q. Listed (q.0) (names_of (p ∷ entries))) rest
Listed-later p entries [] h = tt
Listed-later p entries (q ∷ rest) (h, hs) = (inr h, Listed-later p entries rest hs)

All-Listed : (entries : Entries) → All (λ q. Listed (q.0) (names_of entries)) entries
All-Listed [] = tt
All-Listed (p ∷ entries) = (inl refl, Listed-later p entries entries (All-Listed entries))

after_round-Settles :
    (entries : Entries) (t : Text) (done : List Text)
    (again : Text → List Text → Option (SynResult Text)) (m : SynResult Round)
    → Visited (λ t. All (IsFree t) entries) entries (start_round t done) m
    → ((t' : Text) (done' : List Text)
        → left done' entries < left done entries
        → Settles entries (again t' done'))
    → Settles entries (after_round again m)
after_round-Settles entries t done again (err e) h later = (err e, refl, h)
after_round-Settles entries t done again (ok r) (inl (e, f)) later =
    rw (ap (λ x. x.changed) e) (ok r.result, refl, rw (ap (λ x. x.result) e) f)
after_round-Settles entries t done again (ok r) (inr (c, h)) later =
    rw c (later r.result r.substituted h)

rounds-Settles :
    (fuel : ℕ) (entries : Entries) (t : Text) (done : List Text)
    → left done entries < fuel
    → Settles entries (rounds fuel entries t done)
unfolding rounds
rounds-Settles zero entries t done h = absurd (omega arith)
rounds-Settles (suc fuel) entries t done h =
    after_round-Settles entries t done (rounds fuel entries)
      (visit_all entries (start_round t done))
      (visit_all-Visited entries entries (start_round t done) (All-Listed entries))
      (λ t' done' h'. rounds-Settles fuel entries t' done' (omega (arith, h, h')))

-- The regex finds nothing in the text, or fails.
abbrev FindsNone : Result Text (Option Text) → Type 0
FindsNone (ok (some name)) = ⊥
FindsNone _ = Unit

-- What the loop ends with: an expansion of `sql` without placeholders of aliases.
abbrev pub IsExpansion : Entries → (sql t : Text) → Type 0
IsExpansion entries sql t =
    ((used : List Text) × Expands entries sql used t) × All (IsFree t) entries

abbrev pub IsAnswer : (Text → Result Text (Option Text)) → Entries → Text → SynResult Text → Type 0
IsAnswer captures entries sql (ok t) = IsExpansion entries sql t × FindsNone (captures t)
IsAnswer captures entries sql (err e) =
    IsCircular entries sql e
    ⊎ ((t name : Text) × IsExpansion entries sql t
        × (captures t ≡ ok (some name))
        × (e ≡ unresolved name))

module _ (captures : Text → Result Text (Option Text)) where
  checked-cases :
      (m : Result Text (Option Text))
      → (FindsNone m × (checked captures m ≡ ok tt))
        ⊎ ((name : Text) × (m ≡ ok (some name)) × (checked captures m ≡ err (unresolved name)))
  checked-cases (ok none) = inl (tt, refl)
  checked-cases (ok (some name)) = inr (name, refl, refl)
  checked-cases (err e) = inl (tt, refl)

  finish-IsAnswer :
      (entries : Entries) (sql : Text) (r : SynResult Text)
      → Settled entries r
      → ResultExpands entries sql (some r)
      → (x : SynResult Text) × (finish captures (some r) ≡ some x) × IsAnswer captures entries sql x
  unfolding validate_no_unresolved_aliases
  finish-IsAnswer entries sql (err e) h from = (err e, refl, inl from)
  finish-IsAnswer entries sql (ok t) h from = elim (checked-cases (captures t)) [
    | inl (f, e) ↦ (ok t, rw e, ((from, h), f))
    | inr (name, c, e) ↦ (err (unresolved name), rw e, inr (t, name, (from, h), c, refl))
  ]

-- Whatever the aliases are and in whatever order the map iterates, the loop ends within one round
-- more than there are aliases. What it ends with comes from the text by putting contents in the
-- place of placeholders that stood there, each alias once at most, and holds no placeholder of an
-- alias; it is the result if the regex finds nothing in it. An error names an alias whose
-- placeholder stands again in a text to which such substitutions lead, after the alias was substituted
-- itself; or it names what the regex found in the text that the loop ended with.
pub substitute_aliases_settles :
    (captures : Text → Result Text (Option Text)) (m : AliasManager) (sql : Text)
    → (r : SynResult Text) × (substitute_aliases captures m sql ≡ some r)
      × IsAnswer captures m.aliases sql r
unfolding substitute_aliases
substitute_aliases_settles captures m sql =
    let (r, e, settled) =
      rounds-Settles (suc (length m.aliases)) m.aliases sql []
        (omega (arith, left_le_length [] m.aliases)) in
    let from : ResultExpands m.aliases sql (some r) =
      rw (← e) (rounds-Expands (suc (length m.aliases)) m.aliases sql) in
    rw e (finish-IsAnswer captures m.aliases sql r settled from)
