-- ===== src/Parser/Cached.antt =====
-- The cache of parsed statements cannot be seen in the answers.
use sqlx_data.Prelude.{
  ℕ, ◌≡◌, refl, ◌∙◌, ◌⊎◌, true, false, inl, inr, ap, sym, Text, List, [], ◌∷◌, Option, none, some,
  is_empty, if◌then◌else◌, Bool-cases,
}
use sqlx_data.Error.{Result, ok, err}
use sqlx_data.Cache
use sqlx_data.Cache.{Store, GlobalCache}
use sqlx_data.Cache.Kept.{get-answer}
use sqlx_data.Parser.{
  ParserError, Parsing, parse, validate, cached_or, empty_statement, multiple_statements,
  no_statement,
}

module _ {X : Type 0} (p : Parsing X) where
  abbrev judged : Option (List X) → Result ParserError (Option X)
  judged none = ok none
  judged (some []) = err no_statement
  judged (some (st ∷ [])) = ok (some st)
  judged (some (st ∷ st' ∷ sts)) = err multiple_statements

  -- What a text parses to, without a cache.
  abbrev pub fresh : Text → Result ParserError (Option X)
  fresh sql = if is_empty sql then err empty_statement else judged (p.statements sql)

  -- Every entry is what a text with this hash parses to.
  abbrev pub Faithful : {m : Store X} → GlobalCache m → Type 0
  Faithful {m} c =
      (key : ℕ) (st : X)
      → m.get key c.cache ≡ some st
      → (sql : Text) × (p.fingerprint sql ≡ key) × (fresh sql ≡ ok (some st))

-- A store may drop entries, but it makes none up.
abbrev pub MakesNoneUp : {V : Type 0} → Store V → Type 0
MakesNoneUp {V} m =
    (key other : ℕ) (value found : V) (s : m.S)
    → m.get other (m.insert key value s) ≡ some found
    → ((other ≡ key) × (found ≡ value)) ⊎ (m.get other s ≡ some found)

module _ {X : Type 0} (p : Parsing X) (m : Store X) (law : MakesNoneUp m) (sql : Text)
    (now : ℕ) where
  insert-Faithful :
      (st : X) (c : GlobalCache m)
      → fresh p sql ≡ ok (some st)
      → Faithful p c
      → Faithful p ((Cache.insert m (p.fingerprint sql) st now c).1)
  unfolding Cache.insert
  insert-Faithful st c e h key found k = elim (law (p.fingerprint sql) key st found c.cache k) [
    | inl (same, is) ↦ (sql, sym same, rw is e)
    | inr old ↦ h key found old
  ]

  pub get-Faithful :
      (key : ℕ) (c : GlobalCache m) → Faithful p c → Faithful p ((Cache.get m key now c).1)
  get-Faithful key c h =
      let (answer, same) = get-answer m key now c in λ key' st k. h key' st (rw same at k)

  validate-Faithful :
      (o : Option (List X)) (c : GlobalCache m)
      → fresh p sql ≡ judged p o
      → Faithful p c
      → ((validate p m (p.fingerprint sql) now o c).0 ≡ fresh p sql)
        × Faithful p ((validate p m (p.fingerprint sql) now o c).1)
  validate-Faithful none c e h = (sym e, h)
  validate-Faithful (some []) c e h = (sym e, h)
  validate-Faithful (some (st ∷ [])) c e h = (sym e, insert-Faithful st c e h)
  validate-Faithful (some (st ∷ st' ∷ sts)) c e h = (sym e, h)

  cached-Faithful :
      (o : Option X) (c c' : GlobalCache m)
      → ((t : Text) → p.fingerprint t ≡ p.fingerprint sql → t ≡ sql)
      → o ≡ m.get (p.fingerprint sql) c.cache
      → is_empty sql ≡ false
      → Faithful p c
      → Faithful p c'
      → ((cached_or p m sql (p.fingerprint sql) now (o, c')).0 ≡ fresh p sql)
        × Faithful p ((cached_or p m sql (p.fingerprint sql) now (o, c')).1)
  cached-Faithful none c c' alone e ne h h' =
      validate-Faithful (p.statements sql) c' (rw ne refl) h'
  cached-Faithful (some st) c c' alone e ne h h' =
      let (t, same, is) = h (p.fingerprint sql) st (sym e) in
      (sym (ap (fresh p) (sym (alone t same)) ∙ is), h')

  parse_empty :
      (c : GlobalCache m) → is_empty sql ≡ true → parse p m sql now c ≡ (err empty_statement, c)
  unfolding parse
  parse_empty c e = rw e refl

  parse_full :
      (c : GlobalCache m)
      → is_empty sql ≡ false
      → parse p m sql now c
        ≡ cached_or p m sql (p.fingerprint sql) now (Cache.get m (p.fingerprint sql) now c)
  unfolding parse
  parse_full c e = rw e refl

  -- Against a store that makes no entries up, a cache whose entries are all what their texts parse to, and
  -- a text that shares its hash with no other: parsing through the cache answers what parsing
  -- without one does, errors included, and the cache stays as it should be.
  pub parse-fresh :
      (c : GlobalCache m)
      → ((t : Text) → p.fingerprint t ≡ p.fingerprint sql → t ≡ sql)
      → Faithful p c
      → ((parse p m sql now c).0 ≡ fresh p sql) × Faithful p ((parse p m sql now c).1)
  parse-fresh c alone h = elim (Bool-cases (is_empty sql)) [
    | inl empty ↦ rw (parse_empty c empty, empty) (refl, h)
    | inr full ↦
        let r = Cache.get m (p.fingerprint sql) now c in
        let (answer, same) = get-answer m (p.fingerprint sql) now c in
        rw (parse_full c full)
          (cached-Faithful (r.0) c (r.1) alone answer full h (get-Faithful (p.fingerprint sql) c h))
  ]
