-- ===== src/Core/Count/Cached/Fresh.antt =====
-- The caches cannot be seen in the count queries.
use sqlx_data.Prelude.{ℕ, ◌≡◌, sym, ap, ◌∙◌, inl, inr, Text, Option, none, some}
use sqlx_data.Error.{Result, ok, err}
use sqlx_data.Cache
use sqlx_data.Cache.{Store, GlobalCache}
use sqlx_data.Cache.Kept.{get-answer}
use sqlx_data.Parser
use sqlx_data.Parser.{ParserError, Parsing}
use sqlx_data.Parser.Cached.{fresh, Faithful, MakesNoneUp, get-Faithful, parse-fresh}
use sqlx_data.Core.Tree.{Statement}
use sqlx_data.Core.Count.{Printer, generate_count_query}
use sqlx_data.Core.Count.Cached.{
  Caches, no_valid_statement, generated, from_parsed, from_ast, from_count,
  build_count_query_from_sql,
}

module _ {X : Type 0} (p : Parsing (Statement X)) (printer : Printer X) where
  abbrev pub counted : Result ParserError (Option (Statement X)) → Result ParserError Text
  counted (ok (some st)) = ok (generate_count_query printer st none)
  counted (ok none) = err no_valid_statement
  counted (err e) = err e

  -- The count query of a text, without caches.
  abbrev pub fresh_count : Text → Result ParserError Text
  fresh_count sql = counted (fresh p sql)

  abbrev pub AreCounts : {n : Store Text} → GlobalCache n → Type 0
  AreCounts {n} c =
      (key : ℕ) (t : Text)
      → n.get key c.cache ≡ some t
      → (sql : Text) × (p.fingerprint sql ≡ key) × (fresh_count sql ≡ ok t)

  abbrev pub AreFaithful :
      {m : Store (Statement X)} {n : Store Text} → Caches p m n printer → Type 0
  AreFaithful c = Faithful p c.asts × AreCounts c.counts

module _ {X : Type 0} (p : Parsing (Statement X)) (m : Store (Statement X)) (n : Store Text)
    (printer : Printer X) (law : MakesNoneUp m) (law_n : MakesNoneUp n) (sql : Text) (now : ℕ)
    (alone : (t : Text) → p.fingerprint t ≡ p.fingerprint sql → t ≡ sql) where
  abbrev IsFresh : Result ParserError Text × Caches p m n printer → Type 0
  IsFresh r = ((r.0) ≡ fresh_count p printer sql) × AreFaithful p printer (r.1)

  insert-AreCounts :
      (t : Text) (c : GlobalCache n)
      → fresh_count p printer sql ≡ ok t
      → AreCounts p printer c
      → AreCounts p printer ((Cache.insert n (p.fingerprint sql) t now c).1)
  unfolding Cache.insert
  insert-AreCounts t c e h key found k = elim (law_n (p.fingerprint sql) key t found c.cache k) [
    | inl (same, is) ↦ (sql, sym same, rw is e)
    | inr old ↦ h key found old
  ]

  generated-IsFresh :
      (st : Statement X) (asts : GlobalCache m) (counts : GlobalCache n)
      → fresh p sql ≡ ok (some st)
      → Faithful p asts
      → AreCounts p printer counts
      → IsFresh (generated p m n printer (p.fingerprint sql) now st asts counts)
  generated-IsFresh st asts counts e h hc =
      let answer = ap (counted p printer) e in
      (sym answer, (h, insert-AreCounts (generate_count_query printer st none) counts answer hc))

  from_parsed-IsFresh :
      (r : Result ParserError (Option (Statement X)) × GlobalCache m) (counts : GlobalCache n)
      → (r.0) ≡ fresh p sql
      → Faithful p (r.1)
      → AreCounts p printer counts
      → IsFresh (from_parsed p m n printer (p.fingerprint sql) now counts r)
  from_parsed-IsFresh (ok (some st), asts) counts e h hc =
      generated-IsFresh st asts counts (sym e) h hc
  from_parsed-IsFresh (ok none, asts) counts e h hc = (ap (counted p printer) e, (h, hc))
  from_parsed-IsFresh (err x, asts) counts e h hc = (ap (counted p printer) e, (h, hc))

  from_ast-IsFresh :
      (r : Option (Statement X) × GlobalCache m) (asts : GlobalCache m) (counts : GlobalCache n)
      → (r.0) ≡ m.get (p.fingerprint sql) asts.cache
      → Faithful p asts
      → Faithful p (r.1)
      → AreCounts p printer counts
      → IsFresh (from_ast p m n printer sql (p.fingerprint sql) now counts r)
  from_ast-IsFresh (some st, asts') asts counts e h h' hc =
      let (t, same, is) = h (p.fingerprint sql) st (sym e) in
      generated-IsFresh st asts' counts (ap (fresh p) (sym (alone t same)) ∙ is) h' hc
  from_ast-IsFresh (none, asts') asts counts e h h' hc =
      let (answer, kept) = parse-fresh p m law sql now asts' alone h' in
      from_parsed-IsFresh (Parser.parse p m sql now asts') counts answer kept hc

  get-AreCounts :
      (c : GlobalCache n)
      → AreCounts p printer c
      → AreCounts p printer ((Cache.get n (p.fingerprint sql) now c).1)
  get-AreCounts c h =
      let (answer, same) = get-answer n (p.fingerprint sql) now c in
      λ key t k. h key t (rw same at k)

  from_count-IsFresh :
      (r : Option Text × GlobalCache n) (asts : GlobalCache m) (counts : GlobalCache n)
      → (r.0) ≡ n.get (p.fingerprint sql) counts.cache
      → Faithful p asts
      → AreCounts p printer counts
      → AreCounts p printer (r.1)
      → IsFresh (from_count p m n printer sql (p.fingerprint sql) now asts r)
  from_count-IsFresh (some count_sql, counts') asts counts e h hc hc' =
      let (t, same, is) = hc (p.fingerprint sql) count_sql (sym e) in
      (sym (ap (fresh_count p printer) (sym (alone t same)) ∙ is), (h, hc'))
  from_count-IsFresh (none, counts') asts counts e h hc hc' =
      let (answer, same) = get-answer m (p.fingerprint sql) now asts in
      from_ast-IsFresh (Cache.get m (p.fingerprint sql) now asts) asts counts' answer h
        (get-Faithful p m law sql now (p.fingerprint sql) asts h) hc'

  -- Against stores that make no entries up, a text that shares its hash with no other, and caches whose
  -- entries are what their texts parse to and the count queries of their texts: building a count query
  -- through the caches gives what parsing and generating without them gives, errors included, and the
  -- caches stay as they should be.
  pub build_count_query_from_sql-fresh :
      (c : Caches p m n printer)
      → AreFaithful p printer c
      → ((build_count_query_from_sql p m n printer sql now c).0 ≡ fresh_count p printer sql)
        × AreFaithful p printer ((build_count_query_from_sql p m n printer sql now c).1)
  unfolding build_count_query_from_sql
  build_count_query_from_sql-fresh c (h, hc) =
      let (answer, same) = get-answer n (p.fingerprint sql) now c.counts in
      from_count-IsFresh (Cache.get n (p.fingerprint sql) now c.counts) c.asts c.counts answer h hc
        (get-AreCounts c.counts hc)
