-- ===== src/Cache/Counts.antt =====
-- The statistics of a cache: what they count over a series of calls.
use sqlx_data.Prelude.{
  ℕ, ◌+◌, ◌%◌, ◌^◌, ◌<◌, ◌==◌, ◌≡◌, ◌≢◌, refl, inl, inr, Bool, true, false, not, ◌&&◌, List, [],
  ◌∷◌, Option, none, some, is_some, Bool-cases, ==_iff, arith, if◌then◌else◌,
}
use sqlx_data.Cache.{
  Store, CacheStats, Stats, stats_of, upsert, incremented, record_hit, record_miss, GlobalCache,
  found, made_if_missing,
}
use sqlx_data.Cache

-- The counters of a key; a key without an entry was never asked for.
abbrev pub hits_in : Option CacheStats → ℕ
hits_in none = 0
hits_in (some s) = s.hits

abbrev pub misses_in : Option CacheStats → ℕ
misses_in none = 0
misses_in (some s) = s.misses

abbrev pub hits_of : ℕ → Stats → ℕ
hits_of key table = hits_in (stats_of key table)

abbrev pub misses_of : ℕ → Stats → ℕ
misses_of key table = misses_in (stats_of key table)

-- One more on the condition, as a u64.
abbrev plus : Bool → ℕ → ℕ
plus b n = ((if b then 1 else 0) + n) % 2 ^ 64

-- The entry that `upsert` leaves.
abbrev upserted : (CacheStats → CacheStats) → CacheStats → Option CacheStats → CacheStats
upserted f s none = s
upserted f s (some t) = f t

upsert_self :
    (key : ℕ) (f : CacheStats → CacheStats) (s : CacheStats) (table : Stats)
    → stats_of key (upsert key f s table) ≡ some (upserted f s (stats_of key table))
upsert_self key f s [] = ground arith
upsert_self key f s ((k, t) ∷ table) = elim (Bool-cases (k == key)) [
  | inl same ↦ rw (same, same) refl
  | inr other ↦ rw (other, other) (upsert_self key f s table)
]

upsert_other :
    (key other : ℕ) (f : CacheStats → CacheStats) (s : CacheStats) (table : Stats)
    → key ≢ other
    → stats_of other (upsert key f s table) ≡ stats_of other table
upsert_other key other f s [] ne = ground (arith, ne)
upsert_other key other f s ((k, t) ∷ table) ne =
    ground (arith, ne, upsert_other key other f s table ne)

-- The table `t'` counts one call for the key more than `t`: a hit or a miss.
abbrev CountsOne : (key : ℕ) (hit : Bool) (t t' : Stats) → Type 0
CountsOne key hit t t' =
    (k : ℕ)
    → hits_of k t < 2 ^ 64
    → misses_of k t < 2 ^ 64
    → (hits_of k t' ≡ plus (key == k && hit) (hits_of k t))
      × (misses_of k t' ≡ plus (key == k && not hit) (misses_of k t))

upsert-CountsOne :
    (key : ℕ) (hit : Bool) (f : CacheStats → CacheStats) (s : CacheStats) (t : Stats)
    → ((o : Option CacheStats)
        → hits_in o < 2 ^ 64
        → misses_in o < 2 ^ 64
        → ((upserted f s o).hits ≡ plus hit (hits_in o))
          × ((upserted f s o).misses ≡ plus (not hit) (misses_in o)))
    → CountsOne key hit t (upsert key f s t)
upsert-CountsOne key hit f s t one k small few = elim (Bool-cases (key == k)) [
  | inl e ↦
      let same = (==_iff key k).0 e in
      let counted = one (stats_of k t) small few in
      let here : stats_of k (upsert key f s t) ≡ some (upserted f s (stats_of k t)) =
        rw (← same) (upsert_self key f s t) in
      rw (e, here) counted
  | inr e ↦
      let there = upsert_other key k f s t (λ same. cc (e, (==_iff key k).1 same)) in
      rw (e, there) (omega (arith, small), omega (arith, few))
]

record_hit-CountsOne : (key now : ℕ) (t : Stats) → CountsOne key true t (record_hit key now t)
unfolding record_hit
record_hit-CountsOne key now t = upsert-CountsOne key true _ _ t one
  where
    one :
        (o : Option CacheStats)
        → hits_in o < 2 ^ 64
        → misses_in o < 2 ^ 64
        → (let s' =
              upserted
                (λ s. record s { hits = incremented s.hits; last_access = now })
                (record { hits = 1; misses = 0; last_access = now })
                o in
            (s'.hits ≡ plus true (hits_in o)) × (s'.misses ≡ plus false (misses_in o)))
    one none small few = (omega arith, omega arith)
    one (some s) small few = (omega arith, omega (arith, few))

record_miss-CountsOne : (key now : ℕ) (t : Stats) → CountsOne key false t (record_miss key now t)
unfolding record_miss
record_miss-CountsOne key now t = upsert-CountsOne key false _ _ t one
  where
    one :
        (o : Option CacheStats)
        → hits_in o < 2 ^ 64
        → misses_in o < 2 ^ 64
        → (let s' =
              upserted
                (λ s. record s { misses = incremented s.misses; last_access = now })
                (record { hits = 0; misses = 1; last_access = now })
                o in
            (s'.hits ≡ plus false (hits_in o)) × (s'.misses ≡ plus true (misses_in o)))
    one none small few = (omega arith, omega arith)
    one (some s) small few = (omega (arith, small), omega arith)

-- The calls that are counted.
pub data Call (V : Type 0) : Type 0 where
  get : Call V
  insert : V → Call V
  get_or_insert_with : (ℕ → V) → Call V

module _ {V : Type 0} (m : Store V) where
  -- A call for a key, at a time, with the store as it is then: it drops entries when it wants.
  pub record Step : Type 0 where
    pub call : Call V
    pub key : ℕ
    pub now : ℕ
    pub store : m.S

  abbrev called : Call V → ℕ → ℕ → GlobalCache m → GlobalCache m
  called Call.get key now c = (Cache.get m key now c).1
  called (Call.insert v) key now c = (Cache.insert m key v now c).1
  called (Call.get_or_insert_with f) key now c = (Cache.get_or_insert_with m key f now c).1

  abbrev pub run : List Step → GlobalCache m → GlobalCache m
  run [] c = c
  run (s ∷ steps) c = run steps (called s.call s.key s.now (record c { cache = s.store }))

  -- Whether a call is a hit: an insertion is, and a lookup is if the store has the key.
  abbrev pub is_hit : Call V → ℕ → m.S → Bool
  is_hit (Call.insert v) key store = true
  is_hit Call.get key store = is_some (m.get key store)
  is_hit (Call.get_or_insert_with f) key store = is_some (m.get key store)

  -- How many of the calls for the key are hits, or are none.
  abbrev pub calls : (hit : Bool) (key : ℕ) → List Step → ℕ
  calls true key [] = 0
  calls false key [] = 0
  calls true key (s ∷ steps) =
      (if s.key == key && is_hit s.call s.key s.store then 1 else 0) + calls true key steps
  calls false key (s ∷ steps) =
      (if s.key == key && not (is_hit s.call s.key s.store) then 1 else 0) + calls false key steps

  found-CountsOne :
      (key now : ℕ) (c : GlobalCache m) (o : Option V)
      → CountsOne key (is_some o) c.stats ((found m key now c o).1).stats
  found-CountsOne key now c (some v) = record_hit-CountsOne key now c.stats
  found-CountsOne key now c none = record_miss-CountsOne key now c.stats

  made-CountsOne :
      (key now : ℕ) (value : V) (c : GlobalCache m) (o : Option V)
      → CountsOne key (is_some o) c.stats ((made_if_missing m key value now c o).1).stats
  made-CountsOne key now value c (some v) = record_hit-CountsOne key now c.stats
  made-CountsOne key now value c none = record_miss-CountsOne key now c.stats

  called-CountsOne :
      (call : Call V) (key now : ℕ) (c : GlobalCache m)
      → CountsOne key (is_hit call key c.cache) c.stats (called call key now c).stats
  unfolding Cache.get Cache.insert Cache.get_or_insert_with
  called-CountsOne (Call.insert v) key now c = record_hit-CountsOne key now c.stats
  called-CountsOne Call.get key now c = found-CountsOne key now c (m.get key c.cache)
  called-CountsOne (Call.get_or_insert_with f) key now c =
      made-CountsOne key now (f key) c (m.get key c.cache)

  -- After any calls of `get`, `insert` and `get_or_insert_with` for any keys, whatever entries the store
  -- drops in between: the hits that are recorded for a key are those at the start and one for each
  -- insertion of it and each lookup of it that the store answers, and the misses are those at the start
  -- and one for each other lookup of it, both as u64 that wrap around.
  pub run-counts :
      (steps : List Step) (key : ℕ) (c : GlobalCache m)
      → hits_of key c.stats < 2 ^ 64
      → misses_of key c.stats < 2 ^ 64
      → (hits_of key (run steps c).stats ≡ (calls true key steps + hits_of key c.stats) % 2 ^ 64)
        × (misses_of key (run steps c).stats
            ≡ (calls false key steps + misses_of key c.stats) % 2 ^ 64)
  run-counts [] key c small few = (omega (arith, small), omega (arith, few))
  run-counts (s ∷ steps) key c small few =
      let c' = called s.call s.key s.now (record c { cache = s.store }) in
      let (hit, missed) =
        called-CountsOne s.call s.key s.now (record c { cache = s.store }) key small few in
      let (hits, misses) = run-counts steps key c' (omega (arith, hit)) (omega (arith, missed)) in
      (omega (arith, hits, hit), omega (arith, misses, missed))
