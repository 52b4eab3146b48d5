-- ===== src/Cache.antt =====
-- sqlx-data-parser/src/global_cache.rs: a cache with statistics for each key. The store of the crate moka
-- is a parameter, since it may drop entries at any time; the table of statistics is an association list.
-- A key is a u64 and an `Instant` is a number. The counters are u64 and wrap around, as in a release build.
pub mod Kept
pub mod Counts
use sqlx_data.Prelude.{
  ℕ, suc, ◌+◌, ◌%◌, ◌^◌, ◌==◌, Bool, List, [], ◌∷◌, Option, none, some, if◌then◌else◌,
}

-- moka::sync::Cache
pub record Store (V : Type 0) : Type 1 where
  pub S : Type 0
  pub get : ℕ → S → Option V
  pub insert : ℕ → V → S → S
  pub invalidate : ℕ → S → S
  pub invalidate_all : S → S

pub record CacheStats : Type 0 where
  pub hits : ℕ
  pub misses : ℕ
  pub last_access : ℕ

abbrev pub Stats : Type 0
Stats = List (ℕ × CacheStats)

abbrev pub stats_of : ℕ → Stats → Option CacheStats
stats_of key [] = none
stats_of key ((k, s) ∷ table) = let rest = stats_of key table in if k == key then some s else rest

-- entry(key).and_modify(f).or_insert(s)
abbrev pub upsert : ℕ → (CacheStats → CacheStats) → CacheStats → Stats → Stats
upsert key f s [] = (key, s) ∷ []
upsert key f s ((k, t) ∷ table) =
    let rest = upsert key f s table in if k == key then (k, f t) ∷ table else (k, t) ∷ rest

abbrev pub remove : ℕ → Stats → Stats
remove key [] = []
remove key ((k, s) ∷ table) =
    let rest = remove key table in if k == key then rest else (k, s) ∷ rest

-- `+= 1` of a u64
abbrev pub incremented : ℕ → ℕ
incremented n = (n + 1) % 2 ^ 64

unfoldable pub record_hit : ℕ → ℕ → Stats → Stats
record_hit key now =
    upsert key (λ s. record s { hits = incremented s.hits; last_access = now })
      (record { hits = 1; misses = 0; last_access = now })

unfoldable pub record_miss : ℕ → ℕ → Stats → Stats
record_miss key now =
    upsert key (λ s. record s { misses = incremented s.misses; last_access = now })
      (record { hits = 0; misses = 1; last_access = now })

module _ {V : Type 0} (m : Store V) where
  pub record GlobalCache : Type 0 where
    pub cache : m.S
    pub stats : Stats

  abbrev found : ℕ → ℕ → GlobalCache → Option V → Option V × GlobalCache
  found key now c (some v) = (some v, record c { stats = record_hit key now c.stats })
  found key now c none = (none, record c { stats = record_miss key now c.stats })

  unfoldable pub get : ℕ → ℕ → GlobalCache → Option V × GlobalCache
  unfolding record_hit record_miss
  get key now c = found key now c (m.get key c.cache)

  unfoldable pub insert : ℕ → V → ℕ → GlobalCache → V × GlobalCache
  unfolding record_hit
  insert key value now c =
      (value, record { cache = m.insert key value c.cache; stats = record_hit key now c.stats })

  abbrev pub invalidate : ℕ → GlobalCache → GlobalCache
  invalidate key c = record { cache = m.invalidate key c.cache; stats = remove key c.stats }

  abbrev pub clear : GlobalCache → GlobalCache
  clear c = record { cache = m.invalidate_all c.cache; stats = [] }

  abbrev made_if_missing : ℕ → V → ℕ → GlobalCache → Option V → V × GlobalCache
  made_if_missing key value now c (some v) = (v, record c { stats = record_hit key now c.stats })
  made_if_missing key value now c none =
      (value, record { cache = m.insert key value c.cache; stats = record_miss key now c.stats })

  -- `get_with` of the store runs the builder, and inserts what it gives, if the key is missing.
  unfoldable pub get_or_insert_with : ℕ → (ℕ → V) → ℕ → GlobalCache → V × GlobalCache
  unfolding record_hit record_miss
  get_or_insert_with key builder now c = made_if_missing key (builder key) now c (m.get key c.cache)

  abbrev pub stats_for : ℕ → GlobalCache → Option CacheStats
  stats_for key c = stats_of key c.stats
