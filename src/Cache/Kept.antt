-- ===== src/Cache/Kept.antt =====
-- What a cache answers.
use sqlx_data.Prelude.{ℕ, ◌≡◌, refl, Option, none, some}
use sqlx_data.Cache.{Store, GlobalCache, get, found}

module _ {V : Type 0} (m : Store V) where
  pub get-answer :
      (key now : ℕ) (c : GlobalCache m)
      → ((get m key now c).0 ≡ m.get key c.cache) × (((get m key now c).1).cache ≡ c.cache)
  unfolding get
  get-answer key now c = split (m.get key c.cache)
    where
      split :
          (o : Option V)
          → ((found m key now c o).0 ≡ o) × (((found m key now c o).1).cache ≡ c.cache)
      split (some v) = (refl, refl)
      split none = (refl, refl)
