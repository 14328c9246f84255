-- ===== src/External/Cache.antt =====
-- The `cache-manager` package: values under keys, each with a time to live.
use typescript_version_taxi.Base.{Option, some, ℕ, ◌+◌, ◌<◌, ◌≡◌, ◌≢◌}
use typescript_version_taxi.Schema.{Time, Uuid}

-- The texts `revoked:…` and `user_revoked:…`, which differ in their prefix.
pub data Key : Type 0 where
  revoked user_revoked : Uuid → Key

pub record CacheManager : Type 1 where
  pub Cache : Type 0
  pub get : Key → Time → Cache → Option ℕ
  -- the key, the value, the time to live in milliseconds, the clock
  pub set : Key → ℕ → ℕ → Time → Cache → Cache
  -- A value is there until its time to live has passed.
  pub get-set :
      (k : Key) (v ttl : ℕ) (now later : Time) (c : Cache)
      → later < now + ttl
      → get k later (set k v ttl now c) ≡ some v
  -- Another key is left alone.
  pub get-set_other :
      (j k : Key) (v ttl : ℕ) (now later : Time) (c : Cache)
      → j ≢ k
      → get j later (set k v ttl now c) ≡ get j later c
