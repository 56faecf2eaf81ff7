-- ===== src/Cache/Redis/NeverLoads.antt =====
-- The layers that load, over the cache in Redis.
use gotest.Common.{ℕ, ◌≡◌, refl, Option, none, some}
use gotest.Common.Text.{Text}
use gotest.Cache.Layers.{LoadFunc, read_on, single_on, read_through, single_flight}
use gotest.Cache.Redis.{Cmdable, get, boxed_result, redis_cache}

module _ {S V : Type 0} (boxed : Text → V) (client : Cmdable S V) (nil : V) where
  still_missing :
      (load : LoadFunc S V) (key : Text) (expiration : ℕ) (r : Text × Option ℕ × S)
      → read_on nil (redis_cache boxed client) load key expiration (boxed_result boxed client r)
        ≡ boxed_result boxed client r
  still_missing load key expiration (val, none, s) = refl
  still_missing load key expiration (val, some n, s) = refl

  single_still_missing :
      (load : LoadFunc S V) (key : Text) (expiration : ℕ) (r : Text × Option ℕ × S)
      → single_on nil (redis_cache boxed client) load key expiration (boxed_result boxed client r)
        ≡ boxed_result boxed client r
  single_still_missing load key expiration (val, none, s) = refl
  single_still_missing load key expiration (val, some n, s) = refl

  -- Over the cache in Redis neither the read-through cache nor the one with a flight group ever loads
  -- or sets anything, whatever the client answers, a miss included: each `Get` is the `Get` of the
  -- cache in Redis.
  pub never_loads :
      (load : LoadFunc S V) (expiration : ℕ) (key : Text) (s : S)
      → (read_through nil (redis_cache boxed client) load expiration key s ≡ get boxed client key s)
        × (single_flight nil (redis_cache boxed client) load expiration key s
            ≡ get boxed client key s)
  unfolding read_through single_flight get
  never_loads load expiration key s = (
    still_missing load key expiration (client.get key s),
    single_still_missing load key expiration (client.get key s),
  )
