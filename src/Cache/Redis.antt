-- ===== src/Cache/Redis.antt =====
-- The cache in Redis: cache/redis_cache.go, over any client.
pub mod NeverLoads
mod Tests
use gotest.Common.{ℕ, ◌+◌, Option, none, some, ite}
use gotest.Common.Text.{Text, codes, text_discrete}
use gotest.Cache.Layers.{CacheError, Answer, Cache}

-- `redis.Cmdable`, the three commands that the cache calls, each with the result of its `Result`: the
-- text, and the number of the client's error. A miss is such an error too, `redis.Nil`.
pub record Cmdable (S V : Type 0) : Type 0 where
  pub set : Text → V → (expiration : ℕ) → S → Text × Option ℕ × S
  pub get : Text → S → Text × Option ℕ × S
  pub get_del : Text → S → Text × Option ℕ × S

-- The error that is made of `errFailedToSetCache` and the answer, and those of the client, which
-- cannot name `errNoValue`.
abbrev failed_to_set_cache : CacheError
failed_to_set_cache = CacheError.other 0

abbrev pub of_client : Option ℕ → Option CacheError
of_client none = none
of_client (some n) = some (CacheError.other (n + 1))

-- `boxed` makes a text a value of type `any`.
module _ {S V : Type 0} (boxed : Text → V) (client : Cmdable S V) where
  abbrev set_result : Text × Option ℕ × S → Option CacheError × S
  set_result (val, some n, s) = (of_client (some n), s)
  set_result (val, none, s) =
      ite (text_discrete val (codes "OK")) (none, s) (some failed_to_set_cache, s)

  unfoldable pub set : Text → V → (expiration : ℕ) → S → Option CacheError × S
  set key val expiration s = set_result (client.set key val expiration s)

  abbrev pub boxed_result : Text × Option ℕ × S → Answer S V
  boxed_result (val, e, s) = (boxed val, of_client e, s)

  unfoldable pub get : Text → S → Answer S V
  get key s = boxed_result (client.get key s)

  unfoldable pub delete : Text → S → Answer S V
  delete key s = boxed_result (client.get_del key s)

  -- `*RedisCache` as a `Cache`.
  abbrev pub redis_cache : Cache S V
  redis_cache = record { set = set; get = get }
