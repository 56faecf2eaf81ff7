-- ===== src/Cache/Layers.antt =====
-- The caches over another cache: read_through.go, bloom_cache.go, singleflight.go and
-- write_through.go. `S` is the state of the cache below and of what the callbacks change.
pub mod ReadThrough
pub mod WriteThrough
pub mod OnMap
pub mod Behind
pub mod Typed
mod Tests
use gotest.Common.{ℕ, Option, none, some, Bool, true, false, if◌then◌else◌}
use gotest.Common.Text.{Text}

-- `errNoValue`, `errFailToRefreshCache` with its cause, and other errors.
pub data CacheError : Type 0 where
  no_value : CacheError
  fail_to_refresh : CacheError → CacheError
  other : ℕ → CacheError

-- `(any, error)` with the state after the call.
abbrev pub Answer : Type 0 → Type 0 → Type 0
Answer S V = V × Option CacheError × S

-- `type Cache interface`, of which these use two methods.
pub record Cache (S V : Type 0) : Type 0 where
  pub set : Text → V → (expiration : ℕ) → S → Option CacheError × S
  pub get : Text → S → Answer S V

abbrev pub LoadFunc : Type 0 → Type 0 → Type 0
LoadFunc S V = Text → S → Answer S V

abbrev pub StoreFunc : Type 0 → Type 0 → Type 0
StoreFunc S V = Text → V → S → Option CacheError × S

module _ {S V : Type 0} (nil : V) (c : Cache S V) where
  -- `Get` of `ReadThroughCache`: what is loaded is a variable of the inner block, and the answer is
  -- that of the cache.
  abbrev refreshed : V → Option CacheError → Option CacheError × S → Answer S V
  refreshed val e (none, s) = (val, e, s)
  refreshed val e (some er, s) = (nil, some (fail_to_refresh er), s)

  abbrev loaded : Text → ℕ → V → Option CacheError → Answer S V → Answer S V
  loaded key expiration val e (v, none, s) = refreshed val e (c.set key v expiration s)
  loaded key expiration val e (v, some er, s) = (val, e, s)

  abbrev pub read_on : LoadFunc S V → Text → ℕ → Answer S V → Answer S V
  read_on load key expiration (val, some no_value, s) =
      loaded key expiration val (some no_value) (load key s)
  read_on load key expiration (val, some (fail_to_refresh er), s) =
      (val, some (fail_to_refresh er), s)
  read_on load key expiration (val, some (other n), s) = (val, some (other n), s)
  read_on load key expiration (val, none, s) = (val, none, s)

  unfoldable pub read_through : LoadFunc S V → (expiration : ℕ) → Text → S → Answer S V
  read_through load expiration key s = read_on load key expiration (c.get key s)

  -- The function that `Get` of `SingleFlightCacheV1` hands to its group, where no other call of the
  -- key is under way, so that the group calls it. It sets the variable `val` of `Get`, which is what
  -- the cache answered.
  abbrev flown : V → Option CacheError × S → Answer S V
  flown v (none, s) = (v, none, s)
  flown v (some er, s) = (v, some (fail_to_refresh er), s)

  abbrev load_and_set : V → Text → ℕ → Answer S V → Answer S V
  load_and_set val key expiration (v, none, s) = flown v (c.set key val expiration s)
  load_and_set val key expiration (v, some er, s) = (v, some er, s)

  abbrev pub single_on : LoadFunc S V → Text → ℕ → Answer S V → Answer S V
  single_on load key expiration (val, some no_value, s) =
      load_and_set val key expiration (load key s)
  single_on load key expiration (val, some (fail_to_refresh er), s) =
      (val, some (fail_to_refresh er), s)
  single_on load key expiration (val, some (other n), s) = (val, some (other n), s)
  single_on load key expiration (val, none, s) = (val, none, s)

  unfoldable pub single_flight : LoadFunc S V → (expiration : ℕ) → Text → S → Answer S V
  single_flight load expiration key s = single_on load key expiration (c.get key s)

  -- The loader of `NewBloomFilterCache`, for the filter `has_key`.
  unfoldable pub bloom_load : (has_key : Text → Bool) → LoadFunc S V → LoadFunc S V
  bloom_load has_key load key s = if has_key key then load key s else (nil, some no_value, s)

  -- `Get` of `BloomFilterCacheV1`, which asks the filter after any error.
  abbrev bloom_set : Text → ℕ → Answer S V → Answer S V
  bloom_set key expiration (v, none, s) = flown v (c.set key v expiration s)
  bloom_set key expiration (v, some er, s) = (v, some er, s)

  abbrev bloom_on : (has_key : Text → Bool) → LoadFunc S V → Text → ℕ → Answer S V → Answer S V
  bloom_on has_key load key expiration (val, none, s) = (val, none, s)
  bloom_on has_key load key expiration (val, some e, s) =
      if has_key key then bloom_set key expiration (load key s) else (val, some e, s)

  unfoldable pub bloom_get :
      (has_key : Text → Bool) → LoadFunc S V → (expiration : ℕ) → Text → S → Answer S V
  bloom_get has_key load expiration key s = bloom_on has_key load key expiration (c.get key s)

  -- `Set` and `SetV1` of `WriteThroughCache`.
  abbrev then_set : Text → V → ℕ → Option CacheError × S → Option CacheError × S
  then_set key val expiration (none, s) = c.set key val expiration s
  then_set key val expiration (some e, s) = (some e, s)

  unfoldable pub write_through :
      StoreFunc S V → Text → V → (expiration : ℕ) → S → Option CacheError × S
  write_through store key val expiration s = then_set key val expiration (store key val s)

  abbrev then_store : StoreFunc S V → Text → V → Option CacheError × S → Option CacheError × S
  then_store store key val (none, s) = store key val s
  then_store store key val (some e, s) = (some e, s)

  unfoldable pub write_through_v1 :
      StoreFunc S V → Text → V → (expiration : ℕ) → S → Option CacheError × S
  write_through_v1 store key val expiration s =
      then_store store key val (c.set key val expiration s)
