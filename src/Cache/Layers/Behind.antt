-- ===== src/Cache/Layers/Behind.antt =====
-- The variants of the layers that leave work to a goroutine, GetV1 and GetV2 of read_through.go and
-- SetV2 and SetV3 of write_through.go.
pub mod Later
use gotest.Common.{ℕ, Option, none, some}
use gotest.Common.Text.{Text}
use gotest.Cache.Layers.{CacheError, no_value, fail_to_refresh, Answer, Cache, LoadFunc, StoreFunc}

-- What becomes of a goroutine: it returns, or `log.Fatalln` ends the program.
pub data Ended (S : Type 0) : Type 0 where
  returns : S → Ended S
  fatal : Ended S

-- The body of a goroutine, on the state that it finds when it runs.
abbrev pub Goroutine : Type 0 → Type 0
Goroutine S = S → Ended S

module _ {S V : Type 0} (c : Cache S V) where
  -- An error of the cache below is logged, and the goroutine returns.
  abbrev logged : Option CacheError × S → Ended S
  logged (e, s) = returns s

  -- `GetV1`: its goroutine sets what has been loaded.
  abbrev set_behind :
      Text → ℕ → V → Option CacheError → Answer S V → Answer S V × Option (Goroutine S)
  set_behind key expiration val e (v, none, s) =
      ((val, e, s), some (λ t. logged (c.set key v expiration t)))
  set_behind key expiration val e (v, some er, s) = ((val, e, s), none)

  abbrev read_v1_on : LoadFunc S V → Text → ℕ → Answer S V → Answer S V × Option (Goroutine S)
  read_v1_on load key expiration (val, some no_value, s) =
      set_behind key expiration val (some no_value) (load key s)
  read_v1_on load key expiration (val, some (fail_to_refresh er), s) =
      ((val, some (fail_to_refresh er), s), none)
  read_v1_on load key expiration (val, some (CacheError.other n), s) =
      ((val, some (CacheError.other n), s), none)
  read_v1_on load key expiration (val, none, s) = ((val, none, s), none)

  unfoldable pub read_through_v1 :
      LoadFunc S V → (expiration : ℕ) → Text → S → Answer S V × Option (Goroutine S)
  read_through_v1 load expiration key s = read_v1_on load key expiration (c.get key s)

  -- `GetV2`: its goroutine loads and sets.
  abbrev set_loaded : Text → ℕ → Answer S V → Ended S
  set_loaded key expiration (v, none, s) = logged (c.set key v expiration s)
  set_loaded key expiration (v, some er, s) = returns s

  abbrev read_v2_on : LoadFunc S V → Text → ℕ → Answer S V → Answer S V × Option (Goroutine S)
  read_v2_on load key expiration (val, some no_value, s) =
      ((val, some no_value, s), some (λ t. set_loaded key expiration (load key t)))
  read_v2_on load key expiration (val, some (fail_to_refresh er), s) =
      ((val, some (fail_to_refresh er), s), none)
  read_v2_on load key expiration (val, some (CacheError.other n), s) =
      ((val, some (CacheError.other n), s), none)
  read_v2_on load key expiration (val, none, s) = ((val, none, s), none)

  unfoldable pub read_through_v2 :
      LoadFunc S V → (expiration : ℕ) → Text → S → Answer S V × Option (Goroutine S)
  read_through_v2 load expiration key s = read_v2_on load key expiration (c.get key s)

  -- `SetV2`: its goroutine sets whatever the store answered.
  abbrev or_fatal : Option CacheError × S → Ended S
  or_fatal (none, s) = returns s
  or_fatal (some e, s) = fatal

  unfoldable pub write_through_v2 :
      StoreFunc S V → Text → V → (expiration : ℕ) → S → (Option CacheError × S) × Goroutine S
  write_through_v2 store key val expiration s =
      (store key val s, λ t. or_fatal (c.set key val expiration t))

  -- `SetV3`: its goroutine stores and sets, and the caller is told of no error.
  abbrev then_set_or_fatal : Text → V → ℕ → Option CacheError × S → Ended S
  then_set_or_fatal key val expiration (none, s) = or_fatal (c.set key val expiration s)
  then_set_or_fatal key val expiration (some e, s) = fatal

  unfoldable pub write_through_v3 :
      StoreFunc S V → Text → V → (expiration : ℕ) → S → (Option CacheError × S) × Goroutine S
  write_through_v3 store key val expiration s =
      ((none, s), λ t. then_set_or_fatal key val expiration (store key val t))
