-- ===== src/Cache/Layers/Typed.antt =====
-- `GetV3` and the generic ReadThroughCacheV1 of read_through.go, whose `Get` asserts a type.
use gotest.Common.{ℕ, ◌≡◌, ◌∙◌, ap, Option, none, some}
use gotest.Common.Text.{Text}
use gotest.Cache.Layers.{CacheError, no_value, fail_to_refresh, Answer, Cache, LoadFunc}
use gotest.Cache.Layers.ReadThrough.{KeepsValues}

-- `(T, error)` with the state after the call, or the panic of a type assertion.
pub data Typed (S T : Type 0) : Type 0 where
  answers : T → Option CacheError → S → Typed S T
  panics : S → Typed S T

module _ {S V : Type 0} (nil : V) (c : Cache S V) where
  -- `GetV3`: the results of the group are assigned to the variables that are returned, and it is
  -- the loaded value that is set.
  abbrev kept : V → Option CacheError × S → Answer S V
  kept v (none, s) = (v, none, s)
  kept v (some er, s) = (nil, some (fail_to_refresh er), s)

  abbrev load_v3 : Text → ℕ → Answer S V → Answer S V
  load_v3 key expiration (v, none, s) = kept v (c.set key v expiration s)
  load_v3 key expiration (v, some er, s) = (v, some er, s)

  abbrev read_v3_on : LoadFunc S V → Text → ℕ → Answer S V → Answer S V
  read_v3_on load key expiration (val, some no_value, s) = load_v3 key expiration (load key s)
  read_v3_on load key expiration (val, some (fail_to_refresh er), s) =
      (val, some (fail_to_refresh er), s)
  read_v3_on load key expiration (val, some (CacheError.other n), s) =
      (val, some (CacheError.other n), s)
  read_v3_on load key expiration (val, none, s) = (val, none, s)

  unfoldable pub read_through_v3 : LoadFunc S V → (expiration : ℕ) → Text → S → Answer S V
  read_through_v3 load expiration key s = read_v3_on load key expiration (c.get key s)

  -- Over a cache that keeps what is set, where it has no value and the loader has one which it
  -- takes, `GetV3` answers the value at once, and again.
  read_through_v3_lem :
      (load : LoadFunc S V) (expiration : ℕ) (key : Text) (val v : V) (s s1 s2 s3 : S)
      → KeepsValues c
      → c.get key s ≡ (val, some no_value, s1)
      → load key s1 ≡ (v, none, s2)
      → c.set key v expiration s2 ≡ (none, s3)
      → (read_through_v3 load expiration key s ≡ (v, none, s3))
        × (read_through_v3 load expiration key s3 ≡ (v, none, s3))
  unfolding read_through_v3
  read_through_v3_lem load expiration key val v s s1 s2 s3 keeps h k l = (
    ap (read_v3_on load key expiration) h ∙ (ap (load_v3 key expiration) k ∙ ap (kept v) l),
    ap (read_v3_on load key expiration) (keeps.apply key v expiration s2 s3 l),
  )

module _ {S V T : Type 0} (of_any : V → Option T) (c : Cache S V) where
  -- `v.(T)` with one result.
  abbrev asserted : Option T → Option CacheError → S → Typed S T
  asserted (some x) e s = answers x e s
  asserted none e s = panics s

  abbrev typed_refreshed : V → V → Option CacheError → Option CacheError × S → Typed S T
  typed_refreshed v val e (none, s) = asserted (of_any val) e s
  typed_refreshed v val e (some er, s) = asserted (of_any v) (some (fail_to_refresh er)) s

  abbrev typed_loaded : Text → ℕ → V → Option CacheError → Answer S V → Typed S T
  typed_loaded key expiration val e (v, none, s) =
      typed_refreshed v val e (c.set key v expiration s)
  typed_loaded key expiration val e (v, some er, s) = asserted (of_any val) e s

  abbrev typed_on : LoadFunc S V → Text → ℕ → Answer S V → Typed S T
  typed_on load key expiration (val, some no_value, s) =
      typed_loaded key expiration val (some no_value) (load key s)
  typed_on load key expiration (val, some (fail_to_refresh er), s) =
      asserted (of_any val) (some (fail_to_refresh er)) s
  typed_on load key expiration (val, some (CacheError.other n), s) =
      asserted (of_any val) (some (CacheError.other n)) s
  typed_on load key expiration (val, none, s) = asserted (of_any val) none s

  -- `Get` of `ReadThroughCacheV1`
  unfoldable pub typed_read_through : LoadFunc S V → (expiration : ℕ) → Text → S → Typed S T
  typed_read_through load expiration key s = typed_on load key expiration (c.get key s)

  -- Where the cache answers a miss with a value that is not of the type, such as nil, and the loader
  -- has a value that the cache takes, the generic `Get` panics although the value is now set.
  typed_miss :
      (load : LoadFunc S V) (expiration : ℕ) (key : Text) (val v : V) (s s1 s2 s3 : S)
      → of_any val ≡ none
      → c.get key s ≡ (val, some no_value, s1)
      → load key s1 ≡ (v, none, s2)
      → c.set key v expiration s2 ≡ (none, s3)
      → typed_read_through load expiration key s ≡ panics s3
  unfolding typed_read_through
  typed_miss load expiration key val v s s1 s2 s3 n h k l =
      ap (typed_on load key expiration) h
      ∙ (ap (typed_loaded key expiration val (some no_value)) k
          ∙ (ap (typed_refreshed v val (some no_value)) l
              ∙ ap (λ o. asserted o (some no_value) s3) n))
