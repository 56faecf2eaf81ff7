-- ===== src/Cache/Layers/ReadThrough.antt =====
-- Reading through a cache that keeps what is set.
use gotest.Common.{ℕ, ◌≡◌, ◌∙◌, refl, ap, none, some, Bool, true, false, if◌then◌else◌}
use gotest.Common.Text.{Text}
use gotest.Cache.Layers.{
  CacheError, no_value, fail_to_refresh, Answer, Cache, LoadFunc, read_on, loaded, refreshed,
  load_and_set, flown, single_on, read_through, single_flight, bloom_load, bloom_set, bloom_on,
  bloom_get,
}

-- A `Get` after a `Set` that succeeds answers what was set and changes nothing.
pub record KeepsValues {S V : Type 0} (c : Cache S V) : Type 0 where
  pub apply :
      (key : Text) (v : V) (expiration : ℕ) (s s' : S)
      → c.set key v expiration s ≡ (none, s')
      → c.get key s' ≡ (v, none, s')

module _ {S V : Type 0} (nil : V) (c : Cache S V) where
  -- Over a cache that keeps what is set, where it has no value and the loader has one which it
  -- takes, the first `Get` answers that there is no value, and only the next one answers it.
  pub read_through_twice :
      (load : LoadFunc S V) (expiration : ℕ) (key : Text) (val v : V) (s s1 s2 s3 : S)
      → KeepsValues c
      → c.get key s ≡ (val, some no_value, s1)
      → load key s1 ≡ (v, none, s2)
      → c.set key v expiration s2 ≡ (none, s3)
      → (read_through nil c load expiration key s ≡ (val, some no_value, s3))
        × (read_through nil c load expiration key s3 ≡ (v, none, s3))
  unfolding read_through
  read_through_twice load expiration key val v s s1 s2 s3 keeps h k l = (
    ap (read_on nil c load key expiration) h
        ∙ (ap (loaded nil c key expiration val (some no_value)) k
            ∙ ap (refreshed nil c val (some no_value)) l),
    ap (read_on nil c load key expiration) (keeps.apply key v expiration s2 s3 l),
  )

  -- Over a cache that keeps what is set, where it answers a miss with `val`, takes `val`, and the
  -- loader has `v`, the cache with a flight group answers `v` once, and `val` with no error from then
  -- on.
  pub single_flight_lem :
      (load : LoadFunc S V) (expiration : ℕ) (key : Text) (val v : V) (s s1 s2 s3 : S)
      → KeepsValues c
      → c.get key s ≡ (val, some no_value, s1)
      → load key s1 ≡ (v, none, s2)
      → c.set key val expiration s2 ≡ (none, s3)
      → (single_flight nil c load expiration key s ≡ (v, none, s3))
        × (single_flight nil c load expiration key s3 ≡ (val, none, s3))
  unfolding single_flight
  single_flight_lem load expiration key val v s s1 s2 s3 keeps h k l = (
    ap (single_on nil c load key expiration) h
        ∙ (ap (load_and_set nil c val key expiration) k ∙ ap (flown nil c v) l),
    ap (single_on nil c load key expiration) (keeps.apply key val expiration s2 s3 l),
  )

  -- The same, with the cache that asks a filter which has the key: it answers what it loads, at once
  -- and again, whatever the error was.
  pub bloom_get_lem :
      (has_key : Text → Bool) (load : LoadFunc S V) (expiration : ℕ) (key : Text) (val v : V)
      → (e : CacheError) (s s1 s2 s3 : S) → KeepsValues c
      → has_key key ≡ true
      → c.get key s ≡ (val, some e, s1)
      → load key s1 ≡ (v, none, s2)
      → c.set key v expiration s2 ≡ (none, s3)
      → (bloom_get nil c has_key load expiration key s ≡ (v, none, s3))
        × (bloom_get nil c has_key load expiration key s3 ≡ (v, none, s3))
  unfolding bloom_get
  bloom_get_lem has_key load expiration key val v e s s1 s2 s3 keeps b h k l = (
    ap (bloom_on nil c has_key load key expiration) h
        ∙ (ap (λ x. if x then bloom_set nil c key expiration (load key s1) else (val, some e, s1)) b
            ∙ (ap (bloom_set nil c key expiration) k ∙ ap (flown nil c v) l)),
    ap (bloom_on nil c has_key load key expiration) (keeps.apply key v expiration s2 s3 l),
  )

  -- A key that the filter does not have is neither loaded nor set: the answer is the cache's.
  pub read_through-bloom_load :
      (has_key : Text → Bool) (load : LoadFunc S V) (expiration : ℕ) (key : Text) (s : S)
      → has_key key ≡ false
      → read_through nil c (bloom_load nil c has_key load) expiration key s ≡ c.get key s
  unfolding read_through bloom_load
  read_through-bloom_load has_key load expiration key s h = at_case (c.get key s)
    where
      at_case :
          (a : Answer S V) → read_on nil c (bloom_load nil c has_key load) key expiration a ≡ a
      at_case (val, some no_value, s) = rw h refl
      at_case (val, some (fail_to_refresh e), s) = refl
      at_case (val, some (CacheError.other n), s) = refl
      at_case (val, none, s) = refl
