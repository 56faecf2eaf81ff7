-- ===== src/Cache/Layers/WriteThrough.antt =====
-- Writing through a cache, in the two orders.
use gotest.Common.{ℕ, ◌≡◌, ◌∙◌, ap, none, some}
use gotest.Common.Text.{Text}
use gotest.Cache.Layers.{
  CacheError, Cache, StoreFunc, then_set, then_store, write_through, write_through_v1,
}
use gotest.Cache.Layers.ReadThrough.{KeepsValues}

module _ {S V : Type 0} (nil : V) (c : Cache S V) where
  -- Over a cache that keeps what is set and takes the value, when the store fails, `Set` ends with
  -- the state that the store leaves, and `SetV1` stores after the value is in the cache.
  pub write_through_fails :
      (store : StoreFunc S V) (key : Text) (val : V) (expiration : ℕ) (s s1 s2 s3 : S)
      (e e' : CacheError)
      → KeepsValues c
      → store key val s ≡ (some e, s1)
      → c.set key val expiration s ≡ (none, s2)
      → store key val s2 ≡ (some e', s3)
      → (write_through nil c store key val expiration s ≡ (some e, s1))
        × (write_through_v1 nil c store key val expiration s ≡ (some e', s3))
        × (c.get key s2 ≡ (val, none, s2))
  unfolding write_through write_through_v1
  write_through_fails store key val expiration s s1 s2 s3 e e' keeps h k l = (
    ap (then_set nil c key val expiration) h,
    ap (then_store nil c store key val) k ∙ l,
    keeps.apply key val expiration s s2 k,
  )

  -- Over a cache that keeps what is set, when the store and the cache take the value, a `Get` after
  -- `Set` answers it.
  pub get-write_through :
      (store : StoreFunc S V) (key : Text) (val : V) (expiration : ℕ) (s s1 s2 : S)
      → KeepsValues c
      → store key val s ≡ (none, s1)
      → c.set key val expiration s1 ≡ (none, s2)
      → (write_through nil c store key val expiration s ≡ (none, s2))
        × (c.get key s2 ≡ (val, none, s2))
  unfolding write_through
  get-write_through store key val expiration s s1 s2 keeps h k =
      (ap (then_set nil c key val expiration) h ∙ k, keeps.apply key val expiration s1 s2 k)
