-- ===== src/Cache/Layers/Behind/Later.antt =====
-- What the goroutines of the layers do when they run at last, in whatever state.
use gotest.Common.{ℕ, ◌≡◌, ◌∙◌, ap, none, some}
use gotest.Common.Text.{Text}
use gotest.Cache.Layers.{CacheError, no_value, Cache, LoadFunc, StoreFunc}
use gotest.Cache.Layers.ReadThrough.{KeepsValues}
use gotest.Cache.Layers.Behind.{
  returns, fatal, Goroutine, logged, read_v1_on, set_behind, read_through_v1, or_fatal,
  write_through_v2,
}

module _ {S V : Type 0} (c : Cache S V) (keeps : KeepsValues c) where
  -- The goroutine puts the value into the cache of the state in which it runs, where the cache takes
  -- it, and a `Get` of the key answers it then.
  pub record Fills (key : Text) (v : V) (expiration : ℕ) (g : Goroutine S) : Type 0 where
    pub apply :
        (t t' : S)
        → c.set key v expiration t ≡ (none, t')
        → (g t ≡ returns t') × (c.get key t' ≡ (v, none, t'))

  -- Over a cache that keeps what is set, where it has no value and the loader has one, `GetV1`
  -- answers that there is no value and starts a goroutine that fills the cache whenever it runs.
  read_through_v1_lem :
      (load : LoadFunc S V) (expiration : ℕ) (key : Text) (val v : V) (s s1 s2 : S)
      → c.get key s ≡ (val, some no_value, s1)
      → load key s1 ≡ (v, none, s2)
      → (g : Goroutine S) × (read_through_v1 c load expiration key s
          ≡ ((val, some no_value, s2), some g))
        × Fills key v expiration g
  unfolding read_through_v1
  read_through_v1_lem load expiration key val v s s1 s2 h k = (
    λ t. logged c (c.set key v expiration t),
    ap (read_v1_on c load key expiration) h
        ∙ ap (set_behind c key expiration val (some no_value)) k,
    record { apply = λ t t' l. (ap (logged c) l, keeps.apply key v expiration t t' l) },
  )

  -- Where the store refuses a value, `SetV2` answers the store's error; but its goroutine puts the
  -- value into a cache that takes it, and ends the program where the cache does not take it.
  write_through_v2_fails :
      (store : StoreFunc S V) (key : Text) (val : V) (expiration : ℕ) (e : CacheError) (s s1 : S)
      → store key val s ≡ (some e, s1)
      → ((write_through_v2 c store key val expiration s).0 ≡ (some e, s1))
        × Fills key val expiration (write_through_v2 c store key val expiration s).1
        × ((er : CacheError) (t t' : S)
            → c.set key val expiration t ≡ (some er, t')
            → (write_through_v2 c store key val expiration s).1 t ≡ fatal)
  unfolding write_through_v2
  write_through_v2_fails store key val expiration e s s1 h = (
    h,
    record { apply = λ t t' l. (ap (or_fatal c) l, keeps.apply key val expiration t t' l) },
    λ er t t' l. ap (or_fatal c) l,
  )
