-- ===== src/Cache/SafeMap.antt =====
-- The map with a lock: cache/concurrency/sync/safe_map.go, as what one goroutine finds and leaves.
mod Tests
use gotest.Common.{
  ◌≡◌, ◌≢◌, ◌∙◌, refl, sym, ap, Option, none, some, List, [], ◌∷◌, Bool, true, false, if◌then◌else◌,
}
use gotest.Common.Dict

-- The data and whether the mutex is held for writing by a goroutine that has returned.
pub record SafeMap (K V : Type 0) : Type 0 where
  pub entries : List (K × V)
  pub locked : Bool

-- A call returns with the map, or blocks for ever on the mutex.
pub data Outcome (A K V : Type 0) : Type 0 where
  done : A → SafeMap K V → Outcome A K V
  blocked : Outcome A K V

module _ {K V : Type 0} (dec : Discrete K) where
  -- `Put`
  unfoldable pub put : K → V → SafeMap K V → Outcome Unit K V
  put key val s =
      if s.locked then blocked else done tt (record s { entries = Dict.put dec key val s.entries })

  -- `Get`; the value of a key that is absent is the zero of `V`.
  abbrev or_zero : V → Option V → V × Bool
  or_zero zero_value none = (zero_value, false)
  or_zero zero_value (some v) = (v, true)

  unfoldable pub get : V → K → SafeMap K V → Outcome (V × Bool) K V
  get zero_value key s =
      if s.locked then blocked else done (or_zero zero_value (Dict.get dec key s.entries)) s

  -- The part of `LoadOrStore` under the write lock: a value that is there is returned with the lock
  -- held, since the deferred unlock comes behind the return.
  abbrev checked : K → V → Option V → SafeMap K V → Outcome (V × Bool) K V
  checked key val (some old) s = done (old, true) (record s { locked = true })
  checked key val none s = done (val, false) (record s { entries = Dict.put dec key val s.entries })

  abbrev store : K → V → SafeMap K V → Outcome (V × Bool) K V
  store key val s = if s.locked then blocked else checked key val (Dict.get dec key s.entries) s

  abbrev loaded : K → V → Option V → SafeMap K V → SafeMap K V → Outcome (V × Bool) K V
  loaded key val (some old) s later = done (old, true) s
  loaded key val none s later = store key val later

  -- `LoadOrStore`, where others make another map of it between the two locks.
  unfoldable pub load_or_store :
      K → V → (between : SafeMap K V → SafeMap K V) → SafeMap K V → Outcome (V × Bool) K V
  load_or_store key val between s =
      if s.locked then blocked else loaded key val (Dict.get dec key s.entries) s (between s)

  -- A goroutine that finds the key absent in a map that is not locked, while another one puts it
  -- before the write lock is taken, gets the other's value, as intended; but the map stays
  -- locked: `Put` and `Get` of any key block for ever.
  pub load_or_store_race :
      (key other_key : K) (val theirs v zero_value : V) (s : SafeMap K V)
      → s.locked ≡ false
      → Dict.get dec key s.entries ≡ none
      → (load_or_store key val (λ t. record t { entries = Dict.put dec key theirs t.entries }) s
          ≡ done
              (theirs, true)
              (record { entries = Dict.put dec key theirs s.entries; locked = true }))
        × (put other_key v (record { entries = Dict.put dec key theirs s.entries; locked = true })
            ≡ blocked)
        × (get zero_value other_key
              (record { entries = Dict.put dec key theirs s.entries; locked = true })
            ≡ blocked)
  unfolding load_or_store put get
  load_or_store_race key other_key val theirs v zero_value s l h =
      (rw (l, h, Dict.get-put_self dec key theirs s.entries) refl, refl, refl)

  -- Where nobody comes between, a key that is there is answered and nothing changes, and a key that
  -- is not gets the new value, which `Get` then answers; the map is not locked afterwards.
  pub get-load_or_store :
      (key : K) (val zero_value : V) (s : SafeMap K V)
      → s.locked ≡ false
      → Dict.get dec key s.entries ≡ none
      → (t : SafeMap K V) × (load_or_store key val (λ m. m) s ≡ done (val, false) t)
        × (get zero_value key t ≡ done (val, true) t)
        × (load_or_store key zero_value (λ m. m) t ≡ done (val, true) t)
  unfolding load_or_store get
  get-load_or_store key val zero_value s l h =
      let kept = Dict.get-put_self dec key val s.entries in
      (
        record s { entries = Dict.put dec key val s.entries },
        rw (l, h) (ap (λ o. checked key val o (record { entries = s.entries; locked = false })) h),
        rw (l, kept) refl,
        rw (l, kept) refl,
      )
