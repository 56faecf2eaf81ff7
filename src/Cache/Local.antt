-- ===== src/Cache/Local.antt =====
-- local_cache.go: the map with deadlines, run one operation at a time.
pub mod Laws
pub mod Polling
use gotest.Common.{
  ℕ, zero, suc, ◌+◌, ◌≡◌, Option, none, some, List, [], ◌∷◌, Bool, true, false, ◌&&◌, not, ltb,
  ◌==◌, if◌then◌else◌,
}
use gotest.Common.Text.{Text, text_discrete}
use gotest.Common.Dict

-- `type item struct`; a time is a number, and 0 the zero time.
pub record Item (V : Type 0) : Type 0 where
  pub val : V
  pub expiration : ℕ

-- `type BuildInMapCache struct`: `on_evicted` is the callback, and `seen` the state that it changes.
pub record BuildInMapCache (V S : Type 0) : Type 0 where
  pub entries : List (Text × Item V)
  pub on_evicted : Text → V → S → S
  pub seen : S

-- What an operation answers. The last is the failure of `Delete`, whose deferred `Unlock` is of a
-- mutex that is not locked.
pub data Reply (V : Type 0) : Type 0 where
  stored : Reply V
  value : V → Reply V
  no_value no_capacity unlock_of_unlocked : Reply V

module _ {V : Type 0} where
  unfoldable pub deadline_before : Item V → ℕ → Bool
  deadline_before i t = not (i.expiration == 0) && ltb i.expiration t

-- `if expiration > 0 { dl = time.Now().Add(expiration) }`; a negative duration acts as 0.
unfoldable pub deadline : (now expiration : ℕ) → ℕ
deadline now expiration = if ltb 0 expiration then now + expiration else 0

module _ {V S : Type 0} where
  -- `Set` and `set`
  unfoldable pub set :
      (now : ℕ) → Text → V → (expiration : ℕ) → BuildInMapCache V S → BuildInMapCache V S
  set now key val expiration b = record b {
    entries =
        Dict.put text_discrete key (record { val = val; expiration = deadline now expiration })
          b.entries;
  }

  abbrev pub delete_found : Option (Item V) → Text → BuildInMapCache V S → BuildInMapCache V S
  delete_found none key b = b
  delete_found (some i) key b = record b {
    seen = b.on_evicted key i.val b.seen;
    entries = Dict.remove text_discrete key b.entries;
  }

  unfoldable pub delete : Text → BuildInMapCache V S → BuildInMapCache V S
  delete key b = delete_found (Dict.get text_discrete key b.entries) key b

  abbrev pub get_found :
      (now : ℕ) → Text → Option (Item V) → BuildInMapCache V S → Reply V × BuildInMapCache V S
  get_found now key none b = (Reply.no_value, b)
  get_found now key (some i) b =
      (Reply.value i.val, if deadline_before i now then delete key b else b)

  -- `Get`; no other goroutine comes between its two lookups.
  unfoldable pub get : (now : ℕ) → Text → BuildInMapCache V S → Reply V × BuildInMapCache V S
  get now key b = get_found now key (Dict.get text_discrete key b.entries) b

  abbrev pub remove_found :
      Text → Option (Item V) → BuildInMapCache V S → Reply V × BuildInMapCache V S
  remove_found key none b = (Reply.unlock_of_unlocked, b)
  remove_found key (some i) b = (Reply.value i.val, delete key b)

  -- `Delete`
  unfoldable pub remove : Text → BuildInMapCache V S → Reply V × BuildInMapCache V S
  remove key b = remove_found key (Dict.get text_discrete key b.entries) b

  abbrev pub poll_found :
      (t : ℕ) → Text → Option (Item V) → BuildInMapCache V S → BuildInMapCache V S
  poll_found t key none b = b
  poll_found t key (some i) b = if deadline_before i t then delete key b else b

  -- One tick of the goroutine that polls: `keys` is the order of the range over the map, which Go
  -- leaves open, and `i` counts up to the break.
  unfoldable pub poll : (t i : ℕ) (keys : List Text) → BuildInMapCache V S → BuildInMapCache V S
  poll t i [] b = b
  poll t i (key ∷ keys) b =
      if ltb 1000 i
      then b
      else poll t (i + 1) keys (poll_found t key (Dict.get text_discrete key b.entries) b)
