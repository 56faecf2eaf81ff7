-- ===== src/Cache/MaxCount.antt =====
-- max_cnt_cache.go: the map cache with a limit on the number of its keys.
pub mod Counting
pub mod Reachable
use gotest.Common.{
  ℕ, ◌+◌, ◌-◌, ◌%◌, ◌^◌, ◌≡◌, Option, none, some, List, [], ◌∷◌, Bool, true, false, ltb,
  if◌then◌else◌,
}
use gotest.Common.Text.{Text, text_discrete}
use gotest.Common.Dict
use gotest.Cache.Local.{BuildInMapCache, Item, Reply}
use gotest.Cache.Local

-- `int32` in two's complement: the sum, and the comparison of the signed values.
abbrev pub add_int32 : ℕ → ℕ → ℕ
add_int32 a b = (a + b) % 2 ^ 32

abbrev pub gt_int32 : ℕ → ℕ → Bool
gt_int32 a b = ltb ((b + 2 ^ 31) % 2 ^ 32) ((a + 2 ^ 31) % 2 ^ 32)

-- -1 as an `int32`.
abbrev pub minus_one : ℕ
minus_one = 2 ^ 32 - 1

-- `type MaxCntCache struct`: the count stands beside what the wrapped callback changes.
pub record MaxCntCache (V S : Type 0) : Type 0 where
  pub cache : BuildInMapCache V (ℕ × S)
  pub max_cnt : ℕ

module _ {V S : Type 0} where
  -- `NewMaxCntCache`: the callback counts down before it calls the one of the cache.
  unfoldable pub new_max_cnt_cache : BuildInMapCache V S → (max : ℕ) → MaxCntCache V S
  new_max_cnt_cache b max = record {
    cache = record {
      entries = b.entries;
      on_evicted = λ key val s. (add_int32 s.0 minus_one, b.on_evicted key val s.1);
      seen = (0, b.seen);
    };
    max_cnt = max;
  }

  abbrev pub set_found :
      Option (Item V)
      → (now : ℕ) → Text
      → V
      → (expiration : ℕ) → MaxCntCache V S
      → Reply V × MaxCntCache V S
  set_found (some i) now key val expiration m =
      (Reply.stored, record m { cache = Local.set now key val expiration m.cache })
  set_found none now key val expiration m =
      if gt_int32 (add_int32 m.cache.seen.0 1) m.max_cnt then (Reply.no_capacity, m) else (
        Reply.stored,
        record m {
          cache =
              Local.set now key val expiration
                (record m.cache { seen = (add_int32 m.cache.seen.0 1, m.cache.seen.1) });
        },
      )

  -- `Set`
  unfoldable pub set :
      (now : ℕ) → Text → V → (expiration : ℕ) → MaxCntCache V S → Reply V × MaxCntCache V S
  set now key val expiration m =
      set_found (Dict.get text_discrete key m.cache.entries) now key val expiration m

  -- The other operations are those of the map cache.
  abbrev pub lift :
      Reply V × BuildInMapCache V (ℕ × S) → MaxCntCache V S → Reply V × MaxCntCache V S
  lift (reply, c) m = (reply, record m { cache = c })
