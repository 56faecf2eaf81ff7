-- ===== src/Cache/SafeMap/Tests.antt =====
-- Witnesses for the map with a lock.
use gotest.Common.{ℕ, ◌≡◌, refl, none, [], true, false}
use gotest.Common.Dict
use native.Mathlib.Decide.{ℕ_discrete}
use gotest.Cache.SafeMap.{SafeMap, done, blocked, put, get, load_or_store, load_or_store_race}

abbrev fresh : SafeMap ℕ ℕ
fresh = record { entries = []; locked = false }

absent : Dict.get {V = ℕ} ℕ_discrete 1 [] ≡ none
unfolding Dict.get
absent = refl

abbrev stuck : SafeMap ℕ ℕ
stuck = record { entries = Dict.put ℕ_discrete 1 20 []; locked = true }

load_or_store_race_example :
    (load_or_store ℕ_discrete 1 10
        (λ t. record t { entries = Dict.put ℕ_discrete 1 20 t.entries })
        fresh
      ≡ done (20, true) stuck)
    × (put ℕ_discrete 2 30 stuck ≡ blocked)
    × (get ℕ_discrete 0 2 stuck ≡ blocked)
load_or_store_race_example = load_or_store_race ℕ_discrete 1 2 10 20 30 0 fresh refl absent
