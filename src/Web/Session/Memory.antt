-- ===== src/Web/Session/Memory.antt =====
-- The store in memory: web/session/memory/session.go. The package go-cache is a parameter, and a
-- pointer to a session is the number of its allocation.
use gotest.Common.{ℕ, ◌+◌, Option, none, some, List, []}
use gotest.Common.Text.{Text, text_discrete}
use gotest.Common.Dict
use native.Mathlib.Decide.{ℕ_discrete}
use gotest.Web.Session.{Answer, ok, failed}

-- What the store calls of `cache.Cache`, with pointers for values.
pub record TimedCache (C : Type 0) : Type 0 where
  pub set : Text → ℕ → (expiration : ℕ) → C → C
  pub get : Text → C → Option ℕ
  pub delete : Text → C → C

-- `type Session struct`
pub record Session : Type 0 where
  pub id : Text
  pub values : List (Text × Text)

-- The store with the sessions that were allocated.
pub record Memory (C : Type 0) : Type 0 where
  pub sessions : C
  pub expiration : ℕ
  pub heap : List (ℕ × Session)
  pub allocated : ℕ

-- `errors.New` of `Refresh`, `errorSessionNotFound` and `ErrKeyNotFound`.
abbrev pub not_there : ℕ
not_there = 1

abbrev pub session_not_found : ℕ
session_not_found = 2

abbrev pub key_not_found : ℕ
key_not_found = 3

module _ {C : Type 0} (cache : TimedCache C) where
  -- `NewStore`
  abbrev pub new_store : C → ℕ → Memory C
  new_store c expiration = record {
    sessions = c;
    expiration = expiration;
    heap = [];
    allocated = 0;
  }

  unfoldable pub generate : Text → Memory C → Answer ℕ × Memory C
  generate id m = (
    ok m.allocated,
    record m {
      sessions = cache.set id m.allocated m.expiration m.sessions;
      heap = Dict.put ℕ_discrete m.allocated (record { id = id; values = [] }) m.heap;
      allocated = m.allocated + 1;
    },
  )

  abbrev refreshed : Option ℕ → Text → Memory C → Option ℕ × Memory C
  refreshed none id m = (some not_there, m)
  refreshed (some p) id m = (none, record m { sessions = cache.set id p m.expiration m.sessions })

  unfoldable pub refresh : Text → Memory C → Option ℕ × Memory C
  refresh id m = refreshed (cache.get id m.sessions) id m

  unfoldable pub remove : Text → Memory C → Option ℕ × Memory C
  remove id m = (none, record m { sessions = cache.delete id m.sessions })

  abbrev pub found : Option ℕ → Answer ℕ
  found none = failed session_not_found
  found (some p) = ok p

  unfoldable pub get : Text → Memory C → Answer ℕ
  get id m = found (cache.get id m.sessions)

  abbrev pub loaded : Option Text → Answer Text
  loaded none = failed key_not_found
  loaded (some v) = ok v

  abbrev pub load_from : Option Session → Text → Answer Text
  load_from none key = failed key_not_found
  load_from (some s) key = loaded (Dict.get text_discrete key s.values)

  -- `Get` and `Set` of `Session`, through the pointer.
  unfoldable pub get_value : ℕ → Text → Memory C → Answer Text
  get_value p key m = load_from (Dict.get ℕ_discrete p m.heap) key

  abbrev pub store_in : Option Session → ℕ → Text → Text → Memory C → Memory C
  store_in none p key v m = m
  store_in (some s) p key v m = record m {
    heap =
        Dict.put ℕ_discrete p (record s { values = Dict.put text_discrete key v s.values }) m.heap;
  }

  unfoldable pub set_value : ℕ → Text → Text → Memory C → Memory C
  set_value p key v m = store_in (Dict.get ℕ_discrete p m.heap) p key v m

  abbrev id_in : Option Session → Text
  id_in none = []
  id_in (some s) = s.id

  unfoldable pub id : ℕ → Memory C → Text
  id p m = id_in (Dict.get ℕ_discrete p m.heap)
