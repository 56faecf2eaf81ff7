-- ===== src/Web/Session/Redis.antt =====
-- The store in Redis: web/session/redis/session.go. The commands of Redis are a parameter; a script
-- runs as one step, and a call that fails has not been run.
use gotest.Common.{ℕ, ◌≡◌, refl, Option, none, some, ◌++◌, Bool, true, false, ◌==◌, if◌then◌else◌}
use gotest.Common.Text.{Text, codes}
use gotest.Web.Session.{Answer, ok, failed}

-- The commands on hashes and keys: `exists` answers a count. The arguments of
-- type `Option ℕ` below are the errors of calls that fail.
pub record Hashes (W : Type 0) : Type 0 where
  pub hset : Text → Text → Text → W → ℕ × W
  pub hget : Text → Text → W → Answer Text
  pub expire : Text → (time : ℕ) → W → Bool × W
  pub del : Text → W → ℕ × W
  pub exists : Text → W → ℕ

pub record Store : Type 0 where
  pub prefix : Text
  pub expiration : ℕ

-- `NewStore` and `StoreWithPrefix`, with times in seconds.
abbrev pub new_store : Store
new_store = record { prefix = codes "sessId"; expiration = 900 }

abbrev pub store_with_prefix : Text → Store → Store
store_with_prefix prefix s = record s { prefix = prefix }

pub record Session : Type 0 where
  pub id : Text
  pub key : Text

-- `redisKey`
abbrev pub redis_key : Text → Text → Text
redis_key prefix id = prefix ++ codes "-" ++ id

abbrev pub session_not_found : ℕ
session_not_found = 1

module _ {W : Type 0} (redis : Hashes W) where
  abbrev made : Store → Text → Session
  made s id = record { id = id; key = redis_key s.prefix id }

  -- `Generate`, with the errors of its two calls.
  abbrev limited : Option ℕ → Store → Text → W → Answer Session × W
  limited (some e) s id w = (failed e, w)
  limited none s id w = (ok (made s id), (redis.expire (redis_key s.prefix id) s.expiration w).1)

  unfoldable pub generate : Option ℕ → Option ℕ → Store → Text → W → Answer Session × W
  generate (some e) down2 s id w = (failed e, w)
  generate none down2 s id w = limited down2 s id (redis.hset (redis_key s.prefix id) id id w).1

  abbrev renewed : Bool × W → Option ℕ × W
  renewed (true, w) = (none, w)
  renewed (false, w) = (some session_not_found, w)

  unfoldable pub refresh : Option ℕ → Store → Text → W → Option ℕ × W
  refresh (some e) s id w = (some e, w)
  refresh none s id w = renewed (redis.expire (redis_key s.prefix id) s.expiration w)

  unfoldable pub remove : Option ℕ → Store → Text → W → Option ℕ × W
  remove (some e) s id w = (some e, w)
  remove none s id w = (none, (redis.del (redis_key s.prefix id) w).1)

  unfoldable pub get : Option ℕ → Store → Text → W → Answer Session
  get (some e) s id w = failed e
  get none s id w =
      if redis.exists (redis_key s.prefix id) w == 1
      then ok (made s id)
      else failed session_not_found

  -- `Get` of `Session`: the hash is the one that the argument names, not the session's.
  unfoldable pub get_value : Option ℕ → Session → Text → W → Answer Text
  get_value (some e) s key w = failed e
  get_value none s key w = redis.hget key key w

  -- The script of `Set`: the answer of `exists` is a number, and in Lua every number is true.
  abbrev script : Text → Text → Text → W → ℕ × W
  script hash field v w = redis.hset hash field v w

  -- `Set` of `Session`: the answer of the script is never negative.
  unfoldable pub set_value : Option ℕ → Session → Text → Text → W → Option ℕ × W
  set_value (some e) s key v w = (some e, w)
  set_value none s key v w = (none, (script key key v w).1)

-- A field that has been set is read back.
pub record KeepsFields {W : Type 0} (redis : Hashes W) : Type 0 where
  pub apply :
      (hash field v : Text) (w : W) → redis.hget hash field (redis.hset hash field v w).1 ≡ ok v

-- What one session sets under a key, every session reads under that key, whatever the sessions' ids
-- are: the values are not kept apart.
pub get_value-set_value :
    {W : Type 0} (redis : Hashes W)
    → KeepsFields redis
    → (s t : Session) (key v : Text) (w : W)
    → get_value redis none t key (set_value redis none s key v w).1 ≡ ok v
unfolding get_value set_value
get_value-set_value redis keeps s t key v w = keeps.apply key key v w

-- `Set` succeeds for a session whose hash does not exist.
pub set_value_gone :
    {W : Type 0} (redis : Hashes W) (s : Session) (key v : Text) (w : W)
    → redis.exists s.key w ≡ 0
    → (set_value redis none s key v w).0 ≡ none
unfolding set_value
set_value_gone redis s key v w h = refl
