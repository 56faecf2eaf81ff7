-- ===== src/Cache/Lock.antt =====
-- The distributed lock: cache/redis_lock.go with the scripts cache/lua/lock.lua, unlock.lua and
-- refresh.lua. Redis is a parameter: the commands that the scripts and `TryLock` call, on a state
-- `S`. A script runs as one step.
pub mod Retry
pub mod Exclusion
pub mod Ownership
pub mod Renewal
mod Tests
use gotest.Common.{
  ℕ, Option, none, some, List, [], ◌∷◌, Bool, true, false, ite, if◌then◌else◌, ◌==◌,
}
use gotest.Common.Text.{Text, codes, text_discrete}

-- The commands of Redis on one state, with times in whole seconds: `set` with `EX` refuses some times.
pub record Redis (S : Type 0) : Type 0 where
  pub get : Text → S → Option Text
  pub set_ex : Text → Text → ℕ → S → Option S
  pub expire : Text → ℕ → S → ℕ × S
  pub del : Text → S → ℕ × S
  pub set_nx : Text → Text → ℕ → S → Bool × S

-- `errFailToPreemptLock`, `errLockNotHold`, `context.DeadlineExceeded`, the error of a context that
-- has ended, and errors of the client or of a script.
pub data LockError : Type 0 where
  fail_to_preempt lock_not_hold deadline_exceeded context_done : LockError
  client_error : ℕ → LockError

-- What becomes of a call to Redis: it is answered; it misses its deadline before or after Redis
-- ran it; or it fails before Redis ran it.
pub data Link : Type 0 where
  answered lost late : Link
  broken : ℕ → Link

-- A result with the error; a result that has an error is not looked at.
pub data Result (A : Type 0) : Type 0 where
  ok : A → Result A
  failed : LockError → Result A

abbrev pub lasting : {S : Type 0} → Result ℕ × S → S
lasting (r, s) = s

-- A call over a link, on what Redis does when it runs it.
abbrev pub over_link : {S A : Type 0} → Link → Result A × S → S → Result A × S
over_link answered ran s = ran
over_link lost ran s = (failed deadline_exceeded, s)
over_link late (r, s') s = (failed deadline_exceeded, s')
over_link (broken n) ran s = (failed (client_error n), s)

-- `type Lock struct`. `unlock_ch` tells whether the channel of capacity one holds an element.
pub record Lock : Type 0 where
  pub key : Text
  pub value : Text
  pub expiration : ℕ
  pub unlock_ch : Bool

-- `&Lock{...}` with a new channel.
abbrev pub new_lock : Text → Text → ℕ → Lock
new_lock key value seconds = record {
  key = key;
  value = value;
  expiration = seconds;
  unlock_ch = false;
}

-- The error of `set` with a time that Redis refuses.
abbrev pub invalid_expire : LockError
invalid_expire = client_error 0

module _ {S : Type 0} (redis : Redis S) where
  -- lock.lua
  abbrev set_reply : Option S → S → Result Text × S
  set_reply none s = (failed invalid_expire, s)
  set_reply (some s') s = (ok (codes "OK"), s')

  abbrev lock_on : Option Text → Text → Text → ℕ → S → Result Text × S
  lock_on none key value seconds s = set_reply (redis.set_ex key value seconds s) s
  lock_on (some w) key value seconds s =
      ite (text_discrete w value) (ok (codes "OK"), (redis.expire key seconds s).1) (ok [], s)

  unfoldable pub lua_lock : Text → Text → ℕ → S → Result Text × S
  lua_lock key value seconds s = lock_on (redis.get key s) key value seconds s

  -- unlock.lua
  abbrev numbered : ℕ × S → Result ℕ × S
  numbered (n, s) = (ok n, s)

  abbrev unlock_on : Option Text → Text → Text → S → Result ℕ × S
  unlock_on none key value s = (ok 0, s)
  unlock_on (some w) key value s =
      ite (text_discrete w value) (numbered (redis.del key s)) (ok 0, s)

  unfoldable pub lua_unlock : Text → Text → S → Result ℕ × S
  lua_unlock key value s = unlock_on (redis.get key s) key value s

  -- refresh.lua
  abbrev refresh_on : Option Text → Text → Text → ℕ → S → Result ℕ × S
  refresh_on none key value seconds s = (ok 0, s)
  refresh_on (some w) key value seconds s =
      ite (text_discrete w value) (numbered (redis.expire key seconds s)) (ok 0, s)

  unfoldable pub lua_refresh : Text → Text → ℕ → S → Result ℕ × S
  lua_refresh key value seconds s = refresh_on (redis.get key s) key value seconds s

  -- `Unlock` and `Refresh`: the answer of the script as an error.
  abbrev pub held_error : Result ℕ → Option LockError
  held_error (ok n) = if n == 1 then none else some lock_not_hold
  held_error (failed e) = some e

  abbrev unlocked : Lock → Result ℕ × S → Option LockError × Lock × S
  unlocked l (r, s) = (held_error r, record l { unlock_ch = true }, s)

  -- The deferred send leaves an element in the channel, whether it held one or not.
  unfoldable pub unlock : Link → Lock → S → Option LockError × Lock × S
  unfolding lua_unlock
  unlock link l s = unlocked l (over_link link (lua_unlock l.key l.value s) s)

  abbrev refreshed : Result ℕ × S → Option LockError × S
  refreshed (r, s) = (held_error r, s)

  unfoldable pub refresh : Link → Lock → S → Option LockError × S
  unfolding lua_refresh
  refresh link l s = refreshed (over_link link (lua_refresh l.key l.value l.expiration s) s)

  -- `TryLock`, with the value of `uuid.New()`. The lock is made without its time.
  abbrev tried : Text → Text → Result Bool × S → Result Lock × S
  tried key value (ok true, s) = (ok (new_lock key value 0), s)
  tried key value (ok false, s) = (failed fail_to_preempt, s)
  tried key value (failed e, s) = (failed e, s)

  abbrev set_nx_ran : Bool × S → Result Bool × S
  set_nx_ran (b, s) = (ok b, s)

  unfoldable pub try_lock : Link → Text → Text → ℕ → S → Result Lock × S
  try_lock link key value seconds s =
      tried key value (over_link link (set_nx_ran (redis.set_nx key value seconds s)) s)
