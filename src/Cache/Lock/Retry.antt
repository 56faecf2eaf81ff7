-- ===== src/Cache/Lock/Retry.antt =====
-- `Lock` of the client, the loop that tries again, and cache/retry.go.
use gotest.Common.{
  ℕ, ◌<◌, ◌≡◌, ◌≢◌, ◌∙◌, refl, sym, ap, ◌⊎◌, inl, inr, Option, none, some, List, [], ◌∷◌, ◌++◌,
  Bool, true, false, if◌then◌else◌, leb, ite, if_pos, if_neg, arith,
}
use gotest.Common.Text.{Text, codes, text_discrete}
use gotest.Cache.Lock.{
  Redis, Link, answered, lost, late, broken, lock_on, set_reply, Result, ok, failed, Lock, new_lock,
  over_link, fail_to_preempt, deadline_exceeded, context_done, lua_lock,
}
use gotest.Cache.Lock.Exclusion.{Laws}

-- `RetryStrategy`: `Next` on the strategy's own state, `none` for no further try.
pub record RetryStrategy (R : Type 0) : Type 0 where
  pub next : R → Option ℕ × R

pub record FixedIntervalRetryStrategy : Type 0 where
  pub interval : ℕ
  pub max_cnt : ℕ
  pub cnt : ℕ

unfoldable pub fixed_next : FixedIntervalRetryStrategy → Option ℕ × FixedIntervalRetryStrategy
fixed_next f = if leb f.max_cnt f.cnt then (none, f) else (some f.interval, f)

abbrev pub fixed_interval : RetryStrategy FixedIntervalRetryStrategy
fixed_interval = record { next = fixed_next }

-- One turn of the loop as the surroundings decide it: what other clients and time do to the state
-- before the script, the link of the call, and whether the context ends in the wait after it.
pub record Turn (S : Type 0) : Type 0 where
  pub meanwhile : S → S
  pub link : Link
  pub ends : Bool

-- The loop returns, or the turns are used up while it goes on.
pub data Trying : Type 0 where
  returned : Result Lock → Trying
  going_on : Trying

module _ {S R : Type 0} (redis : Redis S) (retry : RetryStrategy R) where
  abbrev waited : Bool → Trying × S → S → Trying × S
  waited true rest s = (returned (failed context_done), s)
  waited false rest s = rest

  -- After a try that did not get the lock: `retry.Next()`, then the wait.
  abbrev retried : Option ℕ → Bool → Trying × S → S → Trying × S
  retried none ends rest s = (returned (failed fail_to_preempt), s)
  retried (some interval) ends rest s = waited ends rest s

  -- The result of a try; `again` is the rest of the loop on the state.
  abbrev tried : Text → Text → ℕ → Option ℕ → Bool → (S → Trying × S) → Result Text × S → Trying × S
  tried key value seconds wait ends again (ok reply, s) =
      ite (text_discrete reply (codes "OK")) (returned (ok (new_lock key value seconds)), s)
        (retried wait ends (again s) s)
  tried key value seconds wait ends again (failed deadline_exceeded, s) =
      retried wait ends (again s) s
  tried key value seconds wait ends again (failed e, s) = (returned (failed e), s)

  unfoldable pub lock_from : Text → Text → ℕ → List (Turn S) → R → S → Trying × S
  unfolding lua_lock
  lock_from key value seconds [] r s = (going_on, s)
  lock_from key value seconds (t ∷ turns) r s =
      tried key value seconds (retry.next r).0 t.ends
        (lock_from key value seconds turns (retry.next r).1)
        (over_link t.link (lua_lock redis key value seconds (t.meanwhile s)) (t.meanwhile s))

abbrev pub not_broken : Link → Bool
not_broken (broken n) = false
not_broken _ = true

module _ {S : Type 0} (redis : Redis S) where
  fixed_waits :
      (f : FixedIntervalRetryStrategy)
      → f.cnt < f.max_cnt
      → fixed_interval.next f ≡ (some f.interval, f)
  unfolding fixed_next
  fixed_waits f h = ground (arith, h)

  -- The script's answer for a key of another.
  lock_on_taken :
      (key value w : Text) (seconds : ℕ) (s : S)
      → redis.get key s ≡ some w
      → w ≢ value
      → lua_lock redis key value seconds s ≡ (ok [], s)
  unfolding lua_lock
  lock_on_taken key value w seconds s h d =
      ap (λ o. lock_on redis o key value seconds s) h ∙ if_neg (text_discrete w value) d _ _

  try_waits :
      (link : Link) (key value : Text) (seconds interval : ℕ) (again : S → Trying × S) (s : S)
      → not_broken link ≡ true
      → tried redis fixed_interval key value seconds
          (some interval)
          false
          again
          (over_link link (ok [], s) s)
        ≡ again s
  try_waits answered key value seconds interval again s h =
      if_neg (text_discrete [] (codes "OK")) (λ e. cc) _ _
  try_waits lost key value seconds interval again s h = refl
  try_waits late key value seconds interval again s h = refl
  try_waits (broken n) key value seconds interval again s h = cc

  -- Another value holds the key.
  abbrev pub IsTaken : Text → Text → S → Type 0
  IsTaken key value s = (w : Text) × (redis.get key s ≡ some w) × (w ≢ value)

  -- What others and time make of Redis over some turns.
  unfoldable pub elapsed : List (Turn S) → S → S
  elapsed [] s = s
  elapsed (t ∷ ts) s = elapsed ts (t.meanwhile s)

  -- At each of these turns another value holds the key, whatever else has happened in between, the
  -- connection does not fail and the context does not end.
  abbrev pub AreTaken : Text → Text → List (Turn S) → S → Type 0
  AreTaken key value [] s = Unit
  AreTaken key value (t ∷ ts) s =
      IsTaken key value (t.meanwhile s)
      × (not_broken t.link ≡ true)
      × (t.ends ≡ false)
      × AreTaken key value ts (t.meanwhile s)

  taken_goes_on :
      (key value : Text) (seconds : ℕ) (f : FixedIntervalRetryStrategy) (t : Turn S)
      → (us : List (Turn S)) (s : S) → IsTaken key value (t.meanwhile s)
      → not_broken t.link ≡ true
      → t.ends ≡ false
      → f.cnt < f.max_cnt
      → lock_from redis fixed_interval key value seconds (t ∷ us) f s
        ≡ lock_from redis fixed_interval key value seconds us f (t.meanwhile s)
  unfolding lock_from
  taken_goes_on key value seconds f t us s k linked e p =
      rw (e, fixed_waits f p, lock_on_taken key value k.0 seconds (t.meanwhile s) k.1 k.2)
        (try_waits t.link key value seconds f.interval _ (t.meanwhile s) linked)

  -- With the fixed interval and a count below its limit, `Lock` never gives up while others hold the
  -- key: where at every try another value holds it, neither the connection fails nor the context
  -- ends, it goes on after any number of tries, whatever else happens in Redis meanwhile, and changes
  -- nothing there itself.
  pub lock_goes_on :
      (key value : Text) (seconds : ℕ) (f : FixedIntervalRetryStrategy) (ts : List (Turn S)) (s : S)
      → AreTaken key value ts s
      → f.cnt < f.max_cnt
      → lock_from redis fixed_interval key value seconds ts f s ≡ (going_on, elapsed ts s)
  unfolding lock_from elapsed
  lock_goes_on key value seconds f [] s a p = refl
  lock_goes_on key value seconds f (t ∷ ts) s (taken, linked, e, rest) p =
      taken_goes_on key value seconds f t ts s taken linked e p
      ∙ lock_goes_on key value seconds f ts (t.meanwhile s) rest p

  -- What a turn of `Lock` leaves in Redis, and some of them.
  abbrev pub after_turn : Text → Text → ℕ → Turn S → S → S
  after_turn key value seconds t s =
      (over_link t.link (lua_lock redis key value seconds (t.meanwhile s)) (t.meanwhile s)).1

  unfoldable pub after : Text → Text → ℕ → List (Turn S) → S → S
  unfolding lua_lock
  after key value seconds [] s = s
  after key value seconds (t ∷ ts) s = after key value seconds ts (after_turn key value seconds t s)

  -- A try that is not answered in time, also one that set the key, or an answered one that finds
  -- another value.
  abbrev pub Misses : Text → Text → Turn S → S → Type 0
  Misses key value t s =
      (t.link ≡ lost)
      ⊎ ((t.link ≡ late) ⊎ ((t.link ≡ answered) × IsTaken key value (t.meanwhile s)))

  abbrev pub AreMisses : Text → Text → ℕ → List (Turn S) → S → Type 0
  AreMisses key value seconds [] s = Unit
  AreMisses key value seconds (t ∷ ts) s =
      Misses key value t s
      × (t.ends ≡ false)
      × AreMisses key value seconds ts (after_turn key value seconds t s)

  after_taken :
      (key value : Text) (seconds : ℕ) (t : Turn S) (s : S)
      → t.link ≡ answered
      → IsTaken key value (t.meanwhile s)
      → after_turn key value seconds t s ≡ t.meanwhile s
  after_taken key value seconds t s l k =
      ap (λ x. (over_link x (lua_lock redis key value seconds (t.meanwhile s)) (t.meanwhile s)).1) l
      ∙ ap (λ r. r.1) (lock_on_taken key value k.0 seconds (t.meanwhile s) k.1 k.2)

  miss_goes_on :
      (key value : Text) (seconds : ℕ) (f : FixedIntervalRetryStrategy) (t : Turn S)
      → (us : List (Turn S)) (s : S) → Misses key value t s
      → t.ends ≡ false
      → f.cnt < f.max_cnt
      → lock_from redis fixed_interval key value seconds (t ∷ us) f s
        ≡ lock_from redis fixed_interval key value seconds us f (after_turn key value seconds t s)
  unfolding lock_from
  miss_goes_on key value seconds f t us s (inl l) e p = rw (l, e, fixed_waits f p) refl
  miss_goes_on key value seconds f t us s (inr (inl l)) e p = rw (l, e, fixed_waits f p) refl
  miss_goes_on key value seconds f t us s (inr (inr (l, k))) e p =
      taken_goes_on key value seconds f t us s k (ap not_broken l) e p
      ∙ ap (lock_from redis fixed_interval key value seconds us f)
          (sym (after_taken key value seconds t s l k))

  misses_go_on :
      (key value : Text) (seconds : ℕ) (f : FixedIntervalRetryStrategy) (ts us : List (Turn S))
      → (s : S) → AreMisses key value seconds ts s
      → f.cnt < f.max_cnt
      → lock_from redis fixed_interval key value seconds (ts ++ us) f s
        ≡ lock_from redis fixed_interval key value seconds us f (after key value seconds ts s)
  unfolding after
  misses_go_on key value seconds f [] us s a p = refl
  misses_go_on key value seconds f (t ∷ ts) us s a p =
      miss_goes_on key value seconds f t (ts ++ us) s a.0 a.1 p
      ∙ misses_go_on key value seconds f ts us (after_turn key value seconds t s) a.2 p

  lua_lock_free :
      (key value : Text) (seconds : ℕ) (s s' : S)
      → redis.get key s ≡ none
      → redis.set_ex key value seconds s ≡ some s'
      → lua_lock redis key value seconds s ≡ (ok (codes "OK"), s')
  unfolding lua_lock
  lua_lock_free key value seconds s s' h k =
      ap (λ o. lock_on redis o key value seconds s) h ∙ ap (λ r. set_reply redis r s) k

  lua_lock_own :
      (key value : Text) (seconds : ℕ) (s : S)
      → redis.get key s ≡ some value
      → lua_lock redis key value seconds s ≡ (ok (codes "OK"), (redis.expire key seconds s).1)
  unfolding lua_lock
  lua_lock_own key value seconds s h =
      ap (λ o. lock_on redis o key value seconds s) h ∙ if_pos (text_discrete value value) refl _ _

  lock_answered :
      (key value : Text) (seconds : ℕ) (f : FixedIntervalRetryStrategy) (t : Turn S)
      → (us : List (Turn S)) (s s' : S) → t.link ≡ answered
      → lua_lock redis key value seconds (t.meanwhile s) ≡ (ok (codes "OK"), s')
      → lock_from redis fixed_interval key value seconds (t ∷ us) f s
        ≡ (returned (ok (new_lock key value seconds)), s')
  unfolding lock_from
  lock_answered key value seconds f t us s s' l h =
      rw (l, h) (if_pos (text_discrete (codes "OK") (codes "OK")) refl _ _)

  -- A key that is free, where Redis takes the time asked for, or that holds the client's own value,
  -- with what the script leaves.
  abbrev pub Grabs : Text → Text → ℕ → S → S → Type 0
  Grabs key value seconds s s' =
      ((redis.get key s ≡ none) × (redis.set_ex key value seconds s ≡ some s'))
      ⊎ ((redis.get key s ≡ some value) × ((redis.expire key seconds s).1 ≡ s'))

  lua_lock-Grabs :
      (key value : Text) (seconds : ℕ) (s s' : S)
      → Grabs key value seconds s s'
      → lua_lock redis key value seconds s ≡ (ok (codes "OK"), s')
  lua_lock-Grabs key value seconds s s' (inl (h, k)) = lua_lock_free key value seconds s s' h k
  lua_lock-Grabs key value seconds s s' (inr (h, k)) =
      lua_lock_own key value seconds s h ∙ ap (λ x. (ok (codes "OK"), x)) k

  -- With the fixed interval and a count below its limit, `Lock` gets the lock by the first answered
  -- try that finds the key free, where Redis takes the time asked for, or holding its own value, after
  -- any tries that were lost, late or answered for another's value, in any order and whatever happens
  -- in Redis between them, while the context does not end; the lock has the time asked for.
  pub lock_once_free :
      (key value : Text) (seconds : ℕ) (f : FixedIntervalRetryStrategy) (ts : List (Turn S))
      → (t : Turn S) (us : List (Turn S)) (s s' : S) → AreMisses key value seconds ts s
      → f.cnt < f.max_cnt
      → t.link ≡ answered
      → Grabs key value seconds (t.meanwhile (after key value seconds ts s)) s'
      → lock_from redis fixed_interval key value seconds (ts ++ t ∷ us) f s
        ≡ (returned (ok (new_lock key value seconds)), s')
  lock_once_free key value seconds f ts t us s s' a p l g =
      misses_go_on key value seconds f ts (t ∷ us) s a p
      ∙ lock_answered key value seconds f t us (after key value seconds ts s) s' l
          (lua_lock-Grabs key value seconds (t.meanwhile (after key value seconds ts s)) s' g)

  -- Where the script set the key but the answer came too late, and the next try finds nothing
  -- changed and is answered, that try gets the lock, as the key holds the client's own value; the
  -- key still holds it. The time is not 0, the count is below its limit and the context does not
  -- end.
  pub lock_after_late :
      (laws : Laws redis) (key value : Text) (seconds : ℕ) (f : FixedIntervalRetryStrategy)
      → (t u : Turn S) (us : List (Turn S)) (s s' : S) → 0 < seconds
      → f.cnt < f.max_cnt
      → t.link ≡ late
      → t.ends ≡ false
      → redis.get key (t.meanwhile s) ≡ none
      → redis.set_ex key value seconds (t.meanwhile s) ≡ some s'
      → u.meanwhile s' ≡ s'
      → u.link ≡ answered
      → (lock_from redis fixed_interval key value seconds (t ∷ u ∷ us) f s
          ≡ (returned (ok (new_lock key value seconds)), (redis.expire key seconds s').1))
        × (redis.get key (redis.expire key seconds s').1 ≡ some value)
  unfolding lock_from
  lock_after_late laws key value seconds f t u us s s' z p l e h k m a =
      let held = laws.get-set_ex key value seconds (t.meanwhile s) s' k in
      (
        rw (l, lua_lock_free key value seconds (t.meanwhile s) s' h k, fixed_waits f p, e)
            (lock_answered key value seconds f u us s' (redis.expire key seconds s').1 a
              (ap (lua_lock redis key value seconds) m ∙ lua_lock_own key value seconds s' held)),
        laws.get-expire key value seconds s' z held,
      )
