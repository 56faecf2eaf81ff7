-- ===== src/Cache/Lock/Tests.antt =====
-- Witnesses for the lock, on a Redis with one value for each key.
use gotest.Common.{
  ℕ, ◌<◌, ◌≡◌, ◌≢◌, ◌∙◌, refl, ap, inl, inr, Option, none, some, [], ◌∷◌, ◌++◌, Bool, true, false,
  ite, if_pos, if_neg, if◌then◌else◌, ◌==◌, ==_iff, arith,
}
use gotest.Common.Text.{Text, codes, text_discrete}
use gotest.Cache.Lock.{
  Redis, Link, answered, lost, late, ok, new_lock, lock_not_hold, deadline_exceeded, unlock,
  refresh, try_lock,
}
use gotest.Cache.Lock.Exclusion.{
  Laws, lock_step, try_step, refresh_step, unlock_step, run, run_exclusive,
}
use gotest.Cache.Lock.Ownership.{not_owner_lem, refresh-try_lock}
use gotest.Cache.Lock.Retry.{
  FixedIntervalRetryStrategy, fixed_interval, Turn, returned, going_on, lock_from, IsTaken, elapsed,
  after, AreMisses, Grabs, lock_goes_on, lock_once_free, lock_after_late,
}
use gotest.Cache.Lock.Renewal
use gotest.Cache.Lock.Renewal.{
  tick, timeout, unlock_signal, blocked, going, auto_refresh, auto_refresh-missed, auto_refresh_lem,
}

-- A state is a function, so that the laws need no invariant.
abbrev Store : Type 0
Store = Text → Option Text

put : Text → Option Text → Store → Store
put k o s = λ j. ite (text_discrete j k) o (s j)

put_self : (k : Text) (o : Option Text) (s : Store) → put k o s k ≡ o
unfolding put
put_self k o s = if_pos (text_discrete k k) refl _ _

put_ne : (j k : Text) (o : Option Text) (s : Store) → j ≢ k → put k o s j ≡ s j
unfolding put
put_ne j k o s d = if_neg (text_discrete j k) d _ _

abbrev setting : Text → Text → ℕ → Store → Option Store
setting k v n s = if n == 0 then none else some (put k (some v) s)

abbrev expire_at : Option Text → Text → ℕ → Store → ℕ × Store
expire_at none k n s = (0, s)
expire_at (some v) k n s = (1, if n == 0 then put k none s else s)

abbrev del_at : Option Text → Text → Store → ℕ × Store
del_at none k s = (0, s)
del_at (some v) k s = (1, put k none s)

abbrev set_nx_at : Option Text → Text → Text → Store → Bool × Store
set_nx_at none k v s = (true, put k (some v) s)
set_nx_at (some w) k v s = (false, s)

abbrev redis : Redis Store
redis = record {
  get = λ k s. s k;
  set_ex = setting;
  expire = λ k n s. expire_at (s k) k n s;
  del = λ k s. del_at (s k) k s;
  set_nx = λ k v n s. set_nx_at (s k) k v s;
}

get-setting :
    (b : Bool) (j k v : Text) (s s' : Store)
    → (if b then none else some (put k (some v) s)) ≡ some s'
    → (s' k ≡ some v) × (j ≢ k → s' j ≡ s j)
get-setting true j k v s s' e = cc
get-setting false j k v s s' e =
    rw (← some_inj e) (put_self k (some v) s, λ d. put_ne j k (some v) s d)
  where
    some_inj : {x y : Store} → some x ≡ some y → x ≡ y
    some_inj h = cc

expire_lem :
    (o : Option Text) (j k : Text) (n : ℕ) (s : Store)
    → s k ≡ o
    → ((expire_at o k 0 s).1 k ≡ none) × (j ≢ k → (expire_at o k n s).1 j ≡ s j)
expire_lem none j k n s e = (e, λ d. refl)
expire_lem (some v) j k n s e = (put_self k none s, λ d. at_time (n == 0) d)
  where
    at_time : (b : Bool) → j ≢ k → (if b then put k none s else s) j ≡ s j
    at_time true d = put_ne j k none s d
    at_time false d = refl

expire_found_lem :
    (o : Option Text) (k v : Text) (n : ℕ) (s : Store)
    → s k ≡ o
    → o ≡ some v
    → ((expire_at o k n s).0 ≡ 1) × (0 < n → (expire_at o k n s).1 k ≡ some v)
expire_found_lem none k v n s e h = cc
expire_found_lem (some w) k v n s e h =
    (refl, λ z. at_time (n == 0) (λ q. absurd (omega (arith, z, (==_iff n 0).0 q))))
  where
    at_time : (b : Bool) → (b ≡ true → ⊥) → (if b then put k none s else s) k ≡ some v
    at_time true q = absurd (q refl)
    at_time false q = e ∙ h

del_lem :
    (o : Option Text) (j k : Text) (s : Store)
    → s k ≡ o
    → ((del_at o k s).1 k ≡ none) × (j ≢ k → (del_at o k s).1 j ≡ s j)
del_lem none j k s e = (e, λ d. refl)
del_lem (some v) j k s e = (put_self k none s, λ d. put_ne j k none s d)

set_nx_frame_at :
    (o : Option Text) (j k v : Text) (s : Store) → j ≢ k → (set_nx_at o k v s).1 j ≡ s j
set_nx_frame_at none j k v s d = put_ne j k (some v) s d
set_nx_frame_at (some w) j k v s d = refl

redis-Laws : Laws redis
redis-Laws = record {
  get-set_ex = λ k v n s s' e. (get-setting (n == 0) k k v s s' e).0;
  set_ex_frame = λ j k v n s s' d e. (get-setting (n == 0) j k v s s' e).1 d;
  get-expire = λ k v n s z h. (expire_found_lem (s k) k v n s refl h).1 z;
  get-expire_now = λ k s. (expire_lem (s k) k k 0 s refl).0;
  expire_found = λ k v n s h. (expire_found_lem (s k) k v n s refl h).0;
  expire_frame = λ j k n s d. (expire_lem (s k) j k n s refl).1 d;
  get-del = λ k s. (del_lem (s k) k k s refl).0;
  del_found = λ k v s h. ap (λ o. (del_at o k s).0) h;
  del_frame = λ j k s d. (del_lem (s k) j k s refl).1 d;
  set_nx_free = λ k v n s h. rw (h) (refl, put_self k (some v) s);
  set_nx_taken = λ k v w n s h. ap (λ o. set_nx_at o k v s) h;
  set_nx_frame = λ j k v n s d. set_nx_frame_at (s k) j k v s d;
}

abbrev res : Text
res = codes "r"

abbrev mine : Text
mine = codes "me"

abbrev other : Text
other = codes "them!"

abbrev bare : Store
bare k = none

abbrev taken : Store
taken = put res (some other) bare

abbrev held : Store
held = put res (some mine) bare

held_lem : redis.get res held ≡ some mine
held_lem = put_self res (some mine) bare

taken_lem : redis.get res taken ≡ some other
taken_lem = put_self res (some other) bare

differ : other ≢ mine
differ e = cc

differ_option : some other ≢ some mine
differ_option e = cc

run_exclusive_example :
    redis.get res (
      run redis
        (lock_step answered res other 3
          ∷ refresh_step late res other 3
          ∷ unlock_step answered res other
          ∷ try_step answered res other 9
          ∷ [])
        held)
    ≡ some mine
run_exclusive_example =
    run_exclusive redis redis-Laws res mine
      (lock_step answered res other 3
        ∷ refresh_step late res other 3
        ∷ unlock_step answered res other
        ∷ try_step answered res other 9
        ∷ [])
      held (differ, (differ, (differ, (differ, tt)))) held_lem

not_owner_lem_example :
    (unlock redis answered (new_lock res mine 5) taken
      ≡ (some lock_not_hold, record (new_lock res mine 5) { unlock_ch = true }, taken))
    × (refresh redis answered (new_lock res mine 5) taken ≡ (some lock_not_hold, taken))
not_owner_lem_example =
    not_owner_lem redis (new_lock res mine 5) taken (rw (taken_lem) differ_option)

refresh-try_lock_example :
    ((try_lock redis answered res mine 60 bare).0 ≡ ok (new_lock res mine 0))
    × (redis.get res (try_lock redis answered res mine 60 bare).1 ≡ some mine)
    × ((refresh redis answered (new_lock res mine 0) (try_lock redis answered res mine 60 bare).1).0
        ≡ none)
    × (redis.get res
          (refresh redis answered
            (new_lock res mine 0)
            (try_lock redis answered res mine 60 bare).1).1
        ≡ none)
refresh-try_lock_example = refresh-try_lock redis redis-Laws res mine 60 bare refl

abbrev strategy : FixedIntervalRetryStrategy
strategy = record { interval = 1; max_cnt = 2; cnt = 0 }

abbrev idle : Link → Turn Store
idle l = record { meanwhile = λ s. s; link = l; ends = false }

abbrev emptied : Turn Store
emptied = record { meanwhile = λ s. bare; link = answered; ends = false }

abbrev is_taken : IsTaken redis res mine taken
is_taken = (other, taken_lem, differ)

lock_goes_on_example :
    lock_from redis fixed_interval res mine 60
      (idle answered ∷ idle lost ∷ idle late ∷ [])
      strategy
      taken
    ≡ (going_on, elapsed redis (idle answered ∷ idle lost ∷ idle late ∷ []) taken)
lock_goes_on_example =
    lock_goes_on redis res mine 60 strategy (idle answered ∷ idle lost ∷ idle late ∷ []) taken
      (is_taken, refl, refl, (is_taken, refl, refl, (is_taken, refl, refl, tt))) (omega arith)

missed : AreMisses redis res mine 60 (idle answered ∷ idle lost ∷ []) taken
missed = (inr (inr (refl, is_taken)), refl, (inl refl, refl, tt))

grabs :
    Grabs redis res mine 60
      (emptied.meanwhile (after redis res mine 60 (idle answered ∷ idle lost ∷ []) taken))
      held
grabs = inl (refl, refl)

lock_once_free_example :
    lock_from redis fixed_interval res mine 60
      ((idle answered ∷ idle lost ∷ []) ++ emptied ∷ [])
      strategy
      taken
    ≡ (returned (ok (new_lock res mine 60)), held)
lock_once_free_example =
    lock_once_free redis res mine 60 strategy (idle answered ∷ idle lost ∷ []) emptied [] taken held
      missed (omega arith) refl grabs

lock_after_late_example :
    (lock_from redis fixed_interval res mine 60 (idle late ∷ idle answered ∷ []) strategy bare
      ≡ (returned (ok (new_lock res mine 60)), (redis.expire res 60 held).1))
    × (redis.get res (redis.expire res 60 held).1 ≡ some mine)
lock_after_late_example =
    lock_after_late redis redis-Laws res mine 60 strategy (idle late) (idle answered) [] bare held
      (omega arith) (omega arith) refl refl refl refl refl refl

auto_refresh-missed_example :
    ((auto_refresh redis (new_lock res mine 5) (tick lost ∷ tick late ∷ []) false held).0 ≡ blocked)
    × ((auto_refresh redis (new_lock res mine 5) (tick lost ∷ timeout late ∷ []) false held).0
        ≡ Renewal.returned (some deadline_exceeded))
auto_refresh-missed_example =
    auto_refresh-missed redis (new_lock res mine 5) lost late [] held refl refl
