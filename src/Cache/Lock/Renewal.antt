-- ===== src/Cache/Lock/Renewal.antt =====
-- `AutoRefresh`, over what the `select` of each turn receives.
use gotest.Common.{
  ℕ, zero, suc, ◌<◌, ◌++◌, replicate, sym, ◌≡◌, ◌≢◌, refl, ap, ◌∙◌, Option, none, some, List, [],
  ◌∷◌, Bool, true, false,
}
use gotest.Cache.Lock.{
  Redis, LockError, Link, answered, lost, late, broken, Lock, deadline_exceeded, refresh,
}
use gotest.Cache.Lock.Exclusion.{Laws}
use gotest.Cache.Lock.Ownership.{refresh_held_at}

-- The ticker with the link of the renewal, `timeoutChan` with that link, or `unlockCh`.
pub data Received : Type 0 where
  tick timeout : Link → Received
  unlock_signal : Received

-- The goroutine returns; it blocks for ever in a send to `timeoutChan`, which holds an element that
-- only this goroutine would take; or it goes on, with an element in `timeoutChan` or without.
pub data Renewing : Type 0 where
  returned : Option LockError → Renewing
  blocked : Renewing
  going : Bool → Renewing

module _ {S : Type 0} (redis : Redis S) where
  -- After the renewal of a tick, with `timeoutChan` as it is: the send blocks when it is full.
  abbrev pub ticked : Bool → Option LockError → Renewing
  ticked true (some deadline_exceeded) = blocked
  ticked false (some deadline_exceeded) = going true
  ticked c (some e) = returned (some e)
  ticked c none = going c

  -- After the renewal of a timeout: without `continue`, the deadline's error is returned too.
  abbrev pub timed_out : Option LockError → Renewing
  timed_out (some e) = returned (some e)
  timed_out none = going false

  abbrev with_state : (Option LockError → Renewing) → Option LockError × S → Renewing × S
  with_state f (e, s) = (f e, s)

  -- A turn where `timeoutChan` holds an element or not. Without one, its case is not chosen.
  unfoldable pub turn : Lock → Received → Bool → S → Renewing × S
  turn l (tick link) c s = with_state (ticked c) (refresh redis link l s)
  turn l (timeout link) true s = with_state timed_out (refresh redis link l s)
  turn l (timeout link) false s = (going false, s)
  turn l unlock_signal c s = (returned none, s)

  -- The loop, on what the turns receive; what comes after the end is not looked at.
  abbrev then_on : (Bool → S → Renewing × S) → Renewing × S → Renewing × S
  then_on rest (going c, s) = rest c s
  then_on rest (returned e, s) = (returned e, s)
  then_on rest (blocked, s) = (blocked, s)

  unfoldable pub auto_refresh : Lock → List Received → Bool → S → Renewing × S
  auto_refresh l [] c s = (going c, s)
  auto_refresh l (r ∷ rs) c s = then_on (auto_refresh l rs) (turn l r c s)

abbrev pub missed : Link → Bool
missed lost = true
missed late = true
missed _ = false

module _ {S : Type 0} (redis : Redis S) where
  missed_lem :
      (link : Link) (l : Lock) (s : S)
      → missed link ≡ true
      → (refresh redis link l s).0 ≡ some deadline_exceeded
  unfolding refresh
  missed_lem lost l s h = refl
  missed_lem late l s h = refl
  missed_lem answered l s h = cc
  missed_lem (broken n) l s h = cc

  with_state_lem :
      (f : Option LockError → Renewing) (r : Option LockError × S)
      → (with_state redis f r).0 ≡ f r.0
  with_state_lem f (e, s) = refl

  then_on_going :
      (rest : Bool → S → Renewing × S) (c : Bool) (r : Renewing × S)
      → r.0 ≡ going c
      → then_on redis rest r ≡ rest c r.1
  then_on_going rest c (going d, s) h = ap (λ b. rest b s) (going_inj h)
    where
      going_inj : {a b : Bool} → going a ≡ going b → a ≡ b
      going_inj e = cc
  then_on_going rest c (returned e, s) h = cc
  then_on_going rest c (blocked, s) h = cc

  then_on_end :
      (rest : Bool → S → Renewing × S) (e : Renewing) (r : Renewing × S)
      → r.0 ≡ e
      → ((c : Bool) → e ≢ going c)
      → (then_on redis rest r).0 ≡ e
  then_on_end rest e (going c, s) h d = absurd (d c (sym h))
  then_on_end rest e (returned x, s) h d = h
  then_on_end rest e (blocked, s) h d = h

  tick_missed :
      (link : Link) (l : Lock) (c : Bool) (s : S)
      → missed link ≡ true
      → (turn redis l (tick link) c s).0 ≡ ticked redis c (some deadline_exceeded)
  unfolding turn
  tick_missed link l c s h =
      with_state_lem (ticked redis c) (refresh redis link l s)
      ∙ ap (ticked redis c) (missed_lem link l s h)

  -- After a tick whose renewal misses its deadline, a second such tick blocks the loop for ever, and
  -- a renewal for the timeout that misses its deadline too ends it with that error.
  pub auto_refresh-missed :
      (l : Lock) (a b : Link) (rs : List Received) (s : S)
      → missed a ≡ true
      → missed b ≡ true
      → ((auto_refresh redis l (tick a ∷ tick b ∷ rs) false s).0 ≡ blocked)
        × ((auto_refresh redis l (tick a ∷ timeout b ∷ rs) false s).0
            ≡ returned (some deadline_exceeded))
  unfolding auto_refresh turn
  auto_refresh-missed l a b rs s h k =
      let first =
        then_on_going (auto_refresh redis l (tick b ∷ rs)) true (turn redis l (tick a) false s)
          (tick_missed a l false s h) in
      let other =
        then_on_going (auto_refresh redis l (timeout b ∷ rs)) true (turn redis l (tick a) false s)
          (tick_missed a l false s h) in
      let s1 = (turn redis l (tick a) false s).1 in
      (
        ap (λ r. r.0) first
            ∙ then_on_end (auto_refresh redis l rs) blocked (turn redis l (tick b) true s1)
                (tick_missed b l true s1 k) (λ c e. cc),
        ap (λ r. r.0) other
            ∙ then_on_end (auto_refresh redis l rs) (returned (some deadline_exceeded))
                (turn redis l (timeout b) true s1)
                (with_state_lem (timed_out redis) (refresh redis b l s1)
                  ∙ ap (timed_out redis) (missed_lem b l s1 k))
                (λ c e. cc),
      )

  -- While the owner's renewals are answered and its time is not 0, the loop goes on and the key
  -- stays its own, however many ticks there are; the signal of `Unlock` ends it without an error.
  pub auto_refresh_lem :
      (laws : Laws redis) (l : Lock) (n : ℕ) (s : S)
      → 0 < l.expiration
      → redis.get l.key s ≡ some l.value
      → ((auto_refresh redis l (replicate n (tick answered)) false s).0 ≡ going false)
        × (redis.get l.key (auto_refresh redis l (replicate n (tick answered)) false s).1
            ≡ some l.value)
        × ((auto_refresh redis l (replicate n (tick answered) ++ unlock_signal ∷ []) false s).0
            ≡ returned none)
  unfolding auto_refresh turn
  auto_refresh_lem laws l zero s p h = (refl, h, refl)
  auto_refresh_lem laws l (suc n) s p h = rw (refresh_held_at redis laws l s h) (
      auto_refresh_lem laws l n (redis.expire l.key l.expiration s).1 p
        (laws.get-expire l.key l.value l.expiration s p h))
