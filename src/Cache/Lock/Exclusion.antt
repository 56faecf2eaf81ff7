-- ===== src/Cache/Lock/Exclusion.antt =====
-- Only the value that a key holds unlocks or renews it, for a Redis whose commands do as documented.
use gotest.Common.{
  ℕ, ◌<◌, ◌≡◌, ◌≢◌, ◌∙◌, refl, sym, ap, subst, Option, none, some, List, [], ◌∷◌, Bool, true, false,
  ite, All,
}
use gotest.Common.Text.{Text, text_discrete}
use gotest.Cache.Lock.{
  Redis, Link, answered, lost, late, broken, Result, ok, failed, new_lock, over_link, lua_lock,
  lua_unlock, lua_refresh, lock_on, unlock_on, refresh_on, set_reply, unlock, set_nx_ran, refresh,
  try_lock, tried,
}

-- What Redis documents of the commands.
pub record Laws {S : Type 0} (redis : Redis S) : Type 0 where
  pub get-set_ex :
      (k v : Text) (n : ℕ) (s s' : S) → redis.set_ex k v n s ≡ some s' → redis.get k s' ≡ some v
  pub set_ex_frame :
      (j k v : Text) (n : ℕ) (s s' : S)
      → j ≢ k
      → redis.set_ex k v n s ≡ some s'
      → redis.get j s' ≡ redis.get j s
  -- `expire` keeps the value for a time that is not 0, and deletes the key for 0.
  pub get-expire :
      (k v : Text) (n : ℕ) (s : S)
      → 0 < n
      → redis.get k s ≡ some v
      → redis.get k (redis.expire k n s).1 ≡ some v
  pub get-expire_now : (k : Text) (s : S) → redis.get k (redis.expire k 0 s).1 ≡ none
  pub expire_found :
      (k v : Text) (n : ℕ) (s : S) → redis.get k s ≡ some v → (redis.expire k n s).0 ≡ 1
  pub expire_frame :
      (j k : Text) (n : ℕ) (s : S) → j ≢ k → redis.get j (redis.expire k n s).1 ≡ redis.get j s
  pub get-del : (k : Text) (s : S) → redis.get k (redis.del k s).1 ≡ none
  pub del_found : (k v : Text) (s : S) → redis.get k s ≡ some v → (redis.del k s).0 ≡ 1
  pub del_frame : (j k : Text) (s : S) → j ≢ k → redis.get j (redis.del k s).1 ≡ redis.get j s
  pub set_nx_free :
      (k v : Text) (n : ℕ) (s : S)
      → redis.get k s ≡ none
      → ((redis.set_nx k v n s).0 ≡ true) × (redis.get k (redis.set_nx k v n s).1 ≡ some v)
  pub set_nx_taken :
      (k v w : Text) (n : ℕ) (s : S) → redis.get k s ≡ some w → redis.set_nx k v n s ≡ (false, s)
  pub set_nx_frame :
      (j k v : Text) (n : ℕ) (s : S) → j ≢ k → redis.get j (redis.set_nx k v n s).1 ≡ redis.get j s

-- What a client does with its value on a key, over some link.
pub data Step : Type 0 where
  lock_step try_step refresh_step : Link → Text → Text → ℕ → Step
  unlock_step : Link → Text → Text → Step

abbrev pub value_of : Step → Text
value_of (lock_step link k v n) = v
value_of (try_step link k v n) = v
value_of (refresh_step link k v n) = v
value_of (unlock_step link k v) = v

module _ {S : Type 0} (redis : Redis S) where
  abbrev state_of : {A : Type 0} → Result A × S → S
  state_of (r, s) = s

  unfoldable pub step : Step → S → S
  step (lock_step link k v n) s = state_of (over_link link (lua_lock redis k v n s) s)
  step (try_step link k v n) s = (try_lock redis link k v n s).1
  step (refresh_step link k v n) s = (refresh redis link (new_lock k v n) s).1
  step (unlock_step link k v) s = (unlock redis link (new_lock k v 0) s).2

  unfoldable pub run : List Step → S → S
  run [] s = s
  run (x ∷ xs) s = run xs (step x s)

  over_state :
      {A : Type 0} (P : S → Type 0) (link : Link) (ran : Result A × S) (s : S)
      → P s
      → P (state_of ran)
      → P (state_of (over_link link ran s))
  over_state P answered (r, s') s h k = k
  over_state P lost ran s h k = h
  over_state P late (r, s') s h k = k
  over_state P (broken n) ran s h k = h

  ite_state :
      {A X : Type 0} (P : S → Type 0) (d : Dec X) (x y : Result A × S)
      → (X → P (state_of x))
      → P (state_of y)
      → P (state_of (ite d x y))
  ite_state P (yes p) x y h k = h p
  ite_state P (no p) x y h k = k

  -- A key that holds nothing or another value is another key.
  apart :
      {j k w : Text} {o : Option Text} {s : S}
      → redis.get j s ≡ some w
      → redis.get k s ≡ o
      → o ≢ some w
      → j ≢ k
  apart {s = s} h e d p = d (sym e ∙ (ap (λ i. redis.get i s) (sym p) ∙ h))

  other_value : {u v w : Text} → u ≡ v → v ≢ w → some u ≢ some w
  other_value p d e = d (cc)

  set_keeps :
      (laws : Laws redis) (j w k v : Text) (n : ℕ) (s : S) (r : Option S)
      → redis.set_ex k v n s ≡ r
      → j ≢ k
      → redis.get j s ≡ some w
      → redis.get j (state_of (set_reply redis r s)) ≡ some w
  set_keeps laws j w k v n s none q d h = h
  set_keeps laws j w k v n s (some s') q d h = laws.set_ex_frame j k v n s s' d q ∙ h

  lock_keeps :
      (laws : Laws redis) (j w k v : Text) (n : ℕ) (s : S) (o : Option Text)
      → redis.get k s ≡ o
      → v ≢ w
      → redis.get j s ≡ some w
      → redis.get j (state_of (lock_on redis o k v n s)) ≡ some w
  lock_keeps laws j w k v n s none e d h =
      set_keeps laws j w k v n s (redis.set_ex k v n s) refl (apart h e (λ p. cc)) h
  lock_keeps laws j w k v n s (some u) e d h =
      ite_state (λ t. redis.get j t ≡ some w) (text_discrete u v) _ _
        (λ p. laws.expire_frame j k n s (apart h e (other_value p d)) ∙ h) h

  refresh_keeps :
      (laws : Laws redis) (j w k v : Text) (n : ℕ) (s : S) (o : Option Text)
      → redis.get k s ≡ o
      → v ≢ w
      → redis.get j s ≡ some w
      → redis.get j (state_of (refresh_on redis o k v n s)) ≡ some w
  refresh_keeps laws j w k v n s none e d h = h
  refresh_keeps laws j w k v n s (some u) e d h =
      ite_state (λ t. redis.get j t ≡ some w) (text_discrete u v) _ _
        (λ p. laws.expire_frame j k n s (apart h e (other_value p d)) ∙ h) h

  unlock_keeps :
      (laws : Laws redis) (j w k v : Text) (s : S) (o : Option Text)
      → redis.get k s ≡ o
      → v ≢ w
      → redis.get j s ≡ some w
      → redis.get j (state_of (unlock_on redis o k v s)) ≡ some w
  unlock_keeps laws j w k v s none e d h = h
  unlock_keeps laws j w k v s (some u) e d h =
      ite_state (λ t. redis.get j t ≡ some w) (text_discrete u v) _ _
        (λ p. laws.del_frame j k s (apart h e (other_value p d)) ∙ h) h

  try_keeps :
      (laws : Laws redis) (j w k v : Text) (n : ℕ) (s : S) (o : Option Text)
      → redis.get k s ≡ o
      → redis.get j s ≡ some w
      → redis.get j (redis.set_nx k v n s).1 ≡ some w
  try_keeps laws j w k v n s none e h = laws.set_nx_frame j k v n s (apart h e (λ p. cc)) ∙ h
  try_keeps laws j w k v n s (some u) e h = rw (laws.set_nx_taken k v u n s e) h

  tried_state : (k v : Text) (r : Result Bool × S) → (tried redis k v r).1 ≡ state_of r
  tried_state k v (ok true, s) = refl
  tried_state k v (ok false, s) = refl
  tried_state k v (failed e, s) = refl

  step_keeps :
      (laws : Laws redis) (j w : Text) (x : Step) (s : S)
      → value_of x ≢ w
      → redis.get j s ≡ some w
      → redis.get j (step x s) ≡ some w
  unfolding step lua_lock lua_unlock lua_refresh try_lock unlock refresh
  step_keeps laws j w (lock_step link k v n) s d h =
      over_state (λ t. redis.get j t ≡ some w) link _ s h
        (lock_keeps laws j w k v n s (redis.get k s) refl d h)
  step_keeps laws j w (try_step link k v n) s d h =
      subst (λ t. redis.get j t ≡ some w)
        (sym (tried_state k v (over_link link (set_nx_ran redis (redis.set_nx k v n s)) s)))
        (over_state (λ t. redis.get j t ≡ some w) link _ s h
          (try_keeps laws j w k v n s (redis.get k s) refl h))
  step_keeps laws j w (refresh_step link k v n) s d h =
      over_state (λ t. redis.get j t ≡ some w) link _ s h
        (refresh_keeps laws j w k v n s (redis.get k s) refl d h)
  step_keeps laws j w (unlock_step link k v) s d h =
      over_state (λ t. redis.get j t ≡ some w) link _ s h
        (unlock_keeps laws j w k v s (redis.get k s) refl d h)

  -- While a key holds a value, no run of locks, tries, renewals and unlocks with other values, on
  -- any keys and over any links, takes the key from it.
  pub run_exclusive :
      (laws : Laws redis) (key value : Text) (xs : List Step) (s : S)
      → All (λ x. value_of x ≢ value) xs
      → redis.get key s ≡ some value
      → redis.get key (run xs s) ≡ some value
  unfolding run
  run_exclusive laws key value [] s a h = h
  run_exclusive laws key value (x ∷ xs) s a h =
      run_exclusive laws key value xs (step x s) a.1 (step_keeps laws key value x s a.0 h)
