-- ===== src/Cache/Lock/Ownership.antt =====
-- What `Unlock`, `Refresh` and `TryLock` answer their owner and others.
use gotest.Common.{
  ℕ, ◌<◌, ◌≡◌, ◌≢◌, ◌∙◌, refl, ap, Option, none, some, Bool, true, false, if_pos, if_neg,
}
use gotest.Common.Text.{Text, text_discrete}
use gotest.Cache.Lock.{
  Redis, answered, ok, Lock, new_lock, lock_not_hold, lua_unlock, lua_refresh, unlock_on,
  refresh_on, unlock, unlocked, refresh, refreshed, try_lock, numbered, tried, set_nx_ran,
}
use gotest.Cache.Lock.Exclusion.{Laws}

module _ {S : Type 0} (redis : Redis S) where
  numbered_lem : (r : ℕ × S) → numbered redis r ≡ (ok r.0, r.1)
  numbered_lem (n, s) = refl

  unlock_on_held :
      (laws : Laws redis) (k v : Text) (s : S)
      → redis.get k s ≡ some v
      → unlock_on redis (some v) k v s ≡ (ok 1, (redis.del k s).1)
  unlock_on_held laws k v s h =
      if_pos (text_discrete v v) refl _ _
      ∙ (numbered_lem (redis.del k s)
          ∙ ap (λ n. (ok n, (redis.del k s).1)) (laws.del_found k v s h))

  refresh_on_held :
      (laws : Laws redis) (k v : Text) (n : ℕ) (s : S)
      → redis.get k s ≡ some v
      → refresh_on redis (some v) k v n s ≡ (ok 1, (redis.expire k n s).1)
  refresh_on_held laws k v n s h =
      if_pos (text_discrete v v) refl _ _
      ∙ (numbered_lem (redis.expire k n s)
          ∙ ap (λ m. (ok m, (redis.expire k n s).1)) (laws.expire_found k v n s h))

  unlock_held_at :
      (laws : Laws redis) (l : Lock) (s : S)
      → redis.get l.key s ≡ some l.value
      → unlock redis answered l s ≡ (none, record l { unlock_ch = true }, (redis.del l.key s).1)
  unfolding unlock lua_unlock
  unlock_held_at laws l s h =
      ap (λ o. unlocked redis l (unlock_on redis o l.key l.value s)) h
      ∙ ap (unlocked redis l) (unlock_on_held laws l.key l.value s h)

  pub refresh_held_at :
      (laws : Laws redis) (l : Lock) (s : S)
      → redis.get l.key s ≡ some l.value
      → refresh redis answered l s ≡ (none, (redis.expire l.key l.expiration s).1)
  unfolding refresh lua_refresh
  refresh_held_at laws l s h =
      ap (λ o. refreshed redis (refresh_on redis o l.key l.value l.expiration s)) h
      ∙ ap (refreshed redis) (refresh_on_held laws l.key l.value l.expiration s h)

  -- The owner of a lock with a time that is not 0 renews it and still holds it, and unlocks it and
  -- then nobody holds the key.
  pub owner_lem :
      (laws : Laws redis) (l : Lock) (s : S)
      → 0 < l.expiration
      → redis.get l.key s ≡ some l.value
      → ((refresh redis answered l s).0 ≡ none)
        × (redis.get l.key (refresh redis answered l s).1 ≡ some l.value)
        × ((unlock redis answered l s).0 ≡ none)
        × (redis.get l.key (unlock redis answered l s).2 ≡ none)
  owner_lem laws l s p h =
      rw (refresh_held_at laws l s h, unlock_held_at laws l s h)
        (refl, laws.get-expire l.key l.value l.expiration s p h, refl, laws.get-del l.key s)

  unlock_on_other :
      (k v : Text) (s : S) (o : Option Text) → o ≢ some v → unlock_on redis o k v s ≡ (ok 0, s)
  unlock_on_other k v s none d = refl
  unlock_on_other k v s (some u) d = if_neg (text_discrete u v) (λ p. d (ap some p)) _ _

  refresh_on_other :
      (k v : Text) (n : ℕ) (s : S) (o : Option Text)
      → o ≢ some v
      → refresh_on redis o k v n s ≡ (ok 0, s)
  refresh_on_other k v n s none d = refl
  refresh_on_other k v n s (some u) d = if_neg (text_discrete u v) (λ p. d (ap some p)) _ _

  -- Whoever does not hold the key is told so by an answered `Unlock` and by an answered
  -- `Refresh`, and neither changes anything in Redis.
  pub not_owner_lem :
      (l : Lock) (s : S)
      → redis.get l.key s ≢ some l.value
      → (unlock redis answered l s ≡ (some lock_not_hold, record l { unlock_ch = true }, s))
        × (refresh redis answered l s ≡ (some lock_not_hold, s))
  unfolding unlock refresh lua_unlock lua_refresh
  not_owner_lem l s d = (
    ap (unlocked redis l) (unlock_on_other l.key l.value s (redis.get l.key s) d),
    ap (refreshed redis) (refresh_on_other l.key l.value l.expiration s (redis.get l.key s) d),
  )

  pub try_lock_free :
      (laws : Laws redis) (k v : Text) (n : ℕ) (s : S)
      → redis.get k s ≡ none
      → try_lock redis answered k v n s ≡ (ok (new_lock k v 0), (redis.set_nx k v n s).1)
  unfolding try_lock
  try_lock_free laws k v n s h = at_reply (redis.set_nx k v n s) (laws.set_nx_free k v n s h).0
    where
      at_reply :
          (r : Bool × S)
          → r.0 ≡ true
          → tried redis k v (set_nx_ran redis r) ≡ (ok (new_lock k v 0), r.1)
      at_reply (true, t) e = refl
      at_reply (false, t) e = cc

  -- An answered `TryLock` gets a free key, whatever the time asked for; but its lock has no time,
  -- so the first answered `Refresh` of it reports success and the key is free again.
  pub refresh-try_lock :
      (laws : Laws redis) (key value : Text) (seconds : ℕ) (s : S)
      → redis.get key s ≡ none
      → ((try_lock redis answered key value seconds s).0 ≡ ok (new_lock key value 0))
        × (redis.get key (try_lock redis answered key value seconds s).1 ≡ some value)
        × ((refresh redis answered
              (new_lock key value 0)
              (try_lock redis answered key value seconds s).1).0
            ≡ none)
        × (redis.get key
              (refresh redis answered
                (new_lock key value 0)
                (try_lock redis answered key value seconds s).1).1
            ≡ none)
  refresh-try_lock laws key value seconds s h =
      let held = (laws.set_nx_free key value seconds s h).1 in
      rw
        (
          try_lock_free laws key value seconds s h,
          refresh_held_at laws (new_lock key value 0) (redis.set_nx key value seconds s).1 held,
        )
        (refl, held, refl, laws.get-expire_now key (redis.set_nx key value seconds s).1)
