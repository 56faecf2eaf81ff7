-- ===== src/Cache/MaxCount/Reachable.antt =====
-- The states of a `MaxCntCache`, and what `Set` answers in them.
use gotest.Common.{
  ℕ, ◌+◌, ◌^◌, ◌<◌, ◌≡◌, refl, sym, ◌∙◌, ap, subst, Option, none, some, List, [], Bool, true, false,
  ltb, if◌then◌else◌, length, arith,
}
use gotest.Common.Text.{Text, text_discrete}
use gotest.Common.Dict
use gotest.Common.Dict.{HasDistinctKeys}
use gotest.Cache.Local.{BuildInMapCache, Item, Reply, deadline, get, remove, poll}
use gotest.Cache.Local
use gotest.Cache.MaxCount.{
  MaxCntCache, add_int32, gt_int32, new_max_cnt_cache, set, set_found, lift,
}
use gotest.Cache.MaxCount.Counting.{
  IsCounted, get_case, remove_case, poll-IsCounted, set_old, set_new, is_full,
}

-- One operation of a cache: `Set`, `Get`, `Delete`, or a tick of the polling goroutine.
pub data Operation (V : Type 0) : Type 0 where
  do_set : (now : ℕ) → Text → V → (expiration : ℕ) → Operation V
  do_get : (now : ℕ) → Text → Operation V
  do_remove : Text → Operation V
  do_poll : (t : ℕ) → List Text → Operation V

above : (n max : ℕ) → n ≡ max → ltb max (n + 1) ≡ true
above n max h = ground arith

not_above : (n max : ℕ) → n < max → ltb max (n + 1) ≡ false
not_above n max h = ground arith

module _ {V S : Type 0} where
  unfoldable pub step : Operation V → MaxCntCache V S → Reply V × MaxCntCache V S
  step (do_set now key val expiration) m = set now key val expiration m
  step (do_get now key) m = lift (get now key m.cache) m
  step (do_remove key) m = lift (remove key m.cache) m
  step (do_poll t keys) m = (Reply.stored, record m { cache = poll t 0 keys m.cache })

  -- The states that operations reach from a new cache over an empty map.
  pub data Reached (b : BuildInMapCache V S) (max : ℕ) : MaxCntCache V S → Type 0 where
    created : Reached b max (new_max_cnt_cache b max)
    stepped :
        {m : MaxCntCache V S} → (o : Operation V) → Reached b max m → Reached b max (step o m).1

  set_absent :
      (now : ℕ) (key : Text) (val : V) (expiration : ℕ) (m : MaxCntCache V S) (full : Bool)
      → Dict.get text_discrete key m.cache.entries ≡ none
      → IsCounted m.max_cnt m.cache
      → gt_int32 (add_int32 m.cache.seen.0 1) m.max_cnt ≡ full
      → ltb m.max_cnt (length m.cache.entries + 1) ≡ full
      → IsCounted m.max_cnt (set_found none now key val expiration m).1.cache
  set_absent now key val expiration m true e h f k = rw f h
  set_absent now key val expiration m false e h f k =
      rw f (set_new now key val expiration m.max_cnt m.cache e (ground arith) h)

  set_case :
      (now : ℕ) (key : Text) (val : V) (expiration : ℕ) (m : MaxCntCache V S) (o : Option (Item V))
      → Dict.get text_discrete key m.cache.entries ≡ o
      → IsCounted m.max_cnt m.cache
      → IsCounted m.max_cnt (set_found o now key val expiration m).1.cache
  set_case now key val expiration m (some i) e h =
      set_old now key val expiration m.max_cnt m.cache i e h
  set_case now key val expiration m none e h =
      set_absent now key val expiration m _ e h (is_full m.max_cnt m.cache h) refl

  choose_max :
      (full : Bool) (r r' : Reply V) (m m' : MaxCntCache V S)
      → m'.max_cnt ≡ m.max_cnt
      → (if◌then◌else◌ {A = Reply V × MaxCntCache V S} full (r, m) (r', m')).1.max_cnt ≡ m.max_cnt
  choose_max true r r' m m' h = refl
  choose_max false r r' m m' h = h

  set-max_cnt :
      (now : ℕ) (key : Text) (val : V) (expiration : ℕ) (m : MaxCntCache V S) (o : Option (Item V))
      → (set_found o now key val expiration m).1.max_cnt ≡ m.max_cnt
  set-max_cnt now key val expiration m (some i) = refl
  set-max_cnt now key val expiration m none =
      choose_max (gt_int32 (add_int32 m.cache.seen.0 1) m.max_cnt) Reply.no_capacity Reply.stored m
        _ refl

  step-max_cnt : (o : Operation V) (m : MaxCntCache V S) → (step o m).1.max_cnt ≡ m.max_cnt
  unfolding step set
  step-max_cnt (do_set now key val expiration) m =
      set-max_cnt now key val expiration m (Dict.get text_discrete key m.cache.entries)
  step-max_cnt (do_get now key) m = refl
  step-max_cnt (do_remove key) m = refl
  step-max_cnt (do_poll t keys) m = refl

  step-IsCounted :
      (o : Operation V) (m : MaxCntCache V S)
      → IsCounted m.max_cnt m.cache
      → IsCounted m.max_cnt (step o m).1.cache
  unfolding step set get remove
  step-IsCounted (do_set now key val expiration) m h =
      set_case now key val expiration m (Dict.get text_discrete key m.cache.entries) refl h
  step-IsCounted (do_get now key) m h =
      get_case m.max_cnt now key (Dict.get text_discrete key m.cache.entries) m.cache h
  step-IsCounted (do_remove key) m h =
      remove_case m.max_cnt key (Dict.get text_discrete key m.cache.entries) m.cache h
  step-IsCounted (do_poll t keys) m h = poll-IsCounted m.max_cnt t 0 keys m.cache h

  -- In every state that operations reach from a new cache over an empty map, with a limit below the
  -- last `int32`, the keys are distinct, the count is their number, and it is at most the limit.
  pub Reached-IsCounted :
      (b : BuildInMapCache V S) (max : ℕ) (m : MaxCntCache V S)
      → b.entries ≡ []
      → max + 1 < 2 ^ 31
      → Reached b max m
      → (m.max_cnt ≡ max) × IsCounted max m.cache
  unfolding new_max_cnt_cache
  Reached-IsCounted b max m e f created = (
    refl,
    record {
      distinct = subst HasDistinctKeys (sym e) tt;
      counted = sym (ap length e);
      bounded = rw e (omega arith);
      fits = f;
      callback = λ key val s. refl;
    },
  )
  Reached-IsCounted b max m' e f (stepped {m} o r) =
      let (same, h) = Reached-IsCounted b max m e f r in
      (
        step-max_cnt o m ∙ same,
        subst (λ n. IsCounted n (step o m).1.cache) same
            (step-IsCounted o m (subst (λ n. IsCounted n m.cache) (sym same) h)),
      )

  -- Where the count is right, `Set` of a new key in a cache that holds as many keys as the limit
  -- allows is refused, and changes nothing.
  pub set_refused :
      (now : ℕ) (key : Text) (val : V) (expiration : ℕ) (m : MaxCntCache V S)
      → IsCounted m.max_cnt m.cache
      → Dict.get text_discrete key m.cache.entries ≡ none
      → length m.cache.entries ≡ m.max_cnt
      → set now key val expiration m ≡ (Reply.no_capacity, m)
  unfolding set
  set_refused now key val expiration m h e l =
      rw (e, is_full m.max_cnt m.cache h, above (length m.cache.entries) m.max_cnt l) refl

  set_at :
      (now : ℕ) (key : Text) (val : V) (expiration : ℕ) (m : MaxCntCache V S) (o : Option (Item V))
      → IsCounted m.max_cnt m.cache
      → Dict.get text_discrete key m.cache.entries ≡ o
      → (o ≡ none → length m.cache.entries < m.max_cnt)
      → ((set_found o now key val expiration m).0 ≡ Reply.stored)
        × (Dict.get text_discrete key (set_found o now key val expiration m).1.cache.entries
            ≡ some (record { val = val; expiration = deadline now expiration }))
  unfolding Local.set
  set_at now key val expiration m (some i) h e l =
      (refl, Dict.get-put_self text_discrete key _ m.cache.entries)
  set_at now key val expiration m none h e l =
      rw (is_full m.max_cnt m.cache h, not_above (length m.cache.entries) m.max_cnt (l refl))
        (refl, Dict.get-put_self text_discrete key _ m.cache.entries)

  -- Where the count is right, `Set` of a key that is there, or of a new one in a cache below the
  -- limit, is stored, and the key then has the new item.
  pub set_stored :
      (now : ℕ) (key : Text) (val : V) (expiration : ℕ) (m : MaxCntCache V S)
      → IsCounted m.max_cnt m.cache
      → (Dict.get text_discrete key m.cache.entries ≡ none → length m.cache.entries < m.max_cnt)
      → ((set now key val expiration m).0 ≡ Reply.stored)
        × (Dict.get text_discrete key (set now key val expiration m).1.cache.entries
            ≡ some (record { val = val; expiration = deadline now expiration }))
  unfolding set
  set_stored now key val expiration m h l =
      set_at now key val expiration m (Dict.get text_discrete key m.cache.entries) h refl l
