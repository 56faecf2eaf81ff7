-- ===== src/Micro/Pool/Reachable.antt =====
-- The states of the pool that `NewPool` and uninterrupted calls of `Get` and `Put` lead to.
use gotest.Common.{
  ℕ, zero, suc, ◌+◌, ◌≡◌, refl, subst, Option, none, some, [], ◌∷◌, length-append, Bool, true,
  false, inl, if◌then◌else◌, arith,
}
use gotest.Micro.Pool.{
  Pool, Created, empty_pool, has_room, send_idle, next_made, fill, new_pool, get, put,
}
use gotest.Micro.Pool.Limits.{IsWithin, get-IsWithin, put-IsWithin}

module _ {C : Type 0} where
  pub data Reached (max_cnt max_idle_cnt init_cnt expiration : ℕ) (factory : ℕ → Option C)
      (clock : ℕ → ℕ) : Pool C → Type 0 where
    starts :
        {p : Pool C}
        → new_pool max_cnt max_idle_cnt init_cnt expiration factory clock ≡ Created.pool p
        → Reached max_cnt max_idle_cnt init_cnt expiration factory clock p
    gets :
        {p : Pool C} (now : ℕ) (made : Option C)
        → Reached max_cnt max_idle_cnt init_cnt expiration factory clock p
        → Reached max_cnt max_idle_cnt init_cnt expiration factory clock (get now made p).1
    puts :
        {p : Pool C} (now : ℕ) (c : C)
        → Reached max_cnt max_idle_cnt init_cnt expiration factory clock p
        → Reached max_cnt max_idle_cnt init_cnt expiration factory clock (put now c p).1

  -- A pool that is still being made has no requests.
  abbrev IsMaking : Created C → Type 0
  IsMaking (Created.pool p) = IsWithin p × (p.conn_req ≡ [])
  IsMaking Created.failed = Unit
  IsMaking Created.blocked = Unit

  room_for_more :
      (p : Pool C) (c : C) (now : ℕ) (b : Bool)
      → has_room p ≡ b
      → IsWithin p × (p.conn_req ≡ [])
      → IsMaking (if b then Created.pool (send_idle c now p) else Created.blocked)
  room_for_more p c now true e h = (
    record {
      counted = h.0.counted;
      idle = ground (arith, e, length-append p.idle_conn ((c, now) ∷ []));
      waits = inl h.1;
    },
    h.1,
  )
  room_for_more p c now false e h = tt

  next_made-IsMaking :
      (o : Option C) (now : ℕ) (r : Created C) → IsMaking r → IsMaking (next_made o now r)
  next_made-IsMaking none now (Created.pool p) h = tt
  next_made-IsMaking (some c) now (Created.pool p) h = room_for_more p c now (has_room p) refl h
  next_made-IsMaking o now Created.failed h = tt
  next_made-IsMaking o now Created.blocked h = tt

  fill-IsMaking :
      (factory : ℕ → Option C) (clock : ℕ → ℕ) (i n : ℕ) (r : Created C)
      → IsMaking r
      → IsMaking (fill factory clock i n r)
  unfolding fill
  fill-IsMaking factory clock i zero r h = h
  fill-IsMaking factory clock i (suc n) r h =
      fill-IsMaking factory clock (i + 1) n (next_made (factory i) (clock i) r)
        (next_made-IsMaking (factory i) (clock i) r h)

  new_pool-IsMaking :
      (max_cnt max_idle_cnt init_cnt expiration : ℕ) (factory : ℕ → Option C) (clock : ℕ → ℕ)
      → IsMaking (new_pool max_cnt max_idle_cnt init_cnt expiration factory clock)
  unfolding new_pool
  new_pool-IsMaking max_cnt max_idle_cnt init_cnt expiration factory clock =
      fill-IsMaking factory clock 0 init_cnt
        (Created.pool (empty_pool max_cnt max_idle_cnt expiration))
        (record { counted = omega arith; idle = omega arith; waits = inl refl }, refl)

  -- In every pool that `NewPool` makes and that any uninterrupted calls of `Get` and `Put` lead to,
  -- also with a factory that fails, the counted and the idle connections are within their limits,
  -- and where a request waits no connection is idle and the count is at its limit.
  pub Reached-IsWithin :
      (max_cnt max_idle_cnt init_cnt expiration : ℕ) (factory : ℕ → Option C) (clock : ℕ → ℕ)
      → (p : Pool C) → Reached max_cnt max_idle_cnt init_cnt expiration factory clock p
      → IsWithin p
  Reached-IsWithin m n i e factory clock p (starts s) =
      (subst IsMaking s (new_pool-IsMaking m n i e factory clock)).0
  Reached-IsWithin m n i e factory clock _ (gets {p = p} now made r) =
      get-IsWithin now made p (Reached-IsWithin m n i e factory clock p r)
  Reached-IsWithin m n i e factory clock _ (puts {p = p} now c r) =
      put-IsWithin now c p (Reached-IsWithin m n i e factory clock p r)
