-- ===== src/Micro/Pool/Limits.antt =====
-- The limits of the pool in every state that uninterrupted operations reach.
use gotest.Common.{
  ℕ, ◌+◌, ◌≤◌, ◌≡◌, refl, sym, ◌∙◌, ap, Option, none, some, List, [], ◌∷◌, Bool, true, false, ltb,
  leb, if◌then◌else◌, length, length-append, ◌⊎◌, inl, inr, arith,
}
use gotest.Micro.Pool.{Pool, Reply, has_room, enter, get, get_at, put, put_at, open_conn}

module _ {C : Type 0} where
  -- The counted connections and the idle ones are within their limits; and where a request waits, no
  -- connection is idle and the count is at its limit.
  pub record IsWithin (p : Pool C) : Type 0 where
    pub counted : p.cnt ≤ p.max_cnt
    pub idle : length p.idle_conn ≤ p.max_idle_cnt
    pub waits : (p.conn_req ≡ []) ⊎ ((p.idle_conn ≡ []) × (p.cnt ≡ p.max_cnt))

  if_IsWithin :
      (b : Bool) (x y : Reply C × Pool C)
      → (b ≡ true → IsWithin x.1)
      → (b ≡ false → IsWithin y.1)
      → IsWithin (if◌then◌else◌ {A = Reply C × Pool C} b x y).1
  if_IsWithin true x y h k = h refl
  if_IsWithin false x y h k = k refl

  if_pool :
      (b : Bool) (p q : Pool C)
      → (b ≡ true → IsWithin p)
      → (b ≡ false → IsWithin q)
      → IsWithin (if b then p else q)
  if_pool true p q h k = h refl
  if_pool false p q h k = k refl

  open-IsWithin :
      (made : Option C) (p : Pool C)
      → leb p.max_cnt p.cnt ≡ false
      → IsWithin p
      → IsWithin (open_conn made p).1
  open-IsWithin none p e h = record { counted = h.counted; idle = h.idle; waits = h.waits }
  open-IsWithin (some c) p e h = record {
    counted = ground (arith, e);
    idle = h.idle;
    waits = elim h.waits [ inl w ↦ inl w | inr w ↦ absurd (ground (arith, e, w.1)) ];
  }

  enter-IsWithin :
      (made : Option C) (p : Pool C) → p.idle_conn ≡ [] → IsWithin p → IsWithin (enter made p).1
  unfolding enter
  enter-IsWithin made p n h =
      if_IsWithin p.locked _ _ (λ l. h)
        (λ l.
          if_IsWithin (leb p.max_cnt p.cnt) _ _
            (λ e. record {
              counted = h.counted;
              idle = h.idle;
              waits = inr (n, full p e h.counted);
            })
            (λ e. open-IsWithin made p e h))
    where
      full : (p : Pool C) → leb p.max_cnt p.cnt ≡ true → p.cnt ≤ p.max_cnt → p.cnt ≡ p.max_cnt
      full p e h = ground (arith, e, h)

  get_case :
      (now : ℕ) (made : Option C) (idle : List (C × ℕ)) (p : Pool C)
      → p.idle_conn ≡ idle
      → IsWithin p
      → IsWithin (get_at now made idle p).1
  get_case now made [] p e h = enter-IsWithin made p e h
  get_case now made ((c, t) ∷ rest) p e h =
      let fewer : length rest ≤ p.max_idle_cnt = omega (arith, ap length e, h.idle) in
      let free : p.conn_req ≡ [] = elim h.waits [
        | inl w ↦ w
        | inr w ↦ absurd (cons_ne (sym e ∙ w.0))
      ] in
      if_pool (ltb (t + p.expiration) now) _ _
        (λ x. record { counted = h.counted; idle = fewer; waits = inl free })
        (λ x. record { counted = h.counted; idle = fewer; waits = inl free })
    where
      cons_ne : {x : C × ℕ} {xs : List (C × ℕ)} → ¬ (x ∷ xs ≡ [])
      cons_ne e = cc

  put_case :
      (now : ℕ) (c : C) (reqs : List ℕ) (p : Pool C)
      → p.conn_req ≡ reqs
      → IsWithin p
      → IsWithin (put_at now c reqs p)
  put_case now c [] p e h =
      if_pool (has_room p) _ _
        (λ x. record {
          counted = h.counted;
          idle = ground (arith, x, length-append p.idle_conn ((c, now) ∷ []));
          waits = inl e;
        })
        (λ x. record { counted = h.counted; idle = h.idle; waits = h.waits })
  put_case now c (req ∷ reqs) p e h = record {
    counted = h.counted;
    idle = h.idle;
    waits = elim h.waits [ inl w ↦ inl (absurd (cons_ne (sym e ∙ w))) | inr w ↦ inr w ];
  }
    where
      cons_ne : {x : ℕ} {xs : List ℕ} → ¬ (x ∷ xs ≡ [])
      cons_ne e = cc

  -- A `Get` that nothing interrupts keeps the pool within its limits: the count and the idle
  -- connections, and no idle connection where a request waits.
  pub get-IsWithin :
      (now : ℕ) (made : Option C) (p : Pool C) → IsWithin p → IsWithin (get now made p).1
  unfolding get
  get-IsWithin now made p h = get_case now made p.idle_conn p refl h

  -- A `Put` keeps the pool within its limits: the count and the idle connections, and no idle
  -- connection where a request waits.
  pub put-IsWithin : (now : ℕ) (c : C) (p : Pool C) → IsWithin p → IsWithin (put now c p).1
  unfolding put
  put-IsWithin now c p h =
      if_IsWithin p.locked _ _ (λ l. h) (λ l. put_case now c p.conn_req p refl h)
