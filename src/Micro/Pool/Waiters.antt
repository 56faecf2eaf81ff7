-- ===== src/Micro/Pool/Waiters.antt =====
-- The requests that wait for a connection.
use gotest.Common.{
  ℕ, ◌≤◌, ◌<◌, ◌≡◌, refl, sym, ◌∙◌, ap, Option, none, List, [], ◌∷◌, ◌++◌, append-nil, append_assoc,
  true, false, leb, length, drop, arith,
}
use gotest.Micro.Pool.{Pool, Reply, has_room, enter, get, put}

module _ {C : Type 0} where
  has_no_room : (p : Pool C) → p.idle_conn ≡ [] → p.max_idle_cnt ≡ 0 → has_room p ≡ false
  has_no_room p h k = rw (h, k) refl

  has_some_room : (p : Pool C) → p.idle_conn ≡ [] → 0 < p.max_idle_cnt → has_room p ≡ true
  has_some_room p h k = rw h (ground (arith, k))

  at_limit : (p : Pool C) → p.cnt ≡ p.max_cnt → leb p.max_cnt p.cnt ≡ true
  at_limit p h = ground (arith, h)

  below_limit : (p : Pool C) → p.cnt < p.max_cnt → leb p.max_cnt p.cnt ≡ false
  below_limit p h = ground (arith, h)

  -- Connections returned one after another.
  unfoldable pub put_all : (now : ℕ) → List C → Pool C → Pool C
  put_all now [] p = p
  put_all now (c ∷ cs) p = put_all now cs (put now c p).1

  unfoldable pub zip : List ℕ → List C → List (ℕ × C)
  zip rs [] = []
  zip [] (c ∷ cs) = []
  zip (r ∷ rs) (c ∷ cs) = (r, c) ∷ zip rs cs

  put_waiting :
      (now : ℕ) (c : C) (p : Pool C) (r : ℕ) (rs : List ℕ)
      → p.locked ≡ false
      → p.conn_req ≡ r ∷ rs
      → (put now c p).1 ≡ record p { conn_req = rs; delivered = p.delivered ++ (r, c) ∷ [] }
  unfolding put
  put_waiting now c p r rs l e = rw (l, e) refl

  -- Connections returned to a pool that is not locked, and where at least as many requests wait, go
  -- to the oldest requests in the order in which these began to wait.
  pub put_all-zip :
      (now : ℕ) (cs : List C) (p : Pool C) (rs : List ℕ)
      → p.locked ≡ false
      → p.conn_req ≡ rs
      → length cs ≤ length rs
      → put_all now cs p
        ≡ record p { conn_req = drop (length cs) rs; delivered = p.delivered ++ zip rs cs }
  unfolding put_all zip
  put_all-zip now [] p rs l e h =
      ap (λ xs. record p { conn_req = xs }) e
      ∙ ap (λ xs. record p { conn_req = rs; delivered = xs }) (sym (append-nil p.delivered))
  put_all-zip now (c ∷ cs) p [] l e h = absurd (omega (arith, h))
  put_all-zip now (c ∷ cs) p (r ∷ rs) l e h =
      ap (put_all now cs) (put_waiting now c p r rs l e)
      ∙ (put_all-zip now cs (record p { conn_req = rs; delivered = p.delivered ++ (r, c) ∷ [] }) rs
            l refl (omega (arith, h))
          ∙ ap (λ xs. record p { conn_req = drop (length cs) rs; delivered = xs })
              (append_assoc p.delivered ((r, c) ∷ []) (zip rs cs)))

  put_closes :
      (now : ℕ) (c : C) (p : Pool C)
      → p.locked ≡ false
      → p.conn_req ≡ []
      → p.idle_conn ≡ []
      → p.max_idle_cnt ≡ 0
      → (put now c p).1 ≡ record p { closed = p.closed ++ c ∷ [] }
  unfolding put
  put_closes now c p l e i z = rw (l, e, has_no_room p i z) refl

  put_all_closes :
      (now : ℕ) (cs : List C) (p : Pool C)
      → p.locked ≡ false
      → p.conn_req ≡ []
      → p.idle_conn ≡ []
      → p.max_idle_cnt ≡ 0
      → put_all now cs p ≡ record p { closed = p.closed ++ cs }
  unfolding put_all
  put_all_closes now [] p l e i z = ap (λ xs. record p { closed = xs }) (sym (append-nil p.closed))
  put_all_closes now (c ∷ cs) p l e i z =
      ap (put_all now cs) (put_closes now c p l e i z)
      ∙ (put_all_closes now cs (record p { closed = p.closed ++ c ∷ [] }) l e i z
          ∙ ap (λ xs. record p { closed = xs }) (append_assoc p.closed (c ∷ []) cs))

  -- Where no idle connection may be kept and nobody waits, any connections that are returned are all
  -- closed, but the count stays what it was: at the limit a `Get` after that opens none, and answers
  -- that it waits, however many have been closed.
  pub get-put_closed :
      (now now' : ℕ) (cs : List C) (made : Option C) (p : Pool C)
      → p.locked ≡ false
      → p.conn_req ≡ []
      → p.idle_conn ≡ []
      → p.max_idle_cnt ≡ 0
      → p.cnt ≡ p.max_cnt
      → ((put_all now cs p).closed ≡ p.closed ++ cs)
        × ((put_all now cs p).cnt ≡ p.cnt)
        × ((get now' made (put_all now cs p)).0 ≡ Reply.waiting p.next_req)
  unfolding get enter
  get-put_closed now now' cs made p l e i z k =
      rw (put_all_closes now cs p l e i z, l, i, at_limit p k) (refl, refl, refl)

  -- A connection that comes back between the two steps of a `Get` at the limit goes to the idle
  -- queue, and the `Get` waits beside it.
  pub enter-put :
      (now : ℕ) (c : C) (made : Option C) (p : Pool C)
      → p.locked ≡ false
      → p.conn_req ≡ []
      → p.idle_conn ≡ []
      → 0 < p.max_idle_cnt
      → p.cnt ≡ p.max_cnt
      → ((enter made (put now c p).1).0 ≡ Reply.waiting p.next_req)
        × ((enter made (put now c p).1).1.idle_conn ≡ (c, now) ∷ [])
  unfolding put enter
  enter-put now c made p l e i z k = rw (l, e, has_some_room p i z, i, at_limit p k) (refl, refl)

  -- Below the limit of a pool that is not locked, an error of the factory leaves the lock taken: a
  -- `Put`, and a `Get` that finds no idle connection, are then blocked.
  pub factory_error_locks :
      (now : ℕ) (c : C) (made : Option C) (p : Pool C)
      → p.locked ≡ false
      → p.cnt < p.max_cnt
      → ((enter none p).0 ≡ Reply.factory_error)
        × ((put now c (enter none p).1).0 ≡ Reply.blocked)
        × ((enter made (enter none p).1).0 ≡ Reply.blocked)
  unfolding put enter
  factory_error_locks now c made p l k = rw (l, below_limit p k) (refl, refl, refl)
