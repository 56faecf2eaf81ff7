-- ===== src/Micro/Pool/Creation.antt =====
-- `NewPool`: how many connections it makes, and when it ends.
use gotest.Common.{
  ℕ, zero, suc, ◌+◌, ◌≤◌, ◌<◌, ◌≡◌, refl, sym, ◌∙◌, ap, Option, some, List, [], ◌∷◌, ◌++◌,
  append-nil, append_assoc, Bool-cases, inl, inr, Bool, true, false, leb, if◌then◌else◌, length,
  length-append, arith,
}
use gotest.Micro.Pool.{Pool, Created, empty_pool, has_room, send_idle, send_made, fill, new_pool}

module _ {C : Type 0} where
  room : (p : Pool C) → has_room p ≡ true → length p.idle_conn < p.max_idle_cnt
  room p h = ground (arith, h)

  no_room : (p : Pool C) → has_room p ≡ false → p.max_idle_cnt ≤ length p.idle_conn
  no_room p h = ground (arith, h)

module _ {C : Type 0} (factory : ℕ → C) (clock : ℕ → ℕ) where
  abbrev always : ℕ → Option C
  always i = some (factory i)

  -- The connections of calls `i`, `i + 1`, …, with their times.
  unfoldable pub made : (i n : ℕ) → List (C × ℕ)
  made i zero = []
  made i (suc n) = (factory i, clock i) ∷ made (i + 1) n

  fill_blocked : (i n : ℕ) → fill always clock i n Created.blocked ≡ Created.blocked
  unfolding fill
  fill_blocked i zero = refl
  fill_blocked i (suc n) = fill_blocked (i + 1) n

  send_fits :
      (c : C) (now : ℕ) (p : Pool C)
      → length p.idle_conn < p.max_idle_cnt
      → send_made (some c) now p ≡ Created.pool (send_idle c now p)
  send_fits c now p h = ground (arith, h)

  send_full :
      (c : C) (now : ℕ) (p : Pool C)
      → p.max_idle_cnt ≤ length p.idle_conn
      → send_made (some c) now p ≡ Created.blocked
  send_full c now p h = ground (arith, h)

  fill_fits :
      (i n : ℕ) (p : Pool C)
      → length p.idle_conn + n ≤ p.max_idle_cnt
      → fill always clock i n (Created.pool p)
        ≡ Created.pool (record p { idle_conn = p.idle_conn ++ made i n })
  unfolding fill made
  fill_fits i zero p h =
      ap (λ xs. Created.pool (record p { idle_conn = xs })) (sym (append-nil p.idle_conn))
  fill_fits i (suc n) p h =
      ap (fill always clock (i + 1) n) (send_fits (factory i) (clock i) p (omega (arith, h)))
      ∙ (fill_fits (i + 1) n (send_idle (factory i) (clock i) p)
            (omega (arith, h, length-append p.idle_conn ((factory i, clock i) ∷ [])))
          ∙ ap (λ xs. Created.pool (record p { idle_conn = xs }))
              (append_assoc p.idle_conn ((factory i, clock i) ∷ []) (made (i + 1) n)))

  fill_full :
      (i n : ℕ) (p : Pool C)
      → p.max_idle_cnt < length p.idle_conn + n
      → length p.idle_conn ≤ p.max_idle_cnt
      → fill always clock i n (Created.pool p) ≡ Created.blocked
  unfolding fill
  fill_full i zero p h k = absurd (omega (arith, h, k))
  fill_full i (suc n) p h k = elim (Bool-cases (has_room p)) [
    | inl g ↦
        ap (fill always clock (i + 1) n) (send_fits (factory i) (clock i) p (room p g))
        ∙ fill_full (i + 1) n (send_idle (factory i) (clock i) p)
            (omega (arith, h, length-append p.idle_conn ((factory i, clock i) ∷ [])))
            (omega (arith, room p g, length-append p.idle_conn ((factory i, clock i) ∷ [])))
    | inr g ↦
        ap (fill always clock (i + 1) n) (send_full (factory i) (clock i) p (no_room p g))
        ∙ fill_blocked (i + 1) n
  ]

  -- `NewPool` with a factory that never fails makes as many idle connections as it is asked for,
  -- uncounted, when the idle queue has room for them; otherwise it waits for ever.
  pub new_pool_lem :
      (max_cnt max_idle_cnt init_cnt expiration : ℕ)
      → new_pool max_cnt max_idle_cnt init_cnt expiration always clock ≡ (
          if leb init_cnt max_idle_cnt
          then Created.pool
              (record (empty_pool max_cnt max_idle_cnt expiration) { idle_conn = made 0 init_cnt })
          else Created.blocked)
  unfolding new_pool
  new_pool_lem max_cnt max_idle_cnt init_cnt expiration = at_case (leb init_cnt max_idle_cnt) refl
    where
      at_case :
          (x : Bool)
          → leb init_cnt max_idle_cnt ≡ x
          → fill always clock 0 init_cnt (Created.pool (empty_pool max_cnt max_idle_cnt expiration))
            ≡ (if x
                then Created.pool (record (empty_pool max_cnt max_idle_cnt expiration) {
                  idle_conn = made 0 init_cnt;
                })
                else Created.blocked)
      at_case true h =
          fill_fits 0 init_cnt (empty_pool max_cnt max_idle_cnt expiration) (ground (arith, h))
      at_case false h =
          fill_full 0 init_cnt (empty_pool max_cnt max_idle_cnt expiration) (ground (arith, h))
            (omega arith)
