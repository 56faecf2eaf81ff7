-- ===== src/Micro/Pool.antt =====
-- net/pool.go: the pool of connections. A `Get` is two steps, since it looks into the idle queue
-- before it takes the lock.
pub mod Creation
pub mod Limits
pub mod Reachable
pub mod Waiters
mod Tests
use gotest.Common.{
  ℕ, zero, suc, ◌+◌, ◌≡◌, Option, none, some, List, [], ◌∷◌, ◌++◌, Bool, true, false, ltb, leb,
  if◌then◌else◌, length,
}

-- `type Pool struct`. A request of `connReq` is the number of its channel, and `delivered` is what
-- the channels hold; `closed` are the connections that the pool has closed.
pub record Pool (C : Type 0) : Type 0 where
  pub max_cnt : ℕ
  pub cnt : ℕ
  pub max_idle_cnt : ℕ
  pub expiration : ℕ
  pub locked : Bool
  pub conn_req : List ℕ
  pub next_req : ℕ
  pub delivered : List (ℕ × C)
  pub idle_conn : List (C × ℕ)
  pub closed : List C

-- What `NewPool` comes to: it may wait for ever for room in the idle queue.
pub data Created (C : Type 0) : Type 0 where
  pool : Pool C → Created C
  failed blocked : Created C

-- What a step comes to: a connection, a channel to wait at, or the factory's error; `blocked` waits
-- for the lock, and `returned` is the end of a `Put`.
pub data Reply (C : Type 0) : Type 0 where
  conn : C → Reply C
  waiting : ℕ → Reply C
  factory_error blocked returned : Reply C

module _ {C : Type 0} where
  abbrev pub empty_pool : (max_cnt max_idle_cnt expiration : ℕ) → Pool C
  empty_pool max_cnt max_idle_cnt expiration = record {
    max_cnt = max_cnt;
    cnt = 0;
    max_idle_cnt = max_idle_cnt;
    expiration = expiration;
    locked = false;
    conn_req = [];
    next_req = 0;
    delivered = [];
    idle_conn = [];
    closed = [];
  }

  -- `ch <- x` on the idle queue, if there is room
  abbrev pub has_room : Pool C → Bool
  has_room p = ltb (length p.idle_conn) p.max_idle_cnt

  abbrev pub send_idle : C → ℕ → Pool C → Pool C
  send_idle c now p = record p { idle_conn = p.idle_conn ++ (c, now) ∷ [] }

  abbrev pub send_made : Option C → ℕ → Pool C → Created C
  send_made none now p = Created.failed
  send_made (some c) now p =
      if has_room p then Created.pool (send_idle c now p) else Created.blocked

  abbrev pub next_made : Option C → ℕ → Created C → Created C
  next_made o now (Created.pool p) = send_made o now p
  next_made o now Created.failed = Created.failed
  next_made o now Created.blocked = Created.blocked

  -- The loop of `NewPool`, behind what its earlier rounds came to: `factory i` is what call `i` of
  -- the factory returns, and `clock i` the time of that call.
  unfoldable pub fill : (factory : ℕ → Option C) (clock : ℕ → ℕ) (i n : ℕ) → Created C → Created C
  fill factory clock i zero r = r
  fill factory clock i (suc n) r = fill factory clock (i + 1) n (next_made (factory i) (clock i) r)

  unfoldable pub new_pool :
      (max_cnt max_idle_cnt init_cnt expiration : ℕ) (factory : ℕ → Option C) (clock : ℕ → ℕ)
      → Created C
  new_pool max_cnt max_idle_cnt init_cnt expiration factory clock =
      fill factory clock 0 init_cnt (Created.pool (empty_pool max_cnt max_idle_cnt expiration))

  -- `Get` where the idle queue has a connection: it is closed when it is too old, and returned.
  abbrev pub close_old : (now : ℕ) → C → ℕ → Pool C → Pool C
  close_old now c back_time p =
      if ltb (back_time + p.expiration) now then record p { closed = p.closed ++ c ∷ [] } else p

  abbrev pub take_idle : (now : ℕ) → C → ℕ → List (C × ℕ) → Pool C → Reply C × Pool C
  take_idle now c back_time rest p =
      (Reply.conn c, close_old now c back_time (record p { idle_conn = rest }))

  -- `p.factory()` under the lock, which an error leaves locked.
  abbrev pub open_conn : Option C → Pool C → Reply C × Pool C
  open_conn none p = (Reply.factory_error, record p { locked = true })
  open_conn (some c) p = (Reply.conn c, record p { cnt = p.cnt + 1 })

  abbrev pub wait : Pool C → Reply C × Pool C
  wait p = (
    Reply.waiting p.next_req,
    record p { conn_req = p.conn_req ++ p.next_req ∷ []; next_req = p.next_req + 1 },
  )

  -- `Get` behind an idle queue that was empty when it looked: `made` is what the factory returns if
  -- it is called.
  unfoldable pub enter : (made : Option C) → Pool C → Reply C × Pool C
  enter made p =
      if p.locked
      then (Reply.blocked, p)
      else if leb p.max_cnt p.cnt
      then wait p
      else open_conn made p

  abbrev pub get_at : (now : ℕ) (made : Option C) → List (C × ℕ) → Pool C → Reply C × Pool C
  get_at now made [] p = enter made p
  get_at now made ((c, back_time) ∷ rest) p = take_idle now c back_time rest p

  -- `Get` that nothing interrupts, under a context that is not done.
  unfoldable pub get : (now : ℕ) (made : Option C) → Pool C → Reply C × Pool C
  get now made p = get_at now made p.idle_conn p

  abbrev pub put_at : (now : ℕ) → C → List ℕ → Pool C → Pool C
  put_at now c [] p =
      if has_room p then send_idle c now p else record p { closed = p.closed ++ c ∷ [] }
  put_at now c (req ∷ rest) p = record p {
    conn_req = rest;
    delivered = p.delivered ++ (req, c) ∷ [];
  }

  -- `Put`
  unfoldable pub put : (now : ℕ) → C → Pool C → Reply C × Pool C
  put now c p = if p.locked then (Reply.blocked, p) else (Reply.returned, put_at now c p.conn_req p)
