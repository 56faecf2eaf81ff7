-- ===== src/Orm/Session/Transactions.antt =====
-- Transactions: the parts of orm/db.go and transaction.go that begin and end them, and `Wait`. The
-- transactions of `database/sql` are a parameter; a `Tx` is the number of its allocation.
use gotest.Common.{
  ℕ, ◌+◌, Option, none, some, List, [], ◌∷◌, Bool, true, false, ◌||◌, if◌then◌else◌,
}
use gotest.Common.Dict
use native.Mathlib.Decide.{ℕ_discrete}
use gotest.Orm.Meta.{Error}
use gotest.Orm.Session.{Result, ok, failed}

-- `sql.DB.BeginTx` with a handle, `Commit` and `Rollback` of the handle, `sql.ErrTxDone` among the
-- errors.
pub record TxSql (W : Type 0) : Type 0 where
  pub begin : W → Result ℕ × W
  pub commit : ℕ → W → Option Error × W
  pub rollback : ℕ → W → Option Error × W
  pub is_tx_done : Error → Bool

-- `type Tx struct`; `db` is nil or gives the core.
pub record Tx (C : Type 0) : Type 0 where
  pub tx : ℕ
  pub db : Option C
  pub done : Bool

-- The database and the transactions that were allocated.
pub record State (W C : Type 0) : Type 0 where
  pub db : W
  pub txs : List (ℕ × Tx C)
  pub allocated : ℕ

-- A function that returns an error or nil, or panics.
pub data Ended : Type 0 where
  returned : Option Error → Ended
  panicking : Ended

-- The errors of `DoTx`: those of the calls, and `NewErrFailedToRollbackTx`, which is made after every
-- rollback, also after one without an error.
pub data TxError : Type 0 where
  plain : Error → TxError
  failed_to_rollback : (biz rb : Option Error) → (panicked : Bool) → TxError

-- What `DoTx` answers, or that the panic of its function goes on.
pub data Answered : Type 0 where
  answered : Option TxError → Answered
  still_panicking : Answered

abbrev is_error : Option Error → Bool
is_error none = false
is_error (some e) = true

module _ {W C : Type 0} (sql : TxSql W) where
  abbrev pub begun : Result ℕ × W → State W C → Result ℕ × State W C
  begun (failed e, w) s = (failed e, record s { db = w })
  begun (ok handle, w) s = (
    ok s.allocated,
    record {
      db = w;
      txs = Dict.put ℕ_discrete s.allocated (record { tx = handle; db = none; done = false }) s.txs;
      allocated = s.allocated + 1;
    },
  )

  -- `BeginTx`
  unfoldable pub begin_tx : State W C → Result ℕ × State W C
  begin_tx s = begun (sql.begin s.db) s

  abbrev pub ended : ℕ → Tx C → Option Error × W → State W C → Option Error × State W C
  ended p t (e, w) s =
      (e, record s { db = w; txs = Dict.put ℕ_discrete p (record t { done = true }) s.txs })

  -- `Commit`, `Rollback` and `RollbackIfNotCommit` of `Tx`, through the pointer.
  abbrev pub commit_at : ℕ → Option (Tx C) → State W C → Option Error × State W C
  commit_at p none s = (none, s)
  commit_at p (some t) s = ended p t (sql.commit t.tx s.db) s

  unfoldable pub commit : ℕ → State W C → Option Error × State W C
  commit p s = commit_at p (Dict.get ℕ_discrete p s.txs) s

  abbrev pub rollback_at : ℕ → Option (Tx C) → State W C → Option Error × State W C
  rollback_at p none s = (none, s)
  rollback_at p (some t) s = ended p t (sql.rollback t.tx s.db) s

  unfoldable pub rollback : ℕ → State W C → Option Error × State W C
  rollback p s = rollback_at p (Dict.get ℕ_discrete p s.txs) s

  abbrev unless_done : Option Error × State W C → Option Error × State W C
  unless_done (none, s) = (none, s)
  unless_done (some e, s) = elim (sql.is_tx_done e) [ true ↦ (none, s) | false ↦ (some e, s) ]

  unfoldable pub rollback_if_not_commit : ℕ → State W C → Option Error × State W C
  unfolding rollback
  rollback_if_not_commit p s = unless_done (rollback p s)

  -- `BeginTxV2`: the context holds a transaction or not; the new context is answered with it.
  abbrev pub begun_v2 : Result ℕ × State W C → Result (Option ℕ × ℕ) × State W C
  begun_v2 (failed e, s) = (failed e, s)
  begun_v2 (ok p, s) = (ok (some p, p), s)

  abbrev pub reuse : ℕ → Option (Tx C) → State W C → Result (Option ℕ × ℕ) × State W C
  reuse p none s = begun_v2 (begin_tx s)
  reuse p (some t) s = elim t.done [ true ↦ begun_v2 (begin_tx s) | false ↦ (ok (some p, p), s) ]

  unfoldable pub begin_tx_v2 : Option ℕ → State W C → Result (Option ℕ × ℕ) × State W C
  unfolding begin_tx
  begin_tx_v2 none s = begun_v2 (begin_tx s)
  begin_tx_v2 (some p) s = reuse p (Dict.get ℕ_discrete p s.txs) s

  -- The deferred function of `DoTx`, for the values of `panicked` and `err` that it finds.
  abbrev rolled_back : Bool → Option Error → Option Error × State W C → Option TxError × State W C
  rolled_back panicked err (e, s) = (some (failed_to_rollback err e panicked), s)

  abbrev pub committed : Option Error × State W C → Option TxError × State W C
  committed (none, s) = (none, s)
  committed (some e, s) = (some (plain e), s)

  abbrev pub close_tx :
      (panicked : Bool) → (err : Option Error) → ℕ → State W C → Option TxError × State W C
  close_tx panicked err p s =
      if panicked || is_error err
      then rolled_back panicked err (rollback p s)
      else committed (commit p s)

  -- `DoTx`: what the function returns is not assigned to `err`, which is still that of `BeginTx`; a
  -- panic leaves `panicked` as it was and goes on.
  abbrev pub answer : Option TxError × State W C → Answered × State W C
  answer (e, s) = (answered e, s)

  abbrev pub finish : ℕ → Option Error → Ended × State W C → Answered × State W C
  finish p err (returned x, s) = answer (close_tx false err p s)
  finish p err (panicking, s) = (still_panicking, (close_tx true err p s).1)

  abbrev pub done_with :
      (ℕ → State W C → Ended × State W C) → Result ℕ × State W C → Answered × State W C
  done_with fn (failed e, s) = (answered (some (plain e)), s)
  done_with fn (ok p, s) = finish p none (fn p s)

  unfoldable pub do_tx : (ℕ → State W C → Ended × State W C) → State W C → Answered × State W C
  unfolding begin_tx commit rollback
  do_tx fn s = done_with fn (begin_tx s)

-- `getCore` of `Tx`: none where the pointer to the database is nil, which panics.
abbrev pub core_of : {C : Type 0} → Option (Tx C) → Option C
core_of none = none
core_of (some t) = t.db

unfoldable pub get_core : {W C : Type 0} → ℕ → State W C → Option C
get_core p s = core_of (Dict.get ℕ_discrete p s.txs)

-- `Wait`: the answers of `Ping` in turn, where `bad` tells `driver.ErrBadConn`; none while it waits.
abbrev pub again : Bool → Error → Option (Option Error) → Option (Option Error)
again true e rest = rest
again false e rest = some (some e)

abbrev pub pinged : (Error → Bool) → Option Error → Option (Option Error) → Option (Option Error)
pinged bad none rest = some none
pinged bad (some e) rest = again (bad e) e rest

unfoldable pub wait : (Error → Bool) → List (Option Error) → Option (Option Error)
wait bad [] = none
wait bad (e ∷ es) = pinged bad e (wait bad es)
