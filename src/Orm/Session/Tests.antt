-- ===== src/Orm/Session/Tests.antt =====
-- Witnesses for sessions, on a database that counts what it is asked.
use gotest.Common.{ℕ, ◌+◌, ◌≡◌, refl, none, some, [], ◌∷◌, true, false, ◌==◌}
use gotest.Common.Dict
use native.Mathlib.Decide.{ℕ_discrete}
use gotest.Orm.Meta.{other}
use gotest.Orm.Session.{ok, Sql}
use gotest.Orm.Session.Transactions.{
  TxSql, Tx, State, Ended, returned, begin_tx, begun_v2, commit, begin_tx_v2, do_tx,
}
use gotest.Orm.Session.Ending.{forgetful, do_tx_lem, begin_tx_v2_lem}

-- Rows are a number of rows, and a filled value is a number.
abbrev db : Sql ℕ ℕ ℕ ℕ ℕ
db = record {
  query = λ q n. (ok 1, n + 1);
  next = λ rows. rows == 1;
  set_columns = λ rows. (7, none);
  exec = λ q n. (ok 3, n + 1);
}

-- A database that counts commits and, in tens, rollbacks.
abbrev tx_db : TxSql ℕ
tx_db = record {
  begin = λ n. (ok 5, n);
  commit = λ h n. (none, n + 1);
  rollback = λ h n. (none, n + 10);
  is_tx_done = λ e. false;
}

abbrev fresh : State ℕ ℕ
fresh = record { db = 0; txs = []; allocated = 0 }

abbrev open_tx : Tx ℕ
open_tx = record { tx = 5; db = none; done = false }

abbrev with_tx : State ℕ ℕ
with_tx = record { db = 0; txs = (0, open_tx) ∷ []; allocated = 1 }

abbrev refuse : ℕ → State ℕ ℕ → Ended × State ℕ ℕ
refuse p s = (returned (some (other 4)), s)

held : Dict.get ℕ_discrete 0 with_tx.txs ≡ some open_tx
unfolding Dict.get ℕ_discrete
held = refl

begins : begin_tx tx_db fresh ≡ (ok 0, with_tx)
unfolding begin_tx Dict.put
begins = refl

do_tx_lem_example :
    ((do_tx tx_db refuse fresh).1.db ≡ 1)
    × (Dict.get ℕ_discrete 0 (do_tx tx_db refuse fresh).1.txs
        ≡ some (record open_tx { done = true }))
    × (do_tx tx_db refuse fresh ≡ do_tx tx_db (λ q u. forgetful tx_db (refuse q u)) fresh)
do_tx_lem_example = do_tx_lem tx_db refuse fresh with_tx 0 open_tx begins held

begin_tx_v2_lem_example :
    (begin_tx_v2 tx_db (some 0) with_tx ≡ (ok (some 0, 0), with_tx))
    × (begin_tx_v2 tx_db (some 0) (commit tx_db 0 with_tx).1
        ≡ begun_v2 tx_db (begin_tx tx_db (commit tx_db 0 with_tx).1))
begin_tx_v2_lem_example = begin_tx_v2_lem tx_db 0 open_tx with_tx held refl
