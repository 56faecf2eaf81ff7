-- ===== src/Orm/Session/Ending.antt =====
-- How transactions begin and end, and how the wait for the database ends.
use gotest.Common.{
  ℕ, ◌≡◌, ◌∙◌, refl, ap, Option, none, some, List, [], ◌∷◌, ◌++◌, Bool, true, false, if◌then◌else◌,
  All,
}
use gotest.Common.Dict
use native.Mathlib.Decide.{ℕ_discrete}
use gotest.Orm.Meta.{Error}
use gotest.Orm.Session.{ok}
use gotest.Orm.Session.Transactions.{
  TxSql, Tx, State, Ended, returned, panicking, begin_tx, begun_v2, ended, commit, commit_at,
  rollback, reuse, begin_tx_v2, committed, answer, finish, do_tx, get_core, core_of, wait, pinged,
  again,
}

-- Whether `DoTx` commits after a function that ends like this.
abbrev pub commits : Ended → Bool
commits (returned x) = true
commits panicking = false

module _ {W C : Type 0} (sql : TxSql W) where
  ended_done :
      (p : ℕ) (t : Tx C) (x : Option Error × W) (s : State W C)
      → Dict.get ℕ_discrete p (ended sql p t x s).1.txs ≡ some (record t { done = true })
  ended_done p t (e, w) s = Dict.get-put_self ℕ_discrete p (record t { done = true }) s.txs

  -- A function that returns nil where another one returns, with an error or without, and panics where
  -- it does.
  abbrev pub forgetful : Ended × State W C → Ended × State W C
  forgetful (returned x, s) = (returned none, s)
  forgetful (panicking, s) = (panicking, s)

  finish_lem :
      (p : ℕ) (t : Tx C) (e : Ended) (s : State W C)
      → Dict.get ℕ_discrete p s.txs ≡ some t
      → ((finish sql p none (e, s)).1.db
          ≡ (if commits e then (sql.commit t.tx s.db).1 else (sql.rollback t.tx s.db).1))
        × (Dict.get ℕ_discrete p (finish sql p none (e, s)).1.txs ≡ some (record t { done = true }))
        × (finish sql p none (e, s) ≡ finish sql p none (forgetful (e, s)))
  unfolding commit rollback
  finish_lem p t (returned x) s h = rw h (at_commit (sql.commit t.tx s.db))
    where
      at_commit :
          (c : Option Error × W)
          → ((committed sql (ended sql p t c s)).1.db ≡ c.1)
            × (Dict.get ℕ_discrete p (committed sql (ended sql p t c s)).1.txs
                ≡ some (record t { done = true }))
            × (answer sql (committed sql (ended sql p t c s))
                ≡ answer sql (committed sql (ended sql p t c s)))
      at_commit (none, w) = (refl, ended_done p t (none, w) s, refl)
      at_commit (some e, w) = (refl, ended_done p t (some e, w) s, refl)
  finish_lem p t panicking s h = rw h (refl, ended_done p t (sql.rollback t.tx s.db) s, refl)

  -- Once `DoTx` has begun a transaction, and where its function leaves the transaction allocated, it
  -- commits where the function returns, whatever it returns, and rolls back where it panics; the
  -- transaction is marked as done; and both the answer and the state are those for a function that
  -- does the same and returns no error.
  pub do_tx_lem :
      (fn : ℕ → State W C → Ended × State W C) (s s1 : State W C) (p : ℕ) (t : Tx C)
      → begin_tx sql s ≡ (ok p, s1)
      → Dict.get ℕ_discrete p (fn p s1).1.txs ≡ some t
      → ((do_tx sql fn s).1.db ≡ (
          if commits (fn p s1).0
          then (sql.commit t.tx (fn p s1).1.db).1
          else (sql.rollback t.tx (fn p s1).1.db).1))
        × (Dict.get ℕ_discrete p (do_tx sql fn s).1.txs ≡ some (record t { done = true }))
        × (do_tx sql fn s ≡ do_tx sql (λ q u. forgetful (fn q u)) s)
  unfolding do_tx
  do_tx_lem fn s s1 p t b h = rw b (finish_lem p t (fn p s1).0 (fn p s1).1 h)

  -- A transaction that `BeginTx` begins has no database, so asking it for its core, as every builder
  -- on it does, panics.
  pub get_core-begin_tx :
      (s : State W C) (h : ℕ) (w : W)
      → sql.begin s.db ≡ (ok h, w)
      → ((begin_tx sql s).0 ≡ ok s.allocated) × (get_core s.allocated (begin_tx sql s).1 ≡ none)
  unfolding begin_tx get_core
  get_core-begin_tx s h w b = rw b (
    refl,
    ap core_of (
        Dict.get-put_self ℕ_discrete s.allocated (record { tx = h; db = none; done = false })
          s.txs),
  )

  ended_committed :
      (p : ℕ) (t : Tx C) (s : State W C)
      → Dict.get ℕ_discrete p s.txs ≡ some t
      → Dict.get ℕ_discrete p (commit sql p s).1.txs ≡ some (record t { done = true })
  unfolding commit
  ended_committed p t s h =
      ap (λ o. Dict.get ℕ_discrete p (commit_at sql p o s).1.txs) h
      ∙ ended_done p t (sql.commit t.tx s.db) s

  reuse_open :
      (p : ℕ) (t : Tx C) (s : State W C)
      → Dict.get ℕ_discrete p s.txs ≡ some t
      → t.done ≡ false
      → begin_tx_v2 sql (some p) s ≡ (ok (some p, p), s)
  unfolding begin_tx_v2
  reuse_open p t s h d = ap (λ o. reuse sql p o s) h ∙ rw d refl

  reuse_done :
      (p : ℕ) (t : Tx C) (s : State W C)
      → Dict.get ℕ_discrete p s.txs ≡ some t
      → t.done ≡ true
      → begin_tx_v2 sql (some p) s ≡ begun_v2 sql (begin_tx sql s)
  unfolding begin_tx_v2
  reuse_done p t s h d = ap (λ o. reuse sql p o s) h ∙ rw d refl

  -- Within a context that holds a transaction which has not ended, `BeginTxV2` answers that one and
  -- begins nothing; once it is committed, the same context gets a transaction that is begun anew.
  pub begin_tx_v2_lem :
      (p : ℕ) (t : Tx C) (s : State W C)
      → Dict.get ℕ_discrete p s.txs ≡ some t
      → t.done ≡ false
      → (begin_tx_v2 sql (some p) s ≡ (ok (some p, p), s))
        × (begin_tx_v2 sql (some p) (commit sql p s).1
            ≡ begun_v2 sql (begin_tx sql (commit sql p s).1))
  begin_tx_v2_lem p t s h d = (
    reuse_open p t s h d,
    reuse_done p (record t { done = true }) (commit sql p s).1 (ended_committed p t s h) refl,
  )

abbrev pub IsBad : (Error → Bool) → Option Error → Type 0
IsBad bad none = ⊥
IsBad bad (some e) = bad e ≡ true

-- `Wait` ends with the first answer of the database that is not the bad connection, after any number
-- of those: with no error, or with the other error.
pub wait_lem :
    (bad : Error → Bool) (es : List (Option Error)) (a : Option Error) (rest : List (Option Error))
    → All (IsBad bad) es
    → ¬ IsBad bad a
    → wait bad (es ++ a ∷ rest) ≡ some a
unfolding wait
wait_lem bad [] a rest h n = last_case a n
  where
    last_case : (a : Option Error) → ¬ IsBad bad a → pinged bad a (wait bad rest) ≡ some a
    last_case none n = refl
    last_case (some e) n = again_not (bad e) refl
      where
        again_not : (b : Bool) → bad e ≡ b → again b e (wait bad rest) ≡ some (some e)
        again_not true q = absurd (n q)
        again_not false q = refl
wait_lem bad (none ∷ es) a rest h n = absurd h.0
wait_lem bad (some e ∷ es) a rest h n =
    ap (λ b. again b e (wait bad (es ++ a ∷ rest))) h.0 ∙ wait_lem bad es a rest h.1 n
