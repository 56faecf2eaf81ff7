-- ===== src/Orm/Session/Answers.antt =====
-- What queries and statements answer.
use gotest.Common.{ℕ, ◌≡◌, ◌∙◌, refl, ap, none, some, List, [], Bool, true, false, if◌then◌else◌}
use gotest.Common.Chain.{wrap_from, chain, wrap_from-chain}
use gotest.Orm.Meta.{Model, Error, no_rows}
use gotest.Orm.Session.{
  Result, ok, failed, Query, Sql, QueryContext, Middleware, ExecResult, number, get_handler, get,
  exec_handler, exec, selector_get, inserter_exec, rows_affected, get_multi, built_get, got,
  to_pair,
}

if_pair :
    {A B : Type 0} (f : A → B) (b : Bool) (x y : A)
    → f (if b then x else y) ≡ (if b then f x else f y)
if_pair f true x y = refl
if_pair f false x y = refl

module _ {W V R T X : Type 0} (sql : Sql W V R T X) where
  -- Queries and statements both run in their middlewares, with the first one outermost.
  pub get-exec-chain :
      (mdls : List (Middleware W V T)) (mdls2 : List (Middleware W V (ExecResult X)))
      → (qc : QueryContext V) (w : W)
      → (get sql mdls qc w ≡ chain mdls (get_handler sql) qc w)
        × (exec sql mdls2 qc w ≡ chain mdls2 (exec_handler sql) qc w)
  unfolding get exec
  get-exec-chain mdls mdls2 qc w = (
    ap (λ f. f qc w) (wrap_from-chain mdls (get_handler sql)),
    ap (λ f. f qc w) (wrap_from-chain mdls2 (exec_handler sql)),
  )

  -- Without middlewares, a query that cannot be built is not sent: `Get` and `Exec` answer its error,
  -- with no value and with no number of rows, and the database is not touched.
  pub build_fails :
      (m : Model) (build : Model → Result (Query V)) (driver : ExecResult X → Result ℕ) (e : Error)
      (w : W)
      → build m ≡ failed e
      → (selector_get sql [] (ok m) build w ≡ (none, some e, w))
        × ((inserter_exec sql [] none (ok m) build w).1 ≡ w)
        × (rows_affected driver (inserter_exec sql [] none (ok m) build w).0 ≡ number 0 (some e))
  unfolding selector_get inserter_exec get exec get_handler exec_handler wrap_from rows_affected
  build_fails m build driver e w h = rw h (refl, refl, refl)

  -- Without middlewares, a query that the database answers is sent once, as it was built: `Get`
  -- answers the first row's value with the error of filling it, and that there are no rows where
  -- there is none.
  pub selector_get_lem :
      (m : Model) (build : Model → Result (Query V)) (q : Query V) (rows : R) (w w' : W)
      → build m ≡ ok q
      → sql.query q w ≡ (ok rows, w')
      → selector_get sql [] (ok m) build w ≡ (
          if sql.next rows
          then (some (sql.set_columns rows).0, (sql.set_columns rows).1, w')
          else (none, some no_rows, w'))
  unfolding selector_get get get_handler wrap_from
  selector_get_lem m build q rows w w' h k =
      ap (λ b. to_pair sql (built_get sql b w)) h
      ∙ (ap (λ r. to_pair sql (got sql r)) k
          ∙ if_pair (λ r. to_pair sql (r, w')) (sql.next rows) _ _)

  -- `GetMulti` answers neither rows nor an error, also where the query failed.
  pub get_multi_lem :
      (q : Query V) (w w' : W) (e : Error)
      → sql.query q w ≡ (failed e, w')
      → get_multi sql (ok q) w ≡ (none, none, w')
  unfolding get_multi
  get_multi_lem q w w' e h = ap (λ r. (none, none, r.1)) h
