-- ===== src/Orm/Session.antt =====
-- Queries on a database: orm/core.go, db.go, transaction.go, result.go, raw_query.go and
-- middleware.go, with `Get` and `GetMulti` of select.go and `Exec` of insert.go. `W` is the database
-- behind `database/sql`, which is a parameter; `Q` are the arguments of a query.
pub mod Transactions
pub mod Ending
pub mod Answers
mod Tests
use gotest.Common.{ℕ, Option, none, some, List, [], ◌∷◌, Bool, true, false, length, if◌then◌else◌}
use gotest.Common.Text.{Text, codes}
use gotest.Common.Chain.{wrap_from}
use gotest.Orm.Meta.{Model, Error, no_rows, nil_pointer, other}

-- `(A, error)`; the value beside an error is not used.
pub data Result (A : Type 0) : Type 0 where
  ok : A → Result A
  failed : Error → Result A

-- `type Query struct`
pub record Query (V : Type 0) : Type 0 where
  pub sql : Text
  pub args : List V

-- `database/sql`: a query's rows, `Next` of fresh rows with the row's value or the error of
-- `SetColumns`, and the result of a statement.
pub record Sql (W V R T X : Type 0) : Type 0 where
  pub query : Query V → W → Result R × W
  pub next : R → Bool
  pub set_columns : R → T × Option Error
  pub exec : Query V → W → Result X × W

-- `QueryContext`; building changes nothing of the database.
pub record QueryContext (V : Type 0) : Type 0 where
  pub typ : Text
  pub builder : Result (Query V)
  pub meta : Option Model

-- `QueryResult`: the result, which is nil or not, and the error.
pub record QueryResult (A : Type 0) : Type 0 where
  pub result : Option A
  pub err : Option Error

-- `type Handler` and `type Middleware`
abbrev pub Handler : Type 0 → Type 0 → Type 0 → Type 0
Handler W V A = QueryContext V → W → QueryResult A × W

abbrev pub Middleware : Type 0 → Type 0 → Type 0 → Type 0
Middleware W V A = Handler W V A → Handler W V A

-- `Result` of result.go.
pub record ExecResult (X : Type 0) : Type 0 where
  pub res : Option X
  pub err : Option Error

-- `LastInsertId` and `RowsAffected`: of the driver's result, unless there is an error. A nil result
-- without an error panics.
pub data Number : Type 0 where
  number : ℕ → Option Error → Number
  panicked : Number

abbrev number_of : {X : Type 0} → (X → Result ℕ) → Option Error → Option X → Number
number_of f (some e) res = number 0 (some e)
number_of f none none = panicked
number_of f none (some x) = elim (f x) [ ok n ↦ number n none | failed e ↦ number 0 (some e) ]

unfoldable pub last_insert_id : {X : Type 0} → (X → Result ℕ) → ExecResult X → Number
last_insert_id driver r = number_of driver r.err r.res

unfoldable pub rows_affected : {X : Type 0} → (X → Result ℕ) → ExecResult X → Number
rows_affected driver r = number_of driver r.err r.res

module _ {W V R T X : Type 0} (sql : Sql W V R T X) where
  -- `getHandler`: the rows of an error are not looked at.
  abbrev failure : {A : Type 0} → Error → QueryResult A
  failure e = record { result = none; err = some e }

  abbrev first_row : R → QueryResult T
  first_row rows =
      if sql.next rows
      then record { result = some (sql.set_columns rows).0; err = (sql.set_columns rows).1 }
      else failure no_rows

  abbrev got : Result R × W → QueryResult T × W
  got (failed e, w) = (failure e, w)
  got (ok rows, w) = (first_row rows, w)

  abbrev built_get : Result (Query V) → W → QueryResult T × W
  built_get (failed e) w = (failure e, w)
  built_get (ok q) w = got (sql.query q w)

  unfoldable pub get_handler : Handler W V T
  get_handler qc w = built_get qc.builder w

  -- `get`
  unfoldable pub get : List (Middleware W V T) → Handler W V T
  unfolding get_handler wrap_from
  get mdls qc w = wrap_from mdls (length mdls) get_handler qc w

  -- `execHandler`: the result is a `Result` in every case.
  abbrev ran : Result X × W → QueryResult (ExecResult X) × W
  ran (ok x, w) = (record { result = some (record { res = some x; err = none }); err = none }, w)
  ran (failed e, w) =
      (record { result = some (record { res = none; err = some e }); err = some e }, w)

  abbrev built_exec : Result (Query V) → W → QueryResult (ExecResult X) × W
  built_exec (failed e) w =
      (record { result = some (record { res = none; err = some e }); err = some e }, w)
  built_exec (ok q) w = ran (sql.exec q w)

  unfoldable pub exec_handler : Handler W V (ExecResult X)
  exec_handler qc w = built_exec qc.builder w

  -- `exec`
  unfoldable pub exec : List (Middleware W V (ExecResult X)) → Handler W V (ExecResult X)
  unfolding exec_handler wrap_from
  exec mdls qc w = wrap_from mdls (length mdls) exec_handler qc w

  -- `Get` of `Selector` and of `RawQuerier`, for what the registry answers for the type and the
  -- query that the builder makes with that model.
  abbrev to_pair : QueryResult T × W → Option T × Option Error × W
  to_pair (r, w) = (r.result, r.err, w)

  abbrev get_with :
      Text
      → List (Middleware W V T)
      → Result Model
      → (Model → Result (Query V))
      → W
      → Option T × Option Error × W
  get_with typ mdls (failed e) build w = (none, some e, w)
  get_with typ mdls (ok m) build w =
      to_pair (get mdls (record { typ = typ; builder = build m; meta = some m }) w)

  unfoldable pub selector_get :
      List (Middleware W V T)
      → Result Model
      → (Model → Result (Query V))
      → W
      → Option T × Option Error × W
  unfolding get
  selector_get mdls m build w = get_with (codes "SELECT") mdls m build w

  unfoldable pub raw_get :
      List (Middleware W V T) → Result Model → Query V → W → Option T × Option Error × W
  unfolding get
  raw_get mdls m q w = get_with (codes "RAW") mdls m (λ m. ok q) w

  -- `GetMulti` of `Selector`: nil and no error, whatever the query answers.
  abbrev multi_at : Result (Query V) → W → Option (List T) × Option Error × W
  multi_at (failed e) w = (none, some e, w)
  multi_at (ok q) w = (none, none, (sql.query q w).1)

  unfoldable pub get_multi : Result (Query V) → W → Option (List T) × Option Error × W
  get_multi q w = multi_at q w

  -- `Exec` of `Inserter` and of `RawQuerier`; the model can be known already. The inner `Result`
  -- becomes the driver's result of the outer one.
  abbrev to_result : QueryResult (ExecResult X) × W → ExecResult (ExecResult X) × W
  to_result (r, w) = (record { res = r.result; err = r.err }, w)

  abbrev exec_with :
      Text
      → List (Middleware W V (ExecResult X))
      → Result Model
      → (Model → Result (Query V))
      → W
      → ExecResult (ExecResult X) × W
  exec_with typ mdls (failed e) build w = (record { res = none; err = some e }, w)
  exec_with typ mdls (ok m) build w =
      to_result (exec mdls (record { typ = typ; builder = build m; meta = some m }) w)

  abbrev known : Option Model → Result Model → Result Model
  known none r = r
  known (some m) r = ok m

  unfoldable pub inserter_exec :
      List (Middleware W V (ExecResult X))
      → Option Model
      → Result Model
      → (Model → Result (Query V))
      → W
      → ExecResult (ExecResult X) × W
  unfolding exec
  inserter_exec mdls meta r build w = exec_with (codes "INSERT") mdls (known meta r) build w

  unfoldable pub raw_exec :
      List (Middleware W V (ExecResult X))
      → Option Model
      → Result Model
      → Query V
      → W
      → ExecResult (ExecResult X) × W
  unfolding exec
  raw_exec mdls meta r q w = exec_with (codes "RAW") mdls (known meta r) (λ m. ok q) w
