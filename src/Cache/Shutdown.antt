-- ===== src/Cache/Shutdown.antt =====
-- The graceful shutdown of cache/homework_graceful_shutdown/service/shutdown.go, as steps of the
-- goroutines of `shutdown`, of requests and of the forced exit. Times are in seconds.
pub mod Order
pub mod Progress
mod Tests
use gotest.Common.{
  ℕ, zero, suc, ◌<◌, ◌≡◌, Option, none, some, List, [], ◌∷◌, Bool, true, false, length, map, All,
  with_elem, if◌then◌else◌,
}
use gotest.Common.Text.{Text}

-- `serverMux` of a server: whether it rejects; and what the server's `stop` has answered, if it has
-- returned: nil, or the error of `Shutdown`, after which connections can be left open.
pub record Server : Type 0 where
  pub name : Text
  pub reject : Bool
  pub stop_answer : Option (Option ℕ)

-- A callback's goroutine has not looked at the context yet; it is in the callback; it has called it;
-- or it found that the time was over. The `Bool` tells whether a call of the callback ever returns.
pub data Callback : Type 0 where
  pending under_way : Bool → Callback
  called too_late : Callback

pub record App : Type 0 where
  pub servers : List Server
  pub shutdown_timeout : ℕ
  pub wait_time : ℕ
  pub cb_timeout : ℕ
  pub cbs : List Callback

-- `NewServer`
abbrev pub new_server : Text → Server
new_server name = record { name = name; reject = false; stop_answer = none }

-- `NewApp` with the options, applied in turn.
unfoldable pub apply : List (App → App) → App → App
apply [] app = app
apply (opt ∷ opts) app = apply opts (opt app)

unfoldable pub new_app : List Server → List (App → App) → App
unfolding apply
new_app servers opts =
    apply opts (record {
      servers = servers;
      shutdown_timeout = 30;
      wait_time = 10;
      cb_timeout = 3;
      cbs = [];
    })

abbrev pub with_shutdown_callbacks : List Callback → App → App
with_shutdown_callbacks cbs app = record app { cbs = cbs }

abbrev pub app_with_shutdown_timeout : ℕ → App → App
app_with_shutdown_timeout time app = record app { shutdown_timeout = time }

abbrev pub app_with_wait_timeout : ℕ → App → App
app_with_wait_timeout time app = record app { wait_time = time }

abbrev pub app_with_cb_timeout : ℕ → App → App
app_with_cb_timeout time app = record app { cb_timeout = time }

-- `ServeHTTP` of `serverMux`: the status 503 without a call of the handlers, or what they answer.
pub data Response : Type 0 where
  unavailable : Response
  handled : Response

unfoldable pub serve_http : Server → Response
serve_http s = if s.reject then unavailable else handled

-- `rejectReq`, and the end of `stop`, with an error or without.
abbrev pub reject_req : Server → Server
reject_req s = record s { reject = true }

abbrev pub stop : Option ℕ → Server → Server
stop answer s = record s { stop_answer = some answer }

-- Where `shutdown` is: in the loop, with that many servers rejecting; at the first and the second
-- `wg.Wait`; before `close`; behind it; or the process has exited by force.
pub data Phase : Type 0 where
  serving : Phase
  rejecting : ℕ → Phase
  stopping calling closing closed exited : Phase

pub record State : Type 0 where
  pub phase : Phase
  pub servers : List Server
  pub cbs : List Callback

abbrev pub start : App → State
start app = record { phase = serving; servers = app.servers; cbs = app.cbs }

-- The server's `stop` has returned, with an error or without.
abbrev pub HasReturned : Server → Type 0
HasReturned s = ¬ (s.stop_answer ≡ none)

abbrev pub IsOver : Callback → Type 0
IsOver (pending b) = ⊥
IsOver (under_way b) = ⊥
IsOver called = Unit
IsOver too_late = Unit

-- What a callback's goroutine does next: it calls, its call returns, or it gives up.
abbrev pub begin : Callback → Callback
begin (pending b) = under_way b
begin (under_way b) = under_way b
begin called = called
begin too_late = too_late

abbrev pub finish : Callback → Callback
finish (pending b) = pending b
finish (under_way true) = called
finish (under_way false) = under_way false
finish called = called
finish too_late = too_late

abbrev pub give_up : Callback → Callback
give_up (pending b) = too_late
give_up (under_way b) = under_way b
give_up called = called
give_up too_late = too_late

-- The goroutine that exits by force runs.
abbrev pub ShuttingDown : Phase → Type 0
ShuttingDown serving = ⊥
ShuttingDown (rejecting n) = Unit
ShuttingDown stopping = Unit
ShuttingDown calling = Unit
ShuttingDown closing = Unit
ShuttingDown closed = ⊥
ShuttingDown exited = ⊥

-- The steps.
pub data Step : State → State → Type 0 where
  -- The first signal.
  signalled :
      {servers : List Server} {cbs : List Callback}
      → Step
          (record { phase = serving; servers = servers; cbs = cbs })
          (record { phase = rejecting 0; servers = servers; cbs = cbs })
  -- A round of the loop over the servers, and its end.
  rejects :
      {n : ℕ} {servers : List Server} {cbs : List Callback}
      → n < length servers
      → Step
          (record { phase = rejecting n; servers = servers; cbs = cbs })
          (record {
            phase = rejecting (suc n);
            servers = with_elem reject_req n servers;
            cbs = cbs;
          })
  all_reject :
      {servers : List Server} {cbs : List Callback}
      → Step
          (record { phase = rejecting (length servers); servers = servers; cbs = cbs })
          (record { phase = stopping; servers = servers; cbs = cbs })
  -- A server's `stop` returns, with an error or without.
  stops :
      (i : ℕ) (answer : Option ℕ) {servers : List Server} {cbs : List Callback}
      → Step
          (record { phase = stopping; servers = servers; cbs = cbs })
          (record { phase = stopping; servers = with_elem (stop answer) i servers; cbs = cbs })
  all_stopped :
      {servers : List Server} {cbs : List Callback}
      → All HasReturned servers
      → Step
          (record { phase = stopping; servers = servers; cbs = cbs })
          (record { phase = calling; servers = servers; cbs = cbs })
  -- A callback is called by its goroutine.
  calls :
      (i : ℕ) {servers : List Server} {cbs : List Callback}
      → Step
          (record { phase = calling; servers = servers; cbs = cbs })
          (record { phase = calling; servers = servers; cbs = with_elem begin i cbs })
  -- A call of a callback returns.
  returns :
      (i : ℕ) {servers : List Server} {cbs : List Callback}
      → Step
          (record { phase = calling; servers = servers; cbs = cbs })
          (record { phase = calling; servers = servers; cbs = with_elem finish i cbs })
  -- A callback's goroutine finds the context done.
  times_out :
      (i : ℕ) {servers : List Server} {cbs : List Callback}
      → Step
          (record { phase = calling; servers = servers; cbs = cbs })
          (record { phase = calling; servers = servers; cbs = with_elem give_up i cbs })
  all_called :
      {servers : List Server} {cbs : List Callback}
      → All IsOver cbs
      → Step
          (record { phase = calling; servers = servers; cbs = cbs })
          (record { phase = closing; servers = servers; cbs = cbs })
  closes :
      {servers : List Server} {cbs : List Callback}
      → Step
          (record { phase = closing; servers = servers; cbs = cbs })
          (record { phase = closed; servers = servers; cbs = cbs })
  -- The second signal, or the time for the shutdown is over.
  forced :
      {phase : Phase} {servers : List Server} {cbs : List Callback}
      → ShuttingDown phase
      → Step
          (record { phase = phase; servers = servers; cbs = cbs })
          (record { phase = exited; servers = servers; cbs = cbs })

pub data Reaches (app : App) : State → Type 0 where
  starts : Reaches app (start app)
  then_step : {s t : State} → Reaches app s → Step s t → Reaches app t
