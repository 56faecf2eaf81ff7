-- ===== src/Cache/Shutdown/Tests.antt =====
-- Witnesses for the shutdown, of an application with one server and one callback.
use gotest.Common.{◌≡◌, ◌↔◌, refl, none, [], ◌∷◌, true, All, arith}
use gotest.Common.Text.{codes}
use gotest.Cache.Shutdown.{
  pending, called, App, new_server, new_app, with_shutdown_callbacks, reject_req, stop, stopping,
  closed, exited, State, signalled, rejects, all_reject, stops, all_stopped, calls, returns,
  all_called, HasReturned, closes, Reaches, starts, then_step, apply,
}
use gotest.Cache.Shutdown.Order.{Promise, reaches-Promise}
use gotest.Cache.Shutdown.Progress.{CanClose, IsFree, reaches_closed}

abbrev app : App
app = record {
  servers = new_server (codes "business") ∷ [];
  shutdown_timeout = 30;
  wait_time = 10;
  cb_timeout = 3;
  cbs = pending true ∷ [];
}

app_lem :
    new_app (new_server (codes "business") ∷ []) (with_shutdown_callbacks (pending true ∷ []) ∷ [])
    ≡ app
unfolding new_app apply
app_lem = refl

abbrev rejected : State
rejected = record {
  phase = stopping;
  servers = reject_req (new_server (codes "business")) ∷ [];
  cbs = pending true ∷ [];
}

abbrev down : State
down = record {
  phase = closed;
  servers = stop none (reject_req (new_server (codes "business"))) ∷ [];
  cbs = called ∷ [];
}

abbrev at_reject : Reaches app rejected
at_reject = then_step (then_step (then_step starts signalled) (rejects (omega arith))) all_reject

returned : HasReturned (stop none (reject_req (new_server (codes "business"))))
returned e = cc

at_down : Reaches app down
at_down =
    then_step
      (then_step
        (then_step
          (then_step (then_step (then_step at_reject (stops 0 none)) (all_stopped (returned, tt)))
            (calls 0))
          (returns 0))
        (all_called (tt, tt)))
      closes

reaches-Promise_example : Promise closed down.servers down.cbs
reaches-Promise_example = reaches-Promise app down at_down

not_exited : ¬ (stopping ≡ exited)
not_exited e = cc

reaches_closed_example : CanClose rejected ↔ All IsFree rejected.cbs
reaches_closed_example = reaches_closed app rejected at_reject not_exited
