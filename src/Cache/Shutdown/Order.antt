-- ===== src/Cache/Shutdown/Order.antt =====
-- What holds in every state that the steps of the shutdown reach.
use gotest.Common.{
  ℕ, zero, suc, ◌<◌, ◌≤◌, ◌≡◌, refl, ap, subst, List, [], ◌∷◌, true, length, take, All, with_elem,
  All-with_elem, arith,
}
use gotest.Cache.Shutdown.{
  Server, Callback, App, unavailable, serve_http, reject_req, stop, Phase, serving, rejecting,
  stopping, calling, closing, closed, exited, State, HasReturned, IsOver, Step, signalled, rejects,
  all_reject, stops, all_stopped, calls, returns, times_out, all_called, closes, forced, Reaches,
  starts, then_step,
}

abbrev pub Rejects : Server → Type 0
Rejects s = s.reject ≡ true

-- What a phase promises of the servers and the callbacks.
abbrev pub Promise : Phase → List Server → List Callback → Type 0
Promise serving servers cbs = Unit
Promise (rejecting n) servers cbs = All Rejects (take n servers) × (n ≤ length servers)
Promise stopping servers cbs = All Rejects servers × Unit {0}
Promise calling servers cbs = All Rejects servers × All HasReturned servers
Promise closing servers cbs = All Rejects servers × All HasReturned servers × All IsOver cbs
Promise closed servers cbs = All Rejects servers × All HasReturned servers × All IsOver cbs
Promise exited servers cbs = Unit

pub take-length : {A : Type 0} (xs : List A) → take (length xs) xs ≡ xs
take-length [] = refl
take-length (x ∷ xs) = ap (◌∷◌ x) (take-length xs)

pub take_next :
    {A : Type 0} (P : A → Type 0) (f : A → A) (n : ℕ) (xs : List A)
    → ((x : A) → P (f x))
    → n < length xs
    → All P (take n xs)
    → All P (take (suc n) (with_elem f n xs))
take_next P f n [] k l h = absurd (omega (arith, l))
take_next P f zero (x ∷ xs) k l h = (k x, tt)
take_next P f (suc n) (x ∷ xs) k l h = (h.0, take_next P f n xs k (omega (arith, l)) h.1)

pub length-with_elem :
    {A : Type 0} (f : A → A) (i : ℕ) (xs : List A) → length (with_elem f i xs) ≡ length xs
length-with_elem f i [] = refl
length-with_elem f zero (x ∷ xs) = refl
length-with_elem f (suc i) (x ∷ xs) = ap suc (length-with_elem f i xs)

step-Promise :
    (s t : State) → Step s t → Promise s.phase s.servers s.cbs → Promise t.phase t.servers t.cbs
step-Promise _ _ signalled h = (tt, omega arith)
step-Promise _ _ (rejects {n = n} {servers = servers} l) h = (
  take_next Rejects reject_req n servers (λ s. refl) l h.0,
  omega (arith, l, length-with_elem reject_req n servers),
)
step-Promise _ _ (all_reject {servers = servers}) h =
    (subst (All Rejects) (take-length servers) h.0, tt)
step-Promise _ _ (stops i answer {servers = servers}) h =
    (All-with_elem Rejects (stop answer) i servers (λ s r. r) h.0, tt)
step-Promise _ _ (all_stopped a) h = (h.0, a)
step-Promise _ _ (calls i) h = h
step-Promise _ _ (returns i) h = h
step-Promise _ _ (times_out i) h = h
step-Promise _ _ (all_called a) h = (h.0, h.1, a)
step-Promise _ _ closes h = h
step-Promise _ _ (forced k) h = tt

-- In every state that the shutdown reaches, its phase's promise holds: from the first wait on all
-- servers reject; from the callbacks on `stop` has returned for all of them, with an error or
-- without; and from the call of `close` on each callback has returned or was given up.
pub reaches-Promise : (app : App) (s : State) → Reaches app s → Promise s.phase s.servers s.cbs
reaches-Promise app _ starts = tt
reaches-Promise app t (then_step {s = s} r x) = step-Promise s t x (reaches-Promise app s r)

-- The loop over the servers has ended, and the process was not made to exit.
abbrev pub IsLate : Phase → Type 0
IsLate serving = ⊥
IsLate (rejecting n) = ⊥
IsLate stopping = Unit
IsLate calling = Unit
IsLate closing = Unit
IsLate closed = Unit
IsLate exited = ⊥

serve_http-Rejects :
    (servers : List Server) → All Rejects servers → All (λ s. serve_http s ≡ unavailable) servers
unfolding serve_http
serve_http-Rejects [] h = tt
serve_http-Rejects (s ∷ servers) h = (rw h.0 refl, serve_http-Rejects servers h.1)

late_Rejects :
    (p : Phase) (servers : List Server) (cbs : List Callback)
    → IsLate p
    → Promise p servers cbs
    → All Rejects servers
late_Rejects serving servers cbs l h = absurd l
late_Rejects (rejecting n) servers cbs l h = absurd l
late_Rejects stopping servers cbs l h = h.0
late_Rejects calling servers cbs l h = h.0
late_Rejects closing servers cbs l h = h.0
late_Rejects closed servers cbs l h = h.0
late_Rejects exited servers cbs l h = absurd l

-- From the end of the loop over the servers on, every server answers every request with the status
-- 503, without calling a handler.
pub reaches-serve_http :
    (app : App) (s : State)
    → Reaches app s
    → IsLate s.phase
    → All (λ server. serve_http server ≡ unavailable) s.servers
reaches-serve_http app s r l =
    serve_http-Rejects s.servers (late_Rejects s.phase s.servers s.cbs l (reaches-Promise app s r))
