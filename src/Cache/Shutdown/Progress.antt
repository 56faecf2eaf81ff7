-- ===== src/Cache/Shutdown/Progress.antt =====
-- When the shutdown can come to its end.
use gotest.Common.{
  ℕ, zero, suc, ◌+◌, ◌-◌, ◌<◌, ◌≤◌, ◌≡◌, refl, subst, List, [], ◌∷◌, length, take, All, with_elem,
  All-with_elem, none, true, false, ◌↔◌, arith,
}
use gotest.Cache.Shutdown.{
  Server, Callback, pending, under_way, called, too_late, App, reject_req, stop, Phase, serving,
  rejecting, stopping, calling, closing, closed, exited, State, HasReturned, IsOver, begin, finish,
  give_up, Step, signalled, rejects, all_reject, stops, all_stopped, calls, returns, times_out,
  all_called, closes, forced, Reaches, then_step,
}
use gotest.Cache.Shutdown.Order.{take-length, length-with_elem, Promise, reaches-Promise}

pub data Runs : State → State → Type 0 where
  stay : {s : State} → Runs s s
  go : {s t u : State} → Step s t → Runs t u → Runs s u

append : {s t u : State} → Runs s t → Runs t u → Runs s u
append stay r = r
append (go x q) r = go x (append q r)

take_next_where :
    {A : Type 0} (P Q : A → Type 0) (f : A → A) (n : ℕ) (xs : List A)
    → ((x : A) → Q x → P (f x))
    → n < length xs
    → All Q xs
    → All P (take n xs)
    → All P (take (suc n) (with_elem f n xs))
take_next_where P Q f n [] k l q h = absurd (omega (arith, l))
take_next_where P Q f zero (x ∷ xs) k l q h = (k x q.0, tt)
take_next_where P Q f (suc n) (x ∷ xs) k l q h =
    (h.0, take_next_where P Q f n xs k (omega (arith, l)) q.1 h.1)

-- Steps that change one element after another change all of them.
each_in_turn :
    {A : Type 0} (P Q : A → Type 0) (f : A → A) (at : ℕ → List A → State)
    → ((x : A) → Q x → P (f x))
    → ((x : A) → Q x → Q (f x))
    → ((n : ℕ) (xs : List A) → n < length xs → Step (at n xs) (at (suc n) (with_elem f n xs)))
    → (k n : ℕ) (xs : List A) → n + k ≡ length xs
    → All Q xs
    → All P (take n xs)
    → (ys : List A) × Runs (at n xs) (at (length ys) ys) × All P ys × All Q ys
each_in_turn P Q f at p q step zero n xs e a h =
    let same : n ≡ length xs = omega (arith, e) in
    (
      xs,
      subst (λ m. Runs (at n xs) (at m xs)) same stay,
      subst (All P) (take-length xs) (subst (λ m. All P (take m xs)) same h),
      a,
    )
each_in_turn P Q f at p q step (suc k) n xs e a h =
    let less : n < length xs = omega (arith, e) in
    let (ys, r, b, c) =
      each_in_turn P Q f at p q step k (suc n) (with_elem f n xs)
        (omega (arith, e, length-with_elem f n xs)) (All-with_elem Q f n xs q a)
        (take_next_where P Q f n xs p less a h) in
    (ys, go (step n xs less) r, b, c)

units : {A : Type 0} (xs : List A) → All (λ x. Unit {0}) xs
units [] = tt
units (x ∷ xs) = (tt, units xs)

-- Some steps from here end with the application closed.
abbrev pub CanClose : State → Type 0
CanClose s = (t : State) × Runs s t × (t.phase ≡ closed)

from_closing :
    (servers : List Server) (cbs : List Callback)
    → CanClose (record { phase = closing; servers = servers; cbs = cbs })
from_closing servers cbs = (_, go closes stay, refl)

-- No call of the callback that never returns is under way.
abbrev pub IsFree : Callback → Type 0
IsFree (pending b) = Unit
IsFree (under_way true) = Unit
IsFree (under_way false) = ⊥
IsFree called = Unit
IsFree too_late = Unit

abbrev HasLooked : Callback → Type 0
HasLooked (pending b) = ⊥
HasLooked (under_way b) = Unit
HasLooked called = Unit
HasLooked too_late = Unit

give_up-HasLooked : (c : Callback) → IsFree c → HasLooked (give_up c)
give_up-HasLooked (pending b) h = tt
give_up-HasLooked (under_way b) h = tt
give_up-HasLooked called h = tt
give_up-HasLooked too_late h = tt

give_up-IsFree : (c : Callback) → IsFree c → IsFree (give_up c)
give_up-IsFree (pending b) h = tt
give_up-IsFree (under_way b) h = h
give_up-IsFree called h = h
give_up-IsFree too_late h = h

finish-IsOver : (c : Callback) → HasLooked c × IsFree c → IsOver (finish c)
finish-IsOver (pending b) h = absurd h.0
finish-IsOver (under_way true) h = tt
finish-IsOver (under_way false) h = absurd h.1
finish-IsOver called h = tt
finish-IsOver too_late h = tt

finish_kept : (c : Callback) → HasLooked c × IsFree c → HasLooked (finish c) × IsFree (finish c)
finish_kept (pending b) h = h
finish_kept (under_way true) h = (tt, tt)
finish_kept (under_way false) h = h
finish_kept called h = h
finish_kept too_late h = h

All-both :
    {A : Type 0} (P Q : A → Type 0) (xs : List A) → All P xs → All Q xs → All (λ x. P x × Q x) xs
All-both P Q [] h k = tt
All-both P Q (x ∷ xs) h k = ((h.0, k.0), All-both P Q xs h.1 k.1)

after : {s t : State} → Runs s t → CanClose t → CanClose s
after r (u, q, e) = (u, append r q, e)

from_calling :
    (servers : List Server) (cbs : List Callback)
    → All IsFree cbs
    → CanClose (record { phase = calling; servers = servers; cbs = cbs })
from_calling servers cbs free =
    let at : List Callback → State =
      λ xs. record { phase = calling; servers = servers; cbs = xs } in
    let (ys, r, looked, still) =
      each_in_turn HasLooked IsFree give_up (λ n xs. at xs) give_up-HasLooked give_up-IsFree
        (λ n xs l. times_out n) (length cbs) 0 cbs (omega arith) free tt in
    let (zs, q, over, both) =
      each_in_turn IsOver (λ c. HasLooked c × IsFree c) finish (λ n xs. at xs) finish-IsOver
        finish_kept (λ n xs l. returns n) (length ys) 0 ys (omega arith)
        (All-both HasLooked IsFree ys looked still) tt in
    after r (after q (after (go (all_called over) stay) (from_closing servers zs)))

from_stopping :
    (servers : List Server) (cbs : List Callback)
    → All IsFree cbs
    → CanClose (record { phase = stopping; servers = servers; cbs = cbs })
from_stopping servers cbs free =
    let (ys, r, a, u) =
      each_in_turn HasReturned (λ s. Unit {0}) (stop none)
        (λ n xs. record { phase = stopping; servers = xs; cbs = cbs }) (λ s u e. cc) (λ s u. tt)
        (λ n xs l. stops n none) (length servers) 0 servers (omega arith) (units servers) tt in
    after r (after (go (all_stopped a) stay) (from_calling ys cbs free))

from_rejecting :
    (n : ℕ) (servers : List Server) (cbs : List Callback)
    → n ≤ length servers
    → All IsFree cbs
    → CanClose (record { phase = rejecting n; servers = servers; cbs = cbs })
from_rejecting n servers cbs l free =
    let (ys, r, a, u) =
      each_in_turn (λ s. Unit {0}) (λ s. Unit {0}) reject_req
        (λ n xs. record { phase = rejecting n; servers = xs; cbs = cbs }) (λ s u. tt) (λ s u. tt)
        (λ n xs l. rejects l) (length servers - n) n servers (omega (arith, l)) (units servers)
        (units (take n servers)) in
    after r (after (go all_reject stay) (from_stopping ys cbs free))

-- Along a step, a call that never returns stays under way.
begin_back : (c : Callback) → IsFree (begin c) → IsFree c
begin_back (pending b) h = tt
begin_back (under_way b) h = h
begin_back called h = h
begin_back too_late h = h

finish_back : (c : Callback) → IsFree (finish c) → IsFree c
finish_back (pending b) h = h
finish_back (under_way true) h = tt
finish_back (under_way false) h = h
finish_back called h = h
finish_back too_late h = h

give_up_back : (c : Callback) → IsFree (give_up c) → IsFree c
give_up_back (pending b) h = tt
give_up_back (under_way b) h = h
give_up_back called h = h
give_up_back too_late h = h

All-with_elem_back :
    {A : Type 0} (P : A → Type 0) (f : A → A) (i : ℕ) (xs : List A)
    → ((x : A) → P (f x) → P x)
    → All P (with_elem f i xs)
    → All P xs
All-with_elem_back P f i [] k h = tt
All-with_elem_back P f zero (x ∷ xs) k h = (k x h.0, h.1)
All-with_elem_back P f (suc i) (x ∷ xs) k h = (h.0, All-with_elem_back P f i xs k h.1)

step_back : (s t : State) → Step s t → All IsFree t.cbs → All IsFree s.cbs
step_back _ _ signalled h = h
step_back _ _ (rejects l) h = h
step_back _ _ all_reject h = h
step_back _ _ (stops i answer) h = h
step_back _ _ (all_stopped a) h = h
step_back _ _ (calls i {cbs = cbs}) h = All-with_elem_back IsFree begin i cbs begin_back h
step_back _ _ (returns i {cbs = cbs}) h = All-with_elem_back IsFree finish i cbs finish_back h
step_back _ _ (times_out i {cbs = cbs}) h = All-with_elem_back IsFree give_up i cbs give_up_back h
step_back _ _ (all_called a) h = h
step_back _ _ closes h = h
step_back _ _ (forced k) h = h

IsOver-IsFree : (cbs : List Callback) → All IsOver cbs → All IsFree cbs
IsOver-IsFree [] h = tt
IsOver-IsFree (pending b ∷ cbs) h = absurd h.0
IsOver-IsFree (under_way b ∷ cbs) h = absurd h.0
IsOver-IsFree (called ∷ cbs) h = (tt, IsOver-IsFree cbs h.1)
IsOver-IsFree (too_late ∷ cbs) h = (tt, IsOver-IsFree cbs h.1)

closed-IsFree :
    (p : Phase) (servers : List Server) (cbs : List Callback)
    → p ≡ closed
    → Promise p servers cbs
    → All IsFree cbs
closed-IsFree serving servers cbs e h = cc
closed-IsFree (rejecting n) servers cbs e h = cc
closed-IsFree stopping servers cbs e h = cc
closed-IsFree calling servers cbs e h = cc
closed-IsFree closing servers cbs e h = cc
closed-IsFree closed servers cbs e h = IsOver-IsFree cbs h.2
closed-IsFree exited servers cbs e h = cc

before_closed :
    (app : App) (s t : State) → Reaches app s → Runs s t → t.phase ≡ closed → All IsFree s.cbs
before_closed app s _ r stay e = closed-IsFree s.phase s.servers s.cbs e (reaches-Promise app s r)
before_closed app s u r (go {t = t} x q) e =
    step_back s t x (before_closed app t u (then_step r x) q e)

-- From a state that the shutdown reaches, short of the forced exit, there are steps that end with the
-- application closed just when no call of a callback that never returns is under way. One that is
-- under way keeps the shutdown waiting until the forced exit.
pub reaches_closed :
    (app : App) (s : State) → Reaches app s → ¬ (s.phase ≡ exited) → CanClose s ↔ All IsFree s.cbs
reaches_closed app s r n = (
  λ c. before_closed app s c.0 r c.1 c.2,
  λ free. at_phase s.phase s.servers s.cbs (reaches-Promise app s r) n free,
)
  where
    at_phase :
        (p : Phase) (servers : List Server) (cbs : List Callback)
        → Promise p servers cbs
        → ¬ (p ≡ exited)
        → All IsFree cbs
        → CanClose (record { phase = p; servers = servers; cbs = cbs })
    at_phase serving servers cbs h n free =
        after (go signalled stay) (from_rejecting 0 servers cbs (omega arith) free)
    at_phase (rejecting k) servers cbs h n free = from_rejecting k servers cbs h.1 free
    at_phase stopping servers cbs h n free = from_stopping servers cbs free
    at_phase calling servers cbs h n free = from_calling servers cbs free
    at_phase closing servers cbs h n free = from_closing servers cbs
    at_phase closed servers cbs h n free = (_, stay, refl)
    at_phase exited servers cbs h n free = absurd (n refl)
