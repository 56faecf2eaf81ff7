-- ===== src/Micro/Pool/Tests.antt =====
-- The pool at concrete connections, which are numbers.
use gotest.Common.{ℕ, ◌≡◌, refl, none, some, [], ◌∷◌, ◌++◌}
use gotest.Micro.Pool.{Pool, Reply, Created, empty_pool, get, put, new_pool}
use gotest.Micro.Pool.Limits.{IsWithin}
use gotest.Micro.Pool.Reachable.{Reached, starts, gets, puts, Reached-IsWithin}
use gotest.Micro.Pool.{fill}
use gotest.Micro.Pool.Waiters.{put_all, get-put_closed}

-- A pool of at most one connection, after a call of each operation.
abbrev none_made : Pool ℕ
none_made = empty_pool 1 1 9

started : new_pool 1 1 0 9 (λ i. none) (λ i. i) ≡ Created.pool none_made
unfolding new_pool fill
started = refl

abbrev reached : Reached 1 1 0 9 (λ i. none) (λ i. i) (put 5 100 (get 3 (some 100) none_made).1).1
reached = puts 5 100 (gets 3 (some 100) (starts started))

Reached-IsWithin_example : IsWithin (put 5 100 (get 3 (some 100) none_made).1).1
Reached-IsWithin_example =
    Reached-IsWithin 1 1 0 9 (λ i. none) (λ i. i) (put 5 100 (get 3 (some 100) none_made).1).1
      reached

abbrev no_idle : Pool ℕ
no_idle = record (empty_pool 1 0 9) { cnt = 1 }

get-put_closed_example :
    ((put_all 3 (100 ∷ []) no_idle).closed ≡ [] ++ 100 ∷ [])
    × ((put_all 3 (100 ∷ []) no_idle).cnt ≡ 1)
    × ((get 4 none (put_all 3 (100 ∷ []) no_idle)).0 ≡ Reply.waiting 0)
get-put_closed_example = get-put_closed 3 4 (100 ∷ []) none no_idle refl refl refl refl refl
