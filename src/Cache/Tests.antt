-- ===== src/Cache/Tests.antt =====
-- The caches at concrete operations.
use gotest.Common.{ℕ, ◌+◌, ◌<◌, ◌≡◌, refl, none, [], ◌∷◌, if◌then◌else◌, length, arith}
use gotest.Common.Text.{Text, codes, text_discrete}
use gotest.Common.Dict
use gotest.Common.Dict.{HasDistinctKeys}
use gotest.Common.Text
use native.Mathlib.Decide.{ℕ_discrete}
use gotest.Cache.Local.{BuildInMapCache, Item, Reply, poll, set, get, remove, delete}
use gotest.Cache.Local
use gotest.Cache.Local.Polling.{is_among, kept, get-poll}
use gotest.Cache.MaxCount.{MaxCntCache, new_max_cnt_cache}
use gotest.Cache.MaxCount
use gotest.Cache.MaxCount.Counting.{IsCounted}
use gotest.Cache.MaxCount.Reachable.{
  do_set, do_poll, step, Reached, created, stepped, Reached-IsCounted,
}

-- The definitions that the evaluations below unfold.
runs : Unit {0}
unfolding Local.set Local.get Local.remove Local.delete Local.poll Local.deadline_before
    Local.deadline MaxCount.set MaxCount.new_max_cnt_cache step Dict.get Dict.put Dict.remove
    Text.text_discrete ℕ_discrete
runs = tt

-- The callback counts the evictions.
abbrev map_cache : BuildInMapCache ℕ ℕ
map_cache = record { entries = []; on_evicted = λ key val n. n + 1; seen = 0 }

abbrev one_key : BuildInMapCache ℕ ℕ
one_key = record {
  entries = (codes "k", record { val = 7; expiration = 15 }) ∷ [];
  on_evicted = λ key val n. n + 1;
  seen = 0;
}

set_to_one_key : set 10 (codes "k") 7 5 map_cache ≡ one_key
unfolding runs
set_to_one_key = refl

get-poll_example :
    Dict.get text_discrete (codes "k") (poll 20 0 (codes "k" ∷ []) one_key).entries ≡ (
      if is_among (codes "k") (codes "k" ∷ [])
      then kept 20 (Dict.get text_discrete (codes "k") one_key.entries)
      else Dict.get text_discrete (codes "k") one_key.entries)
get-poll_example = get-poll 20 (codes "k" ∷ []) one_key (codes "k") (tt, tt)

abbrev limited : MaxCntCache ℕ ℕ
limited = new_max_cnt_cache map_cache 1

abbrev full_cache : MaxCntCache ℕ ℕ
full_cache = (step (do_set 10 (codes "k") 7 5) limited).1

full-Reached : Reached map_cache 1 full_cache
full-Reached = stepped (do_set 10 (codes "k") 7 5) created

Reached-IsCounted_example : (full_cache.max_cnt ≡ 1) × IsCounted 1 full_cache.cache
Reached-IsCounted_example = Reached-IsCounted map_cache 1 full_cache refl (omega arith) full-Reached

full_cache-IsCounted : IsCounted full_cache.max_cnt full_cache.cache
unfolding runs
full_cache-IsCounted = (Reached-IsCounted map_cache 1 full_cache refl (omega arith) full-Reached).1

no_j : Dict.get text_discrete (codes "j") full_cache.cache.entries ≡ none
unfolding runs
no_j = refl

is_full : length full_cache.cache.entries ≡ full_cache.max_cnt
unfolding runs
is_full = refl

k_there :
    Dict.get text_discrete (codes "k") full_cache.cache.entries ≡ none
    → length full_cache.cache.entries < full_cache.max_cnt
unfolding runs
k_there = λ e. cc

-- A second key is refused; after the deadline of the first a tick makes room for it.
refused : MaxCount.set 11 (codes "j") 8 0 full_cache ≡ (Reply.no_capacity, full_cache)
unfolding runs
refused = refl

accepted :
    (MaxCount.set 21 (codes "j") 8 0 (step (do_poll 20 (codes "k" ∷ [])) full_cache).1).0
    ≡ Reply.stored
unfolding runs
accepted = refl
