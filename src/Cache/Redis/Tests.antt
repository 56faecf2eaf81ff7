-- ===== src/Cache/Redis/Tests.antt =====
-- A client that has no key, whose value of type `any` is a text.
use gotest.Common.{ℕ, ◌≡◌, refl, none, some, []}
use gotest.Common.Text.{Text, codes, text_discrete}
use gotest.Cache.Layers.{LoadFunc, read_through, single_flight}
use gotest.Cache.Redis.{Cmdable, get, set, redis_cache}
use gotest.Cache.Redis.NeverLoads.{never_loads}

-- A client over the number of its calls; `get` misses.
abbrev client : Cmdable ℕ Text
client = record {
  set = λ key val expiration s. (codes "OK", none, s);
  get = λ key s. ([], some 7, s);
  get_del = λ key s. ([], some 7, s);
}

abbrev any_text : Text → Text
any_text t = t

abbrev load : LoadFunc ℕ Text
load key s = (codes "v", none, s)

set_test : set any_text client (codes "k") (codes "v") 5 0 ≡ (none, 0)
unfolding set text_discrete
set_test = refl

never_loads_example :
    (read_through [] (redis_cache any_text client) load 5 (codes "k") 0
      ≡ get any_text client (codes "k") 0)
    × (single_flight [] (redis_cache any_text client) load 5 (codes "k") 0
        ≡ get any_text client (codes "k") 0)
never_loads_example = never_loads any_text client [] load 5 (codes "k") 0
