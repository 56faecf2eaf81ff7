-- ===== src/Web/Session/Tests.antt =====
-- Witnesses for sessions.
use gotest.Common.{ℕ, ◌≡◌, ◌≢◌, refl, ap, Option, none, some, List, [], ◌∷◌, true}
use gotest.Common.Text.{Text, codes, text_discrete}
use gotest.Common.Dict
use native.Mathlib.Decide.{ℕ_discrete}
use gotest.Web.Context.{Context, UserValue, session, finished}
use gotest.Web.Session.{
  Answer, ok, failed, Store, Propagator, new_propagator, cookie_propagator, get_session,
  init_session,
}
use gotest.Web.Session
use gotest.Web.Session.Memory.{TimedCache, Memory}
use gotest.Web.Session.Manager.{kept}
use gotest.Web.Session.Stack.{
  World, set_cookie, memory_store, KeepsEntries, KeepsCookies, sent_back, get_session-init_session,
}
use gotest.Web.Session.Redis.{Hashes, KeepsFields}

abbrev answer : Option Text → Answer Text
answer none = failed 0
answer (some v) = ok v

-- A cache that does not expire, as a dictionary.
abbrev cache : TimedCache (List (Text × ℕ))
cache = record {
  set = λ id p expiration c. Dict.put text_discrete id p c;
  get = Dict.get text_discrete;
  delete = Dict.remove text_discrete;
}

cache-KeepsEntries : KeepsEntries cache
cache-KeepsEntries = record { apply = λ id p expiration c. Dict.get-put_self text_discrete id p c }

abbrev fresh : Memory (List (Text × ℕ))
fresh = record { sessions = []; expiration = 60; heap = []; allocated = 0 }

abbrev store : Store (World (List (Text × ℕ))) ℕ
store = memory_store cache

abbrev cookies : Propagator (World (List (Text × ℕ)))
cookies = cookie_propagator set_cookie new_propagator

abbrev context_with :
    List (Text × Text)
    → List (Text × UserValue ℕ)
    → World (List (Text × ℕ))
    → Context (World (List (Text × ℕ))) ℕ
context_with carried values w = record {
  req = record {
    method = codes "GET";
    path = codes "/";
    host = [];
    query = [];
    form = none;
    body = none;
    cookies = carried;
  };
  world = w;
  resp_data = [];
  resp_status_code = 0;
  path_params = [];
  query_values = none;
  match_route = [];
  user_values = values;
}

abbrev key : Text
key = codes "sess"

abbrev c1 : Context (World (List (Text × ℕ))) ℕ
c1 = context_with [] [] (fresh, [])

abbrev c2 : Context (World (List (Text × ℕ))) ℕ
c2 =
    context_with ((codes "sessId", codes "id-1") ∷ []) []
      (init_session store cookies key (codes "id-1") c1).1.world

runs : Unit {0}
unfolding Dict.get text_discrete
runs = tt

carried : c2.req.cookies ≡ sent_back c2.world.1
unfolding runs init_session cookie_propagator sent_back Session.Memory.generate
carried = refl

option-KeepsCookies : KeepsCookies new_propagator
option-KeepsCookies = record { name = λ k. refl; value = λ k. refl; expired = λ k. refl }

nothing_kept : Dict.get text_discrete key c2.user_values ≡ none
unfolding runs
nothing_kept = refl

get_session-init_session_example :
    ((init_session store cookies key (codes "id-1") c1).0 ≡ ok 0)
    × (get_session store cookies key c2 ≡ finished (ok 0, kept store cookies key 0 c2))
get_session-init_session_example =
    get_session-init_session cache new_propagator key cache-KeepsEntries option-KeepsCookies
      (codes "id-1") c1 c2 refl nothing_kept carried

abbrev two_sessions : Memory (List (Text × ℕ))
two_sessions = record {
  sessions = [];
  expiration = 60;
  heap =
      (0, record { id = codes "a"; values = [] })
      ∷ (1, record { id = codes "b"; values = [] })
      ∷ [];
  allocated = 2;
}

held : Dict.get ℕ_discrete 0 two_sessions.heap ≡ some (record { id = codes "a"; values = [] })
unfolding Dict.get ℕ_discrete
held = refl

one_ne_zero : ◌≢◌ {A = ℕ} 1 0
one_ne_zero e = cc

abbrev plain : List (Text × UserValue ℕ) → Context ℕ ℕ
plain values = record {
  req = (context_with [] [] (fresh, [])).req;
  world = 0;
  resp_data = [];
  resp_status_code = 0;
  path_params = [];
  query_values = none;
  match_route = [];
  user_values = values;
}

nothing_there : Dict.get text_discrete key (plain []).user_values ≡ none
unfolding runs
nothing_there = refl

session_there :
    Dict.get text_discrete key (plain ((key, session 7) ∷ [])).user_values ≡ some (session 7)
unfolding runs
session_there = refl

-- Hashes that keep one field each.
abbrev hashes : Hashes (List (Text × Text))
hashes = record {
  hset = λ hash field v w. (1, Dict.put text_discrete hash v w);
  hget = λ hash field w. answer (Dict.get text_discrete hash w);
  expire = λ k time w. (true, w);
  del = λ k w. (1, Dict.remove text_discrete k w);
  exists = λ k w. 1;
}

hashes-KeepsFields : KeepsFields hashes
hashes-KeepsFields = record {
  apply = λ hash field v w. ap answer (Dict.get-put_self text_discrete hash v w);
}
