-- ===== src/Web/Session/Stack.antt =====
-- The manager over the store in memory and the cookies.
use gotest.Common.{ℕ, ◌≡◌, ◌≢◌, ◌∙◌, refl, ap, Option, none, some, List, [], ◌∷◌, if_pos}
use gotest.Common.Text.{Text, text_discrete}
use gotest.Common.Dict
use native.Mathlib.Decide.{ℕ_discrete}
use gotest.Web.Context.{Context, finished}
use gotest.Web.Session.{
  ok, Store, Cookie, CookiePropagator, cookie_propagator, get_session, init_session, cookie_value,
}
use gotest.Web.Session.Memory.{
  TimedCache, Session, Memory, generate, found, load_from, store_in, loaded, get_value, set_value,
}
use gotest.Web.Session.Memory
use gotest.Web.Session.Manager.{kept, get_session_twice}

-- The memory and the cookies of the response.
abbrev pub World : Type 0 → Type 0
World C = Memory C × List Cookie

abbrev with_cookies : {A C : Type 0} → List Cookie → A × Memory C → A × World C
with_cookies cs (a, m) = (a, (m, cs))

abbrev pub set_cookie : {C : Type 0} → Cookie → World C → World C
set_cookie k (m, cs) = (m, k ∷ cs)

abbrev pub memory_store : {C : Type 0} → TimedCache C → Store (World C) ℕ
memory_store cache = record {
  generate = λ id w. with_cookies w.1 (Memory.generate cache id w.0);
  refresh = λ id w. with_cookies w.1 (Memory.refresh cache id w.0);
  remove = λ id w. with_cookies w.1 (Memory.remove cache id w.0);
  get = λ id w. Memory.get cache id w.0;
  id = λ p w. Memory.id cache p w.0;
}

-- An entry of the cache that has not expired is found.
pub record KeepsEntries {C : Type 0} (cache : TimedCache C) : Type 0 where
  pub apply :
      (id : Text) (p expiration : ℕ) (c : C) → cache.get id (cache.set id p expiration c) ≡ some p

-- The cookies that a client sends with its next request, for those that it was answered, the last
-- one first: one that has expired takes the earlier ones of its name with it.
abbrev sent_one : Option ℕ → Cookie → List (Text × Text) → List (Text × Text)
sent_one none k rest = (k.name, k.value) ∷ rest
sent_one (some n) k rest = Dict.remove text_discrete k.name rest

unfoldable pub sent_back : List Cookie → List (Text × Text)
sent_back [] = []
sent_back (k ∷ ks) = sent_one k.expired k (sent_back ks)

-- The option leaves a cookie's name, value and `MaxAge` alone, such as one that sets its path.
pub record KeepsCookies (prop : CookiePropagator) : Type 0 where
  pub name : (k : Cookie) → (prop.cookie_option k).name ≡ k.name
  pub value : (k : Cookie) → (prop.cookie_option k).value ≡ k.value
  pub expired : (k : Cookie) → (prop.cookie_option k).expired ≡ k.expired

get-sent_back :
    (k : Cookie) (ks : List Cookie) (n v : Text)
    → k.name ≡ n
    → k.value ≡ v
    → k.expired ≡ none
    → Dict.get text_discrete n (sent_back (k ∷ ks)) ≡ some v
unfolding sent_back Dict.get
get-sent_back k ks n v p q e =
    ap (λ o. Dict.get text_discrete n (sent_one o k (sent_back ks))) e
    ∙ (if_pos (text_discrete k.name n) p _ _ ∙ ap some q)

module _ {C : Type 0} (cache : TimedCache C) (prop : CookiePropagator) (sess_ctx_key : Text) where
  -- `InitSession` answers the new session, and before its entry expires a request with the cookies
  -- that the client was answered, `InitSession`'s the last, and with no session yet, finds that
  -- session, where the cookie's option leaves its name, its value and its `MaxAge` alone.
  pub get_session-init_session :
      (keeps : KeepsEntries cache) (option : KeepsCookies prop) (id : Text)
      (c d : Context (World C) ℕ)
      → d.world
        ≡ (init_session
            (memory_store cache)
            (cookie_propagator set_cookie prop)
            sess_ctx_key
            id
            c).1.world
      → Dict.get text_discrete sess_ctx_key d.user_values ≡ none
      → d.req.cookies ≡ sent_back d.world.1
      → ((init_session (memory_store cache) (cookie_propagator set_cookie prop) sess_ctx_key id c).0
          ≡ ok c.world.0.allocated)
        × (get_session (memory_store cache) (cookie_propagator set_cookie prop) sess_ctx_key d
            ≡ finished (
              ok c.world.0.allocated,
              kept
                  (memory_store cache)
                  (cookie_propagator set_cookie prop)
                  sess_ctx_key
                  c.world.0.allocated
                  d,
            ))
  unfolding init_session cookie_propagator Memory.generate Memory.get
  get_session-init_session keeps option id c d w h e =
      let k : Cookie = record { name = prop.cookie_name; value = id; expired = none } in
      let carried : Dict.get text_discrete prop.cookie_name d.req.cookies ≡ some id =
        ap (Dict.get text_discrete prop.cookie_name) (e ∙ ap (λ v. sent_back v.1) w)
        ∙ get-sent_back (prop.cookie_option k) c.world.1 prop.cookie_name id (option.name k)
            (option.value k) (option.expired k) in
      (
        refl,
        (get_session_twice (memory_store cache) (cookie_propagator set_cookie prop) sess_ctx_key id
            c.world.0.allocated d h (ap cookie_value carried)
            (ap (λ v. Memory.get cache id v.0) w
              ∙ ap (found cache)
                  (keeps.apply id c.world.0.allocated c.world.0.expiration c.world.0.sessions))).0,
      )

module _ {C : Type 0} (cache : TimedCache C) where
  -- What is set in a session in memory is read back from it, and no other session's values change.
  pub get_value-set_value_memory :
      (m : Memory C) (p q : ℕ) (key other_key v : Text) (s : Session)
      → Dict.get ℕ_discrete p m.heap ≡ some s
      → q ≢ p
      → (get_value cache p key (set_value cache p key v m) ≡ ok v)
        × (get_value cache q other_key (set_value cache p key v m) ≡ get_value cache q other_key m)
  unfolding get_value set_value
  get_value-set_value_memory m p q key other_key v s h d = rw h (
    ap (λ o. load_from cache o key) (Dict.get-put_self ℕ_discrete p _ m.heap)
        ∙ ap (loaded cache) (Dict.get-put_self text_discrete key v s.values),
    ap (λ o. load_from cache o other_key) (Dict.get-put_ne ℕ_discrete p _ m.heap q d),
  )
