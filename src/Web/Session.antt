-- ===== src/Web/Session.antt =====
-- Sessions of the web framework: web/session/types.go, manager.go and cookie/propagator.go.
pub mod Manager
pub mod Memory
pub mod Redis
pub mod Stack
mod Tests
use gotest.Common.{ℕ, Option, none, some, List, [], ◌∷◌}
use gotest.Common.Text.{Text, codes, text_discrete}
use gotest.Common.Dict
use gotest.Web.Context.{Request, Context, UserValue, session, other, Run, finished, panicking}

-- A result `(A, error)`; the value beside an error is not used. Errors are numbers.
pub data Answer (A : Type 0) : Type 0 where
  ok : A → Answer A
  failed : ℕ → Answer A

-- The interfaces `Store` and `Propagator`, and `ID` of `Session`. `W` is their state.
pub record Store (W S : Type 0) : Type 0 where
  pub generate : Text → W → Answer S × W
  pub refresh : Text → W → Option ℕ × W
  pub remove : Text → W → Option ℕ × W
  pub get : Text → W → Answer S
  pub id : S → W → Text

pub record Propagator (W : Type 0) : Type 0 where
  pub inject : Text → W → Option ℕ × W
  pub extract : Request → Answer Text
  pub remove : W → Option ℕ × W

-- `type Manager struct`, with the value of `uuid.New()` as an argument of `InitSession`.
module _ {W S : Type 0} (store : Store W S) (prop : Propagator W) (sess_ctx_key : Text) where
  abbrev keep : Answer S → Context W S → Run (Answer S × Context W S)
  keep (ok s) c = finished (
    ok s,
    record c { user_values = Dict.put text_discrete sess_ctx_key (session s) c.user_values },
  )
  keep (failed e) c = finished (failed e, c)

  abbrev get_at : Answer Text → Context W S → Run (Answer S × Context W S)
  get_at (ok id) c = keep (store.get id c.world) c
  get_at (failed e) c = finished (failed e, c)

  -- The type assertion panics on another value.
  abbrev get_kept : Option (UserValue S) → Context W S → Run (Answer S × Context W S)
  get_kept (some (session s)) c = finished (ok s, c)
  get_kept (some (other n)) c = panicking (failed 0, c)
  get_kept none c = get_at (prop.extract c.req) c

  unfoldable pub get_session : Context W S → Run (Answer S × Context W S)
  get_session c = get_kept (Dict.get text_discrete sess_ctx_key c.user_values) c

  abbrev injected : S → Option ℕ × W → Context W S → Answer S × Context W S
  injected s (none, w) c = (ok s, record c { world = w })
  injected s (some e, w) c = (failed e, record c { world = w })

  abbrev init_at : Text → Answer S × W → Context W S → Answer S × Context W S
  init_at id (ok s, w) c = injected s (prop.inject id w) c
  init_at id (failed e, w) c = (failed e, record c { world = w })

  unfoldable pub init_session : Text → Context W S → Answer S × Context W S
  init_session id c = init_at id (store.generate id c.world) c

  abbrev with_world : Option ℕ × W → Context W S → Option ℕ × Context W S
  with_world (e, w) c = (e, record c { world = w })

  abbrev removed : Option ℕ × W → Context W S → Option ℕ × Context W S
  removed (none, w) c = with_world (prop.remove w) c
  removed (some e, w) c = (some e, record c { world = w })

  abbrev remove_at : Run (Answer S × Context W S) → Run (Option ℕ × Context W S)
  remove_at (finished (ok s, c)) = finished (removed (store.remove (store.id s c.world) c.world) c)
  remove_at (finished (failed e, c)) = finished (some e, c)
  remove_at (panicking (a, c)) = panicking (none, c)

  unfoldable pub remove_session : Context W S → Run (Option ℕ × Context W S)
  unfolding get_session
  remove_session c = remove_at (get_session c)

  abbrev refresh_at : Run (Answer S × Context W S) → Run (Option ℕ × Context W S)
  refresh_at (finished (ok s, c)) =
      finished (with_world (store.refresh (store.id s c.world) c.world) c)
  refresh_at (finished (failed e, c)) = finished (some e, c)
  refresh_at (panicking (a, c)) = panicking (none, c)

  unfoldable pub refresh_session : Context W S → Run (Option ℕ × Context W S)
  unfolding get_session
  refresh_session c = refresh_at (get_session c)

-- cookie/propagator.go: a cookie of the response is its name, its value and `MaxAge`, where
-- `expired` is -1. `set_cookie` is `http.SetCookie`, and `cookie_option` what the option does.
pub record Cookie : Type 0 where
  pub name : Text
  pub value : Text
  pub expired : Option ℕ

pub record CookiePropagator : Type 0 where
  pub cookie_name : Text
  pub cookie_option : Cookie → Cookie

abbrev pub new_propagator : CookiePropagator
new_propagator = record { cookie_name = codes "sessId"; cookie_option = λ c. c }

abbrev pub with_cookie_name : Text → CookiePropagator → CookiePropagator
with_cookie_name name p = record p { cookie_name = name }

-- `http.ErrNoCookie`
abbrev pub no_cookie : ℕ
no_cookie = 1

abbrev cookie_value : Option Text → Answer Text
cookie_value (some v) = ok v
cookie_value none = failed no_cookie

module _ {W : Type 0} (set_cookie : Cookie → W → W) where
  unfoldable pub cookie_propagator : CookiePropagator → Propagator W
  cookie_propagator p = record {
    inject = λ id w. (
      none,
      set_cookie (p.cookie_option (record { name = p.cookie_name; value = id; expired = none })) w,
    );
    extract = λ req. cookie_value (Dict.get text_discrete p.cookie_name req.cookies);
    remove =
        λ w. (none, set_cookie (record { name = p.cookie_name; value = []; expired = some 1 }) w);
  }
