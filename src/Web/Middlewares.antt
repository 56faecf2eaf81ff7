-- ===== src/Web/Middlewares.antt =====
-- The middlewares of web/middlewares: errhdl, recover, accesslog and prometheus.
pub mod Order
use gotest.Common.{ℕ, Option, none, some, List, [], ◌∷◌, ite}
use gotest.Common.Text.{Text, codes, text_discrete}
use gotest.Common.Dict
use native.Mathlib.Decide.{ℕ_discrete}
use gotest.Web.Context.{Request, Context, Run, finished, panicking, HandleFunc}
use gotest.Web.Server.{Middleware}

-- The `accesslog` of the package accesslog.
pub record AccessLog : Type 0 where
  pub host : Text
  pub route : Text
  pub http_method : Text
  pub path : Text

-- errhdl: `NewMiddlewareBuild`, `AddCode` which `Builder` reads.
abbrev pub new_middleware_build : List (ℕ × Text)
new_middleware_build = []

abbrev pub add_code : ℕ → Text → List (ℕ × Text) → List (ℕ × Text)
add_code status text resp = Dict.put ℕ_discrete status text resp

abbrev pattern_of : Text → Text
pattern_of [] = codes "unknown"
pattern_of (b ∷ s) = b ∷ s

module _ {W S : Type 0} where
  -- A deferred function runs when the call returns and when it panics, and the panic goes on.
  abbrev pub deferred : (Context W S → Context W S) → Run (Context W S) → Run (Context W S)
  deferred f (finished c) = finished (f c)
  deferred f (panicking c) = panicking (f c)

  abbrev pub replaced : Option Text → Context W S → Context W S
  replaced none c = c
  replaced (some text) c = record c { resp_data = text }

  -- errhdl: `Builder`.
  abbrev handled : List (ℕ × Text) → Run (Context W S) → Run (Context W S)
  handled resp (finished c) = finished (replaced (Dict.get ℕ_discrete c.resp_status_code resp) c)
  handled resp (panicking c) = panicking c

  unfoldable pub error_handling : List (ℕ × Text) → Middleware W S
  error_handling resp next c = handled resp (next c)

  -- recover: `Log` is the caller's; it can panic, as it does where it is nil.
  abbrev recovered : ℕ → Text → HandleFunc W S → Run (Context W S) → Run (Context W S)
  recovered status text log (finished c) = finished c
  recovered status text log (panicking c) =
      log (record c { resp_data = text; resp_status_code = status })

  unfoldable pub recovering : ℕ → Text → HandleFunc W S → Middleware W S
  recovering status text log next c = recovered status text log (next c)

  -- accesslog: `marshal` is `json.Marshal` and `log_func` the function that `LogFunc` sets.
  abbrev pub logged : (AccessLog → Text) → (Text → W → W) → Context W S → Context W S
  logged marshal log_func c = record c {
    world =
        log_func
          (marshal (record {
            host = c.req.host;
            route = c.match_route;
            http_method = c.req.method;
            path = c.req.path;
          }))
          c.world;
  }

  unfoldable pub access_log : (AccessLog → Text) → (Text → W → W) → Middleware W S
  access_log marshal log_func next c = deferred (logged marshal log_func) (next c)

  -- prometheus: `observe` records the time that has passed under the labels.
  abbrev observed : (Text → Text → ℕ → W → W) → Context W S → Context W S
  observed observe c = record c {
    world = observe (pattern_of c.match_route) c.req.method c.resp_status_code c.world;
  }

  unfoldable pub observing : (Text → Text → ℕ → W → W) → Middleware W S
  observing observe next c = deferred (observed observe) (next c)
