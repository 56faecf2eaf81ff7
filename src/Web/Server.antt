-- ===== src/Web/Server.antt =====
-- The server: web/serve.go and web/middleware.go.
pub mod Chain
pub mod Routing
use gotest.Common.{ℕ, zero, suc, Option, none, some, List, [], ◌∷◌, Bool, true, false, length}
use gotest.Common.Text.{Text, codes}
use gotest.Common.Chain.{wrap_from}
use gotest.Web.Router.{Trees, MatchInfo, Outcome, add_route, find_route, handler, route}
use gotest.Web.Context.{Request, Context, Run, finished, panicking, HandleFunc}

-- `type Middleware func(next HandleFunc) HandleFunc`; the call that makes the new function does not
-- panic.
abbrev pub Middleware : Type 0 → Type 0 → Type 0
Middleware W S = HandleFunc W S → HandleFunc W S

pub record HttpServer (W S : Type 0) : Type 0 where
  pub router : Trees (HandleFunc W S)
  pub mdls : List (Middleware W S)

module _ {W S : Type 0} where
  -- `NewHTTPServer` with no options, and `ServerWithMiddleware`.
  abbrev pub new_http_server : HttpServer W S
  new_http_server = record { router = []; mdls = [] }

  abbrev pub server_with_middleware : List (Middleware W S) → HttpServer W S → HttpServer W S
  server_with_middleware mdls h = record h { mdls = mdls }

  abbrev pub not_found : Context W S → Context W S
  not_found c = record c { resp_status_code = 404; resp_data = codes "NOT FOUND" }

  abbrev handle : Option (HandleFunc W S) → MatchInfo (HandleFunc W S) → HandleFunc W S
  handle none info c = finished (not_found c)
  handle (some f) info c =
      f (record c { path_params = info.path_params; match_route = route info.n })

  abbrev served : Option (MatchInfo (HandleFunc W S)) → HandleFunc W S
  served none c = finished (not_found c)
  served (some info) c = handle (handler info.n) info c

  unfoldable pub serve : HttpServer W S → HandleFunc W S
  serve h c = served (find_route h.router c.req.method c.req.path) c

  -- The last middleware of `ServeHTTP`, which calls the next one and does nothing more.
  abbrev last_step : Middleware W S
  last_step next c = next c

  abbrev pub new_context : Request → W → Context W S
  new_context req w = record {
    req = req;
    world = w;
    resp_data = [];
    resp_status_code = 0;
    path_params = [];
    query_values = none;
    match_route = [];
    user_values = [];
  }

  unfoldable pub serve_http : HttpServer W S → Request → W → Run (Context W S)
  unfolding wrap_from serve
  serve_http h req w = last_step (wrap_from h.mdls (length h.mdls) (serve h)) (new_context req w)

  -- `Get`, `Post` and `Options` of the server, which hand the panics of `addRoute` on.
  abbrev register_at :
      Text → Text → Option (HandleFunc W S) → HttpServer W S → Outcome (Trees (HandleFunc W S))
  register_at method path f h = add_route h.router method path f

  unfoldable pub get :
      Text → Option (HandleFunc W S) → HttpServer W S → Outcome (Trees (HandleFunc W S))
  get path f h = register_at (codes "GET") path f h

  unfoldable pub post :
      Text → Option (HandleFunc W S) → HttpServer W S → Outcome (Trees (HandleFunc W S))
  post path f h = register_at (codes "POST") path f h

  unfoldable pub options :
      Text → Option (HandleFunc W S) → HttpServer W S → Outcome (Trees (HandleFunc W S))
  options path f h = register_at (codes "OPTIONS") path f h
