-- ===== src/Web/Tests.antt =====
-- Witnesses for the server and the middlewares, where what is outside of a context is a log.
use gotest.Common.{ℕ, ◌≡◌, ◌≢◌, refl, none, some, List, [], ◌∷◌, ◌++◌}
use gotest.Common.Text.{Text, codes, text_discrete, split, trim}
use gotest.Common.Chain.{chain}
use gotest.Common.Dict
use native.Mathlib.Decide.{ℕ_discrete}
use gotest.Web.Router.{Trees, Outcome, done, panic, add_route, find_route}
use gotest.Web.Router
use gotest.Web.Router.Insert.{bind}
use gotest.Web.Router.Routes.{segments, request_segments}
use gotest.Web.Context.{Request, Context, finished, panicking, HandleFunc}
use gotest.Web.Server.{
  Middleware, HttpServer, new_http_server, server_with_middleware, not_found, serve, new_context,
  serve_http, get,
}
use gotest.Web.Server
use gotest.Web.Server.Routing
use gotest.Web.Server.Chain.{serve_http-chain}
use gotest.Web.Server.Routing.{serve-get, serve_http_not_found}
use gotest.Web.Middlewares.{recovering}
use gotest.Web.Middlewares.Order.{serve_http_recovers}

runs : Unit {0}
unfolding Server.get Router.add_route Router.find_route Router.insert Router.walk Router.child_of
    Router.child_or_create Router.kind Router.put_child Router.get_child Dict.get Dict.put split
    trim text_discrete ℕ_discrete
runs = tt

abbrev Log : Type 0
Log = List Text

abbrev request : Text → Request
request path = record {
  method = codes "GET";
  path = path;
  host = codes "localhost";
  query = (codes "a", codes "1" ∷ []) ∷ [];
  form = none;
  body = none;
  cookies = [];
}

abbrev show_id : HandleFunc Log ℕ
show_id c = finished (record c { resp_data = codes "user"; resp_status_code = 200 })

abbrev fall : HandleFunc Log ℕ
fall c = panicking c

abbrev trees_of : Outcome (Trees (HandleFunc Log ℕ)) → Trees (HandleFunc Log ℕ)
trees_of (done r) = r
trees_of (panic m r) = r

abbrev bare : HttpServer Log ℕ
bare = new_http_server

abbrev user_id : Text
user_id = codes "/user/:id"

abbrev table : Trees (HandleFunc Log ℕ)
table = trees_of (get user_id (some show_id) bare)

abbrev asking : Context Log ℕ
asking = new_context (request (codes "/user/42")) []

registered : get user_id (some show_id) bare ≡ done table
unfolding runs
registered = refl

not_root : user_id ≢ codes "/"
not_root e = cc

not_root_request : codes "/user/42" ≢ codes "/"
not_root_request e = cc

serve-get_example :
    serve (record bare { router = table }) asking
    ≡ show_id (record asking {
      path_params = bind (segments user_id) (request_segments (codes "/user/42")) [];
      match_route = user_id;
    })
unfolding runs
serve-get_example =
    serve-get bare table user_id show_id asking registered not_root refl not_root_request
      (refl, (refl, tt))

missing : Routing.found_handler (find_route bare.router (codes "GET") (codes "/none")) ≡ none
unfolding runs
missing = refl

abbrev noting : Text → Middleware Log ℕ
noting name next c = next (record c { world = c.world ++ name ∷ [] })

serve_http-chain_example :
    serve_http
      (server_with_middleware (noting (codes "a") ∷ noting (codes "b") ∷ []) bare)
      (request (codes "/none"))
      []
    ≡ chain
        (noting (codes "a") ∷ noting (codes "b") ∷ [])
        (serve (server_with_middleware (noting (codes "a") ∷ noting (codes "b") ∷ []) bare))
        (new_context (request (codes "/none")) [])
serve_http-chain_example =
    serve_http-chain (server_with_middleware (noting (codes "a") ∷ noting (codes "b") ∷ []) bare)
      (request (codes "/none")) []

serve_http_recovers_example :
    (c : Context Log ℕ) × (serve_http
        (server_with_middleware (recovering 500 (codes "oops") finished ∷ (λ next. fall) ∷ []) bare)
        (request (codes "/none"))
        []
      ≡ finished c)
serve_http_recovers_example =
    serve_http_recovers bare 500 (codes "oops") finished ((λ next. fall) ∷ [])
      (request (codes "/none")) [] (record { apply = λ c. (c, refl) })
