-- ===== src/Web/Server/Routing.antt =====
-- What `serve` does with the router's answer.
use gotest.Common.{◌≡◌, ◌≢◌, ◌∙◌, refl, ap, Option, none, some, []}
use gotest.Common.Text.{Text, codes}
use gotest.Web.Router.{Trees, MatchInfo, done, find_route, handler, route}
use gotest.Web.Router.Insert.{bind, Reaches}
use gotest.Web.Router.Routes.{segments, request_segments, tree, find_route-add_route}
use gotest.Web.Context.{Request, Context, finished, HandleFunc}
use gotest.Web.Server.{
  HttpServer, serve, served, handle, get, not_found, serve_http, new_context,
  server_with_middleware,
}

module _ {W S : Type 0} where
  handle_lem :
      (o : Option (HandleFunc W S)) (f : HandleFunc W S) (i : MatchInfo (HandleFunc W S))
      → (c : Context W S) → o ≡ some f
      → handle o i c ≡ f (record c { path_params = i.path_params; match_route = route i.n })
  handle_lem none f i c e = cc
  handle_lem (some g) f i c e = ap (λ k. handle k i c) e

  -- After `Get` of the server registered a handler for a path other than `/`, a GET request that
  -- instantiates the path runs that handler, on a context that has the path's parameters bound and
  -- the path as the matched route, and is the given one otherwise.
  pub serve-get :
      (h : HttpServer W S) (trees : Trees (HandleFunc W S)) (path : Text) (f : HandleFunc W S)
      → (c : Context W S) → get path (some f) h ≡ done trees
      → path ≢ codes "/"
      → c.req.method ≡ codes "GET"
      → c.req.path ≢ codes "/"
      → Reaches (segments path) (request_segments c.req.path) (tree h.router (codes "GET"))
      → serve (record h { router = trees }) c
        ≡ f (record c {
          path_params = bind (segments path) (request_segments c.req.path) [];
          match_route = path;
        })
  unfolding serve get
  serve-get h trees path f c e p m q reach =
      let (leaf, found, handled, routed) =
        find_route-add_route h.router trees (codes "GET") path c.req.path (some f) e p q reach in
      ap (λ o. served o c) (ap (λ method. find_route trees method c.req.path) m ∙ found)
      ∙ (handle_lem (handler leaf) f _ c handled
          ∙ ap
              (λ r. f (record c {
                path_params = bind (segments path) (request_segments c.req.path) [];
                match_route = r;
              }))
              routed)

  -- The handler of what the router found.
  abbrev pub found_handler : Option (MatchInfo (HandleFunc W S)) → Option (HandleFunc W S)
  found_handler none = none
  found_handler (some i) = handler i.n

  served_none :
      (o : Option (MatchInfo (HandleFunc W S))) (c : Context W S)
      → found_handler o ≡ none
      → served o c ≡ finished (not_found c)
  served_none none c e = refl
  served_none (some i) c e = ap (λ k. handle k i c) e

  -- On a server without middlewares, a request that no route matches, or one that matches a node
  -- without a handler, gets the status 404 and its text in the context only: the response writer
  -- is left as it was.
  pub serve_http_not_found :
      (h : HttpServer W S) (req : Request) (w : W)
      → found_handler (find_route h.router req.method req.path) ≡ none
      → serve_http (server_with_middleware [] h) req w ≡ finished (not_found (new_context req w))
  unfolding serve serve_http
  serve_http_not_found h req w e =
      served_none (find_route h.router req.method req.path) (new_context req w) e
