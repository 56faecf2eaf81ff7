-- ===== src/Web/Server/Chain.antt =====
-- The chain of middlewares that `ServeHTTP` builds.
use gotest.Common.{◌≡◌, ap}
use gotest.Common.Chain.{chain, wrap_from-chain}
use gotest.Web.Context.{Request}
use gotest.Web.Server.{HttpServer, serve, serve_http, new_context}

module _ {W S : Type 0} where
  -- `ServeHTTP` runs the middlewares around `serve` with the first one outermost, on a context that
  -- holds the request and nothing else.
  pub serve_http-chain :
      (h : HttpServer W S) (req : Request) (w : W)
      → serve_http h req w ≡ chain h.mdls (serve h) (new_context req w)
  unfolding serve_http
  serve_http-chain h req w = ap (λ f. f (new_context req w)) (wrap_from-chain h.mdls (serve h))
