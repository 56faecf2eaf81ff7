-- ===== src/Web/Middlewares/Order.antt =====
-- What the order of the middlewares does.
use gotest.Common.{ℕ, ◌≡◌, ◌∙◌, refl, ap, List, [], ◌∷◌}
use gotest.Common.Text.{Text}
use gotest.Common.Dict
use native.Mathlib.Decide.{ℕ_discrete}
use gotest.Web.Context.{Request, Context, Run, finished, panicking, HandleFunc}
use gotest.Web.Server.{
  Middleware, HttpServer, serve, serve_http, new_context, server_with_middleware,
}
use gotest.Web.Server.Chain.{serve_http-chain}
use gotest.Common.Chain.{chain}
use gotest.Web.Middlewares.{
  AccessLog, error_handling, replaced, recovering, recovered, access_log, logged, add_code,
}

module _ {W S : Type 0} where
  -- A handler that never panics.
  pub record Returns (f : HandleFunc W S) : Type 0 where
    pub apply : (c : Context W S) → (d : Context W S) × (f c ≡ finished d)

  recovered_finished :
      (status : ℕ) (text : Text) (log : HandleFunc W S) (r : Run (Context W S))
      → Returns log
      → (c : Context W S) × (recovered status text log r ≡ finished c)
  recovered_finished status text log (finished c) k = (c, refl)
  recovered_finished status text log (panicking c) k =
      k.apply (record c { resp_data = text; resp_status_code = status })

  -- With the recovering middleware outermost and a `Log` that does not panic, no request makes
  -- `ServeHTTP` panic, whatever the functions that the other middlewares make, the handlers and the
  -- routes do, where no middleware panics when it is applied to the next function.
  pub serve_http_recovers :
      (h : HttpServer W S) (status : ℕ) (text : Text) (log : HandleFunc W S)
      → (mdls : List (Middleware W S)) (req : Request) (w : W) → Returns log
      → (c : Context W S) × (serve_http
            (server_with_middleware (recovering status text log ∷ mdls) h)
            req
            w
          ≡ finished c)
  unfolding recovering chain
  serve_http_recovers h status text log mdls req w k =
      let served = server_with_middleware (recovering status text log ∷ mdls) h in
      let (c, same) =
        recovered_finished status text log (chain mdls (serve served) (new_context req w)) k in
      (c, serve_http-chain served req w ∙ same)

  -- Where the rest of the chain panics, the access log inside the recovering middleware still writes
  -- one line, with the request and the route as the panic left them; the answer is the configured
  -- one, or what the error handling outside of both keeps for its status.
  pub panic_answer :
      (resp : List (ℕ × Text)) (status : ℕ) (text page : Text) (marshal : AccessLog → Text)
      → (log_func : Text → W → W) (next : HandleFunc W S) (c d : Context W S) → next c ≡ panicking d
      → chain
          (error_handling (add_code status page resp)
            ∷ recovering status text finished
            ∷ access_log marshal log_func
            ∷ [])
          next
          c
        ≡ finished
            (record (logged marshal log_func d) { resp_data = page; resp_status_code = status })
  unfolding chain error_handling recovering access_log
  panic_answer resp status text page marshal log_func next c d e = rw e (
      ap
        (λ o. finished (
          replaced o
            (record (logged marshal log_func d) { resp_data = text; resp_status_code = status })))
        (Dict.get-put_self ℕ_discrete status page resp))
