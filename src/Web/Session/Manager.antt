-- ===== src/Web/Session/Manager.antt =====
-- The manager's answers, for any store and propagator.
use gotest.Common.{◌≡◌, ◌∙◌, ap, none, some}
use gotest.Common.Text.{Text, text_discrete}
use gotest.Common.Dict
use gotest.Web.Context.{Context, session, finished}
use gotest.Web.Session.{
  ok, Store, Propagator, get_session, get_kept, get_at, keep, removed, remove_at, remove_session,
  with_world,
}

module _ {W S : Type 0} (store : Store W S) (prop : Propagator W) (sess_ctx_key : Text) where
  -- The context holds the session.
  abbrev pub IsKept : S → Context W S → Type 0
  IsKept s c = Dict.get text_discrete sess_ctx_key c.user_values ≡ some (session s)

  abbrev pub kept : S → Context W S → Context W S
  kept s c = record c {
    user_values = Dict.put text_discrete sess_ctx_key (session s) c.user_values;
  }

  kept_get :
      (s : S) (c : Context W S)
      → IsKept s c
      → get_session store prop sess_ctx_key c ≡ finished (ok s, c)
  unfolding get_session
  kept_get s c h = ap (λ o. get_kept store prop sess_ctx_key o c) h

  -- A session that is found by the request is kept in the context, and the next `GetSession` answers
  -- it from there and changes nothing.
  pub get_session_twice :
      (id : Text) (s : S) (c : Context W S)
      → Dict.get text_discrete sess_ctx_key c.user_values ≡ none
      → prop.extract c.req ≡ ok id
      → store.get id c.world ≡ ok s
      → (get_session store prop sess_ctx_key c ≡ finished (ok s, kept s c))
        × (get_session store prop sess_ctx_key (kept s c) ≡ finished (ok s, kept s c))
  unfolding get_session
  get_session_twice id s c h e g = (
    ap (λ o. get_kept store prop sess_ctx_key o c) h
        ∙ (ap (λ a. get_at store prop sess_ctx_key a c) e
            ∙ ap (λ a. keep store prop sess_ctx_key a c) g),
    kept_get s (kept s c) (Dict.get-put_self text_discrete sess_ctx_key (session s) c.user_values),
  )

  -- After `RemoveSession` succeeded on a context that holds the session, `GetSession` on that context
  -- still answers the session that was removed.
  pub get-remove_session :
      (s : S) (c : Context W S) (w w' : W)
      → IsKept s c
      → store.remove (store.id s c.world) c.world ≡ (none, w)
      → prop.remove w ≡ (none, w')
      → (remove_session store prop sess_ctx_key c ≡ finished (none, record c { world = w' }))
        × (get_session store prop sess_ctx_key (record c { world = w' })
            ≡ finished (ok s, record c { world = w' }))
  unfolding remove_session
  get-remove_session s c w w' h r p = (
    ap (remove_at store prop sess_ctx_key) (kept_get s c h)
        ∙ (ap (λ x. finished (removed store prop sess_ctx_key x c)) r
            ∙ ap (λ x. finished (with_world store prop sess_ctx_key x c)) p),
    kept_get s (record c { world = w' }) h,
  )
