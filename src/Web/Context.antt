-- ===== src/Web/Context.antt =====
-- The context of a request: web/context.go and web/template.go. `W` is everything outside of the
-- context: the response writer, logs, files, stores. `S` is the type of sessions.
pub mod Values
use gotest.Common.{ℕ, Option, none, some, List, [], ◌∷◌, Bool, true, false}
use gotest.Common.Text.{Text, codes, text_discrete}
use gotest.Common.Dict

-- What of `http.Request` the framework reads, as net/http parsed it: `URL.Query()`, the form or the
-- error of `ParseForm`, and the body, which can be nil.
pub record Request : Type 0 where
  pub method : Text
  pub path : Text
  pub host : Text
  pub query : List (Text × List Text)
  pub form : Option (List (Text × List Text))
  pub body : Option Text
  pub cookies : List (Text × Text)

-- A value of `map[string]any`: a session or another value.
pub data UserValue (S : Type 0) : Type 0 where
  session : S → UserValue S
  other : ℕ → UserValue S

pub record Context (W S : Type 0) : Type 0 where
  pub req : Request
  pub world : W
  pub resp_data : Text
  pub resp_status_code : ℕ
  pub path_params : List (Text × Text)
  pub query_values : Option (List (Text × List Text))
  pub match_route : Text
  pub user_values : List (Text × UserValue S)

-- A call that returns, or one that panics, with what it left.
pub data Run (A : Type 0) : Type 0 where
  finished panicking : A → Run A

-- `type HandleFunc func(ctx *Context)`
abbrev pub HandleFunc : Type 0 → Type 0 → Type 0
HandleFunc W S = Context W S → Run (Context W S)

pub data WebError : Type 0 where
  key_missing nil_input nil_body form_error : WebError
  outer_error : ℕ → WebError

pub record StringValue : Type 0 where
  pub value : Text
  pub err : Option WebError

-- What the context calls of net/http, encoding/json, strconv and a template engine: errors are
-- numbers.
pub record Outside (W V : Type 0) : Type 0 where
  pub write_header : ℕ → W → W
  pub write : Text → W → Option ℕ × W
  pub set_cookie : Text → Text → W → W
  pub marshal : V → Text × Option ℕ
  pub decode : Text → V × Option ℕ
  pub render : Text → V → Text × Option ℕ
  pub parse_int : Text → ℕ × Option ℕ

abbrev as_error : Option ℕ → Option WebError
as_error none = none
as_error (some n) = some (outer_error n)

-- `vals[0]` panics without a value.
abbrev first_value : Option (List Text) → Run StringValue
first_value none = finished (record { value = []; err = some key_missing })
first_value (some (v ∷ vs)) = finished (record { value = v; err = none })
first_value (some []) = panicking (record { value = []; err = none })

abbrev pub param_value : Option Text → StringValue
param_value (some v) = record { value = v; err = none }
param_value none = record { value = []; err = some key_missing }

-- `AsInt64`
unfoldable pub as_int64 : (Text → ℕ × Option ℕ) → StringValue → ℕ × Option WebError
as_int64 parse_int s = elim s.err [
  | some e ↦ (0, some e)
  | none ↦ ((parse_int s.value).0, as_error (parse_int s.value).1)
]

abbrev form_at : Option (List (Text × List Text)) → Text → Run StringValue
form_at none key = finished (record { value = []; err = some form_error })
form_at (some form) key = first_value (Dict.get text_discrete key form)

module _ {W V : Type 0} (outside : Outside W V) where
  -- The body as the decoder finds it.
  abbrev decoded : Option Text → V → V × Option WebError
  decoded none v = (v, some nil_body)
  decoded (some body) v = ((outside.decode body).0, as_error (outside.decode body).1)

module _ {W S : Type 0} where
  abbrev known : Option (List (Text × List Text)) → Context W S → List (Text × List Text)
  known none c = c.req.query
  known (some q) c = q

  -- `QueryValue`: the parsed query stays in the context.
  unfoldable pub query_value : Text → Context W S → Run StringValue × Context W S
  query_value key c =
      let values = known c.query_values c in
      (first_value (Dict.get text_discrete key values), record c { query_values = some values })

  -- `FormValue`
  unfoldable pub form_value : Text → Context W S → Run StringValue
  form_value key c = form_at c.req.form key

  -- `PathValue`
  unfoldable pub path_value : Text → Context W S → StringValue
  path_value key c = param_value (Dict.get text_discrete key c.path_params)

  module _ {V : Type 0} (outside : Outside W V) where
    abbrev rendered : Text × Option ℕ → Context W S → Option WebError × Context W S
    rendered (data_of, some e) c = (some (outer_error e), record c { resp_status_code = 500 })
    rendered (data_of, none) c = (none, record c { resp_data = data_of; resp_status_code = 200 })

    -- `Render`
    unfoldable pub render : Text → V → Context W S → Option WebError × Context W S
    render name v c = rendered (outside.render name v) c

    abbrev json_written : ℕ → Text → Option ℕ × W → Context W S → Option WebError × Context W S
    json_written status text (e, w) c =
        (as_error e, record c { world = w; resp_data = text; resp_status_code = status })

    abbrev json_at : ℕ → Text × Option ℕ → Context W S → Option WebError × Context W S
    json_at status (text, some e) c = (some (outer_error e), c)
    json_at status (text, none) c =
        json_written status text (outside.write text (outside.write_header status c.world)) c

    -- `RespJSON` and `RespJSONOK`
    unfoldable pub resp_json : ℕ → V → Context W S → Option WebError × Context W S
    resp_json status v c = json_at status (outside.marshal v) c

    unfoldable pub resp_json_ok : V → Context W S → Option WebError × Context W S
    unfolding resp_json
    resp_json_ok v c = resp_json 200 v c

    -- `SetCookie`
    unfoldable pub set_cookie : Text → Text → Context W S → Context W S
    set_cookie name value c = record c { world = outside.set_cookie name value c.world }

    -- `BindJSON` into a pointer, which can be nil: the value it points to afterwards.
    unfoldable pub bind_json : Option V → Context W S → Option V × Option WebError
    bind_json none c = (none, some nil_input)
    bind_json (some v) c = (some (decoded outside c.req.body v).0, (decoded outside c.req.body v).1)
