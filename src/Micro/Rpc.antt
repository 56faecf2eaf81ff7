-- ===== src/Micro/Rpc.antt =====
-- Remote calls: micro/rpc/server.go and client.go, over the messages of tcp.go. JSON and reflection
-- are parameters.
pub mod Calls
mod Tests
use gotest.Common.{ℕ, zero, suc, Option, none, some, List, [], ◌∷◌, ◌++◌, Bool, true, false, map}
use gotest.Common.Text.{Text, text_discrete}
use gotest.Common.Dict
use gotest.Micro.Frames.{Conn, read_msg, encode_msg}

-- A result with an error, or a panic.
pub data Result (A : Type 0) : Type 0 where
  ok : A → Result A
  failed : ℕ → Result A
  panicked : Result A

abbrev pub bind : {A B : Type 0} → Result A → (A → Result B) → Result B
bind (ok a) f = f a
bind (failed e) f = failed e
bind panicked f = panicked

-- `Request`, of which the server reads these fields.
pub record Request : Type 0 where
  pub service_name : Text
  pub method_name : Text
  pub data_of : Text

-- `encoding/json` for requests.
pub record Json : Type 0 where
  pub marshal : Request → Result Text
  pub unmarshal : Text → Result Request

-- A method by reflection, on values `Q` and `P` of any types: `json.Unmarshal` into a new request,
-- which keeps what it can on an error; the call; and `json.Marshal` of the response.
pub record Method (Q P : Type 0) : Type 0 where
  pub decode : Text → Q
  pub call : Q → P × Option ℕ
  pub encode : P → Result Text

-- `reflectStub`: the method of a name, if there is one.
abbrev pub Stub : Type 0 → Type 0 → Type 0
Stub Q P = Text → Option (Method Q P)

-- `type Server struct`
abbrev pub Server : Type 0 → Type 0 → Type 0
Server Q P = List (Text × Stub Q P)

-- `errors.New` of `Invoke`
abbrev pub no_service : ℕ
no_service = 1

-- What a call's result makes of a turn of `handleConn`.
abbrev pub written : Result Text → (Conn → List Text × Result Text) → Conn → List Text × Result Text
written (failed e) rest conn = ([], failed e)
written panicked rest conn = ([], panicked)
written (ok res) rest conn = (encode_msg res ∷ (rest conn).0, (rest conn).1)

module _ {Q P : Type 0} where
  abbrev pub called : Method Q P → P × Option ℕ → Result Text
  called m (resp, some e) = failed e
  called m (resp, none) = m.encode resp

  abbrev pub invoke_at : Option (Method Q P) → Text → Result Text
  invoke_at none text = panicked
  invoke_at (some m) text = called m (m.call (m.decode text))

  -- `Invoke` of `reflectStub`: without such a method, `m.Type()` panics.
  unfoldable pub stub_invoke : Stub Q P → Text → Text → Result Text
  stub_invoke stub method text = invoke_at (stub method) text

  abbrev pub new_server : Server Q P
  new_server = []

  -- `RegisterService`
  unfoldable pub register_service : Text → Stub Q P → Server Q P → Server Q P
  register_service name stub s = Dict.put text_discrete name stub s

  abbrev pub found : Option (Stub Q P) → Request → Result Text
  found none req = failed no_service
  found (some stub) req = stub_invoke stub req.method_name req.data_of

  -- `Invoke` of the server; the response is its data.
  unfoldable pub invoke : Server Q P → Request → Result Text
  unfolding stub_invoke
  invoke s req = found (Dict.get text_discrete req.service_name s) req

  -- `handleConn`: the loop until a read, a call or a write fails or something panics, at most as
  -- often as the fuel says; what it writes, and how it ends.
  abbrev pub handled :
      Json
      → Server Q P
      → Option (Text × Conn)
      → (Conn → List Text × Result Text)
      → List Text × Result Text
  handled json s none rest = ([], failed 0)
  handled json s (some (msg, conn)) rest = written (bind (json.unmarshal msg) (invoke s)) rest conn

  unfoldable pub handle_conn : Json → Server Q P → ℕ → Conn → List Text × Result Text
  unfolding invoke
  handle_conn json s zero conn = ([], ok [])
  handle_conn json s (suc fuel) conn = handled json s (read_msg conn) (handle_conn json s fuel)

-- `Invoke` of the client: what it writes to its connection, and the response's data from what
-- arrives, for a connection that the pool gives and that takes the request.
abbrev pub received : Option (Text × Conn) → Result Text
received none = failed 0
received (some (res, conn)) = ok res

unfoldable pub send : Conn → Result Text
send arriving = received (read_msg arriving)

abbrev pub client_request : Json → Request → Result Text
client_request json req = bind (json.marshal req) (λ t. ok (encode_msg t))

unfoldable pub client_invoke : Json → Request → Conn → Result Text
unfolding send
client_invoke json req arriving = bind (json.marshal req) (λ t. send arriving)

-- A service for `setFuncField`: nil, not a pointer to a structure, or its name and the names of its
-- fields, each with whether it can be set.
pub data Service : Type 0 where
  nil not_struct_pointer : Service
  service : (name : Text) → List (Text × Bool) → Service

-- The result of a field's function: the value, which is zero where there is none, with the error.
pub data Returned (A : Type 0) : Type 0 where
  returned : Option A → Option ℕ → Returned A
  panics : Returned A

-- The function that a field gets. `proxy` is `Invoke` of the proxy: nil beside an error. The error
-- is not looked at, so the data of a nil response panics.
module _ {A B : Type 0} (marshal : A → Result Text) (unmarshal : Text → B × Option ℕ) where
  abbrev unpacked : B × Option ℕ → Returned B
  unpacked (b, e) = returned (some b) e

  abbrev pub responded : Result Text → Returned B
  responded (ok text) = unpacked (unmarshal text)
  responded (failed e) = panics
  responded panicked = panics

  abbrev pub asked : Text → Text → (Request → Result Text) → Result Text → Returned B
  asked name method proxy (ok text) =
      responded (proxy (record { service_name = name; method_name = method; data_of = text }))
  asked name method proxy (failed e) = returned none (some e)
  asked name method proxy panicked = panics

  unfoldable pub field_func : Text → Text → (Request → Result Text) → A → Returned B
  field_func name method proxy arg = asked name method proxy (marshal arg)

-- `setFuncField`: the fields whose functions it sets, or an error.
abbrev if_settable : Text → Bool → List Text → List Text
if_settable name true rest = name ∷ rest
if_settable name false rest = rest

unfoldable pub settable : List (Text × Bool) → List Text
settable [] = []
settable ((name, can_set) ∷ fields) = if_settable name can_set (settable fields)

unfoldable pub set_func_field : Service → Result (List Text)
unfolding settable
set_func_field nil = failed 1
set_func_field not_struct_pointer = failed 2
set_func_field (service name fields) = ok (settable fields)
