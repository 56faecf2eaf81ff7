-- ===== src/Micro/Rpc/Calls.antt =====
-- Calls from the client through the server and back.
use gotest.Common.{ℕ, suc, ◌<◌, ◌^◌, ◌≡◌, ◌∙◌, ap, Option, none, some, List, [], ◌∷◌, length, All}
use gotest.Common.Text.{Text, text_discrete}
use gotest.Common.Dict
use gotest.Micro.Frames.{encode_msg}
use gotest.Micro.Frames.Net.{read_msg_alone, read_msg_end}
use gotest.Micro.Rpc.{
  Result, ok, failed, bind, Request, Json, Method, Stub, Server, called, stub_invoke, invoke_at,
  register_service, found, invoke, handled, written, handle_conn, send, received, client_invoke,
  panics, responded, asked, field_func,
}

-- A request and the text of the answer of a call that succeeds.
abbrev pub Served : {Q P : Type 0} → Json → Server Q P → Text × Text → Type 0
Served json s (msg, res) = (bind (json.unmarshal msg) (invoke s) ≡ ok res) × (length msg < 2 ^ 64)

abbrev pub messages : List (Text × Text) → List Text
messages [] = []
messages ((msg, res) ∷ xs) = encode_msg msg ∷ messages xs

abbrev pub answers : List (Text × Text) → List Text
answers [] = []
answers ((msg, res) ∷ xs) = encode_msg res ∷ answers xs

module _ {Q P : Type 0} (json : Json) (s : Server Q P) where
  -- Where each request, of less than 2^64 bytes, arrives in one piece and every call succeeds,
  -- the server writes the answers in the order of the requests, and the loop ends with the
  -- connection's error.
  pub handle_conn-answers :
      (xs : List (Text × Text))
      → All (Served json s) xs
      → handle_conn json s (suc (length xs)) (messages xs) ≡ (answers xs, failed 0)
  unfolding handle_conn
  handle_conn-answers [] h = ap (λ r. handled json s r (handle_conn json s 0)) read_msg_end
  handle_conn-answers ((msg, res) ∷ xs) h =
      ap (λ r. handled json s r (handle_conn json s (suc (length xs))))
        (read_msg_alone msg (messages xs) h.0.1)
      ∙ (ap (λ r. written r (handle_conn json s (suc (length xs))) (messages xs)) h.0.0
          ∙ ap (λ r. (encode_msg res ∷ r.0, r.1)) (handle_conn-answers xs h.1))

  invoke_registered :
      (req : Request) (stub : Stub Q P) (m : Method Q P) (resp : P) (res : Text)
      → stub req.method_name ≡ some m
      → m.call (m.decode req.data_of) ≡ (resp, none)
      → m.encode resp ≡ ok res
      → invoke (register_service req.service_name stub s) req ≡ ok res
  unfolding invoke register_service stub_invoke
  invoke_registered req stub m resp res f g k =
      ap (λ o. found o req) (Dict.get-put_self text_discrete req.service_name stub s)
      ∙ (ap (λ o. invoke_at o req.data_of) f ∙ (ap (called m) g ∙ k))

  -- A call of a registered service's method, whose request and answer each arrive in one piece, gives
  -- the client the encoded answer of the method.
  pub client_invoke-handle_conn :
      (req : Request) (stub : Stub Q P) (m : Method Q P) (resp : P) (msg res : Text)
      → json.marshal req ≡ ok msg
      → json.unmarshal msg ≡ ok req
      → stub req.method_name ≡ some m
      → m.call (m.decode req.data_of) ≡ (resp, none)
      → m.encode resp ≡ ok res
      → length msg < 2 ^ 64
      → length res < 2 ^ 64
      → (handle_conn json (register_service req.service_name stub s) 1 (encode_msg msg ∷ [])
          ≡ (encode_msg res ∷ [], ok []))
        × (client_invoke json req (encode_msg res ∷ []) ≡ ok res)
  unfolding handle_conn client_invoke send
  client_invoke-handle_conn req stub m resp msg res e d f g k l n = (
    ap
          (λ r.
            handled json (register_service req.service_name stub s) r
              (handle_conn json (register_service req.service_name stub s) 0))
          (read_msg_alone msg [] l)
        ∙ ap (λ r. written r (handle_conn json (register_service req.service_name stub s) 0) [])
            (ap (λ r. bind r (invoke (register_service req.service_name stub s))) d
              ∙ invoke_registered req stub m resp res f g k),
    ap (λ r. bind r (λ t. send (encode_msg res ∷ []))) e ∙ ap received (read_msg_alone res [] n),
  )

-- A call through a field's function panics whenever the proxy answers an error.
pub field_func_panics :
    {A B : Type 0} (marshal : A → Result Text) (unmarshal : Text → B × Option ℕ)
    → (name method text : Text) (proxy : Request → Result Text) (arg : A) (e : ℕ)
    → marshal arg ≡ ok text
    → proxy (record { service_name = name; method_name = method; data_of = text }) ≡ failed e
    → field_func marshal unmarshal name method proxy arg ≡ panics
unfolding field_func
field_func_panics marshal unmarshal name method text proxy arg e m p =
    ap (asked marshal unmarshal name method proxy) m ∙ ap (responded marshal unmarshal) p
