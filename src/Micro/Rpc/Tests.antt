-- ===== src/Micro/Rpc/Tests.antt =====
-- Witnesses for remote calls, with requests whose encoding is their data.
use gotest.Common.{◌≡◌, refl, none, some, [], ◌∷◌, arith}
use gotest.Common.Text.{Text, codes, text_discrete}
use gotest.Common.Dict
use gotest.Micro.Rpc.{
  Result, ok, failed, Request, Json, Method, Stub, Server, register_service, invoke, handle_conn,
  client_invoke, Returned, panics, field_func,
}
use gotest.Micro.Rpc
use gotest.Micro.Rpc.Calls.{messages, answers, handle_conn-answers}

abbrev request : Text → Request
request text = record { service_name = codes "user"; method_name = codes "GetById"; data_of = text }

abbrev json : Json
json = record { marshal = λ req. ok req.data_of; unmarshal = λ text. ok (request text) }

abbrev echo : Method Text Text
echo = record { decode = λ t. t; call = λ t. (b'!' ∷ t, none); encode = λ t. ok t }

abbrev stub : Stub Text Text
stub name = some echo

abbrev server : Server Text Text
server = (codes "user", stub) ∷ []

served : (msg : Text) → invoke server (request msg) ≡ ok (b'!' ∷ msg)
unfolding Rpc.invoke Rpc.stub_invoke Dict.get text_discrete
served msg = refl

handle_conn-answers_example :
    handle_conn json server 2 (messages ((codes "x", codes "!x") ∷ []))
    ≡ (answers ((codes "x", codes "!x") ∷ []), failed 0)
handle_conn-answers_example =
    handle_conn-answers json server ((codes "x", codes "!x") ∷ [])
      ((served (codes "x"), omega arith), tt)
