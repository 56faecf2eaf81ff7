-- ===== src/Micro/Message/Tests.antt =====
-- The wire format at concrete messages.
use gotest.Common.{◌≡◌, ◌≢◌, refl, none, some, [], ◌∷◌, arith}
use gotest.Common.Text.{Text, codes}
use gotest.Micro.Message.{Request, Response}
use gotest.Micro.Message.Requests.{set_head_length, encode_req, decode_req}
use gotest.Micro.Message.Responses.{encode_resp, decode_resp}
use gotest.Micro.Message.Responses
use gotest.Micro.Message.RequestTrip
use gotest.Micro.Message.ResponseTrip
use gotest.Micro.Message.RequestTrip.{IsWireable, decode_req-encode_req}
use gotest.Micro.Message.ResponseTrip.{decode_resp-encode_resp}

abbrev call : Request
call = record {
  head_length = 0;
  body_length = 2;
  request_id = 7;
  version = 1;
  compresser = 2;
  serializer = 3;
  service_name = codes "user";
  method_name = codes "GetById";
  meta = some ((codes "trace", codes "1") ∷ (codes "id", codes "b") ∷ []);
  content = some (codes "hi");
}

key_ne : codes "id" ≢ codes "trace"
key_ne = λ e. cc

call-IsWireable : IsWireable call
call-IsWireable = record {
  body = refl;
  small = omega arith;
  id = omega arith;
  service = omega arith;
  method = omega arith;
  pairs = omega arith;
  keys = ((key_ne, tt), (tt, tt));
}

decode_req-encode_req_example :
    (bs : Text) × (encode_req (set_head_length call) ≡ some bs)
    × (decode_req bs ≡ some (RequestTrip.received (set_head_length call)))
decode_req-encode_req_example = decode_req-encode_req call call-IsWireable

abbrev answer : Response
answer = record {
  head_length = 0;
  body_length = 0;
  request_id = 7;
  version = 1;
  compresser = 2;
  serializer = 3;
  error = some (codes "no such user");
  content = none;
}

decode_resp-encode_resp_example :
    (bs : Text) × (encode_resp (Responses.set_body_length (Responses.set_head_length answer))
      ≡ some bs)
    × (decode_resp bs
        ≡ some
            (ResponseTrip.received (Responses.set_body_length (Responses.set_head_length answer))))
decode_resp-encode_resp_example = decode_resp-encode_resp answer (omega arith) (omega arith)
