-- ===== src/Micro/Message/Responses.antt =====
-- response.go
use gotest.Common.{ℕ, ◌+◌, Option, none, some, [], ◌∷◌, ltb, ◌==◌, if◌then◌else◌, length}
use gotest.Common.Text.{Text}
use gotest.Micro.Message.{
  Response, Nilable, items, ◌>>=◌, uint32, be32, of_be32, slice, get_elem?, advance, finish,
}
use gotest.Micro.Message.Requests.{make}

unfoldable pub set_head_length : Response → Response
set_head_length resp = record resp {
  head_length = uint32 (15 + uint32 (length (items resp.error)));
}

unfoldable pub set_body_length : Response → Response
set_body_length resp = record resp { body_length = uint32 (length (items resp.content)) }

unfoldable pub encode_resp : Response → Option Text
encode_resp resp = do
  b1 ← advance (be32 resp.head_length) (make (uint32 (resp.head_length + resp.body_length)))
  b2 ← advance (be32 resp.body_length) b1
  b3 ← advance (be32 resp.request_id) b2
  b4 ← advance (resp.version ∷ resp.compresser ∷ resp.serializer ∷ []) b3
  b5 ← advance (items resp.error) b4
  some (finish (items resp.content) b5)

abbrev pub read : Option Text → Option (Nilable ℕ)
read none = none
read (some s) = some (some s)

unfoldable pub decode_resp : Text → Option Response
decode_resp bs = do
  head ← slice bs 0 4
  head_length ← of_be32 head
  body ← slice bs 4 8
  body_length ← of_be32 body
  id ← slice bs 8 12
  request_id ← of_be32 id
  version ← get_elem? bs 12
  compresser ← get_elem? bs 13
  serializer ← get_elem? bs 14
  tmp ← slice bs 15 head_length
  content ← (if body_length == 0 then some none else read (slice bs head_length (length bs)))
  some (record {
    head_length = head_length;
    body_length = body_length;
    request_id = request_id;
    version = version;
    compresser = compresser;
    serializer = serializer;
    error = if ltb 15 head_length then some tmp else none;
    content = content;
  })
