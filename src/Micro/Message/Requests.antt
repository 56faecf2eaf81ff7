-- ===== src/Micro/Message/Requests.antt =====
-- request.go
use gotest.Common.{
  ℕ, suc, zero, ◌+◌, Option, none, some, List, [], ◌∷◌, ◌++◌, length, drop, replicate,
}
use gotest.Common.Text.{Text, index_byte, text_discrete}
use gotest.Common.Dict
use gotest.Micro.Message.{
  Request, Nilable, items, ◌>>=◌, splitter, pair_splitter, uint32, be32, of_be32, slice, get_elem?,
  Buffer, advance, finish,
}

-- The loop of `SetHeadLength` over the pairs, in the order in which the map gives them.
unfoldable pub meta_length : List (Text × Text) → ℕ → ℕ
meta_length [] res = res
meta_length ((key, value) ∷ meta) res = meta_length meta (res + length key + 1 + length value + 1)

unfoldable pub set_head_length : Request → Request
set_head_length req = record req {
  head_length = uint32 (
      meta_length (items req.meta) (15 + length req.service_name + 1 + length req.method_name + 1));
}

unfoldable pub encode_meta : List (Text × Text) → Buffer → Option Buffer
encode_meta [] b = some b
encode_meta ((key, value) ∷ meta) b = do
  b1 ← advance (key ++ pair_splitter ∷ []) b
  b2 ← advance (value ++ splitter ∷ []) b1
  encode_meta meta b2

-- `make([]byte, n)`
abbrev pub make : ℕ → Buffer
make n = record { written = []; cur = replicate n 0 }

unfoldable pub encode_req : Request → Option Text
encode_req req = do
  b1 ← advance (be32 req.head_length) (make (uint32 (req.head_length + req.body_length)))
  b2 ← advance (be32 req.body_length) b1
  b3 ← advance (be32 req.request_id) b2
  b4 ← advance (req.version ∷ req.compresser ∷ req.serializer ∷ []) b3
  b5 ← advance (req.service_name ++ splitter ∷ []) b4
  b6 ← advance (req.method_name ++ splitter ∷ []) b5
  b7 ← encode_meta (items req.meta) b6
  some (finish (items req.content) b7)

-- The loop of `DecodeReq` over the pairs; each round takes one byte of `tmp` at least.
unfoldable pub decode_meta : (fuel : ℕ) → Text → List (Text × Text) → Option (List (Text × Text))
decode_meta zero tmp meta = none
decode_meta (suc fuel) tmp meta = elim (index_byte tmp splitter) [
  | none ↦ some meta
  | some index ↦ do
    pair_index ← index_byte tmp pair_splitter
    key ← slice tmp 0 pair_index
    value ← slice tmp (pair_index + 1) index
    decode_meta fuel (drop (index + 1) tmp) (Dict.put text_discrete key value meta)
]

-- The map stays nil where no byte is left for it.
abbrev pub decode_pairs : Text → Option (Nilable (Text × Text))
decode_pairs [] = some none
decode_pairs (b ∷ tmp) = do
  meta ← decode_meta (suc (length (b ∷ tmp))) (b ∷ tmp) []
  some (some meta)

-- The part of `DecodeReq` that reads `bs[15:req.HeadLength]`: the names and the pairs.
unfoldable pub decode_names : Text → Option (Text × Text × Nilable (Text × Text))
decode_names tmp = do
  index ← index_byte tmp splitter
  service_name ← slice tmp 0 index
  let tmp1 = drop (index + 1) tmp
  index1 ← index_byte tmp1 splitter
  method_name ← slice tmp1 0 index1
  let tmp2 = drop (index1 + 1) tmp1
  meta ← decode_pairs tmp2
  some (service_name, method_name, meta)

unfoldable pub decode_req : Text → Option Request
decode_req bs = do
  head ← slice bs 0 4
  head_length ← of_be32 head
  body ← slice bs 4 8
  body_length ← of_be32 body
  id ← slice bs 8 12
  request_id ← of_be32 id
  version ← get_elem? bs 12
  compresser ← get_elem? bs 13
  serializer ← get_elem? bs 14
  tmp ← slice bs 15 head_length
  (service_name, method_name, meta) ← decode_names tmp
  content ← slice bs head_length (length bs)
  some (record {
    head_length = head_length;
    body_length = body_length;
    request_id = request_id;
    version = version;
    compresser = compresser;
    serializer = serializer;
    service_name = service_name;
    method_name = method_name;
    meta = meta;
    content = some content;
  })
