-- ===== src/Micro/Message/RequestTrip.antt =====
-- `DecodeReq` undoes `EncodeReq`.
use gotest.Common.{
  ℕ, suc, ◌+◌, ◌^◌, ◌<◌, ◌≡◌, refl, sym, ap, ◌∙◌, none, some, List, [], ◌∷◌, ◌++◌, length, drop,
  arith, All, length-append, append_assoc,
}
use gotest.Common.Text.{Text, Lacks, index_byte, index_byte-append}
use gotest.Common.Dict.{HasDistinctKeys}
use gotest.Micro.Message.{Request, Nilable, items, splitter, be32, of_be32, slice, get_elem?}
use gotest.Micro.Message.Bytes.{of_be32-be32, slice-append, slice_rest, drop-length}
use gotest.Micro.Message.Requests.{
  set_head_length, encode_req, decode_meta, decode_pairs, decode_names, decode_req,
}
use gotest.Micro.Message.RequestBytes.{
  meta_bytes, length_snoc, meta_length_lem, frame, head_size, encode_req-frame,
}
use gotest.Micro.Message.RequestPairs.{IsPlainPair, IsNew, decode_meta_lem, length-le-meta_bytes}

-- A request that the format can carry: its words fit their widths, and its texts do not hold the
-- bytes that end them.
pub record IsWireable (req : Request) : Type 0 where
  pub body : req.body_length ≡ length (items req.content)
  pub small : head_size req + req.body_length < 2 ^ 32
  pub id : req.request_id < 2 ^ 32
  pub service : Lacks splitter req.service_name
  pub method : Lacks splitter req.method_name
  pub pairs : All IsPlainPair (items req.meta)
  pub keys : HasDistinctKeys (items req.meta)

abbrev tail_text : Request → Text
tail_text req =
    (req.service_name ++ splitter ∷ [])
    ++ ((req.method_name ++ splitter ∷ []) ++ meta_bytes (items req.meta))

-- What arrives: the map is nil where it has no pairs, and the content is not nil.
abbrev pub nilled : {A : Type 0} → List A → Nilable A
nilled [] = none
nilled (x ∷ xs) = some (x ∷ xs)

abbrev pub received : Request → Request
received req = record req { meta = nilled (items req.meta); content = some (items req.content) }

decode_req_step :
    (bs head body id tmp : Text) (req : Request)
    → slice bs 0 4 ≡ some head
    → of_be32 head ≡ some req.head_length
    → slice bs 4 8 ≡ some body
    → of_be32 body ≡ some req.body_length
    → slice bs 8 12 ≡ some id
    → of_be32 id ≡ some req.request_id
    → get_elem? bs 12 ≡ some req.version
    → get_elem? bs 13 ≡ some req.compresser
    → get_elem? bs 14 ≡ some req.serializer
    → slice bs 15 req.head_length ≡ some (tail_text req)
    → decode_names (tail_text req)
      ≡ some (req.service_name, req.method_name, nilled (items req.meta))
    → slice bs req.head_length (length bs) ≡ some (items req.content)
    → decode_req bs ≡ some (received req)
unfolding decode_req
decode_req_step bs head body id tmp req a b c d e f g h i j k l =
    rw (a, b, c, d, e, f, g, h, i, j, k, l)

module _ (name rest : Text) (l : Lacks splitter name) where
  line_split : (name ++ splitter ∷ []) ++ rest ≡ name ++ (splitter ∷ rest)
  line_split = append_assoc name (splitter ∷ []) rest

  line_index : index_byte ((name ++ splitter ∷ []) ++ rest) splitter ≡ some (length name)
  line_index = ap (λ t. index_byte t splitter) line_split ∙ index_byte-append name splitter rest l

  line_slice : slice ((name ++ splitter ∷ []) ++ rest) 0 (length name) ≡ some name
  line_slice =
      ap (λ t. slice t 0 (length name)) line_split
      ∙ slice-append [] name (splitter ∷ rest) 0 (length name) refl (omega arith)

  line_rest : drop (length name + 1) ((name ++ splitter ∷ []) ++ rest) ≡ rest
  line_rest =
      drop-length (name ++ splitter ∷ []) rest (length name + 1) (sym (length_snoc name splitter))

decode_names_step :
    (tmp tmp1 tmp2 name method : Text) (i j : ℕ) (meta : Nilable (Text × Text))
    → index_byte tmp splitter ≡ some i
    → slice tmp 0 i ≡ some name
    → drop (i + 1) tmp ≡ tmp1
    → index_byte tmp1 splitter ≡ some j
    → slice tmp1 0 j ≡ some method
    → drop (j + 1) tmp1 ≡ tmp2
    → decode_pairs tmp2 ≡ some meta
    → decode_names tmp ≡ some (name, method, meta)
unfolding decode_names
decode_names_step tmp tmp1 tmp2 name method i j meta a b c d e f g = rw (a, b, c, d, e, f, g)

All-IsNew : (more : List (Text × Text)) → All (IsNew []) more
All-IsNew [] = tt
All-IsNew (e ∷ more) = (tt, All-IsNew more)

decode_pairs_filled :
    (tmp : Text) (meta : List (Text × Text))
    → 0 < length tmp
    → decode_meta (suc (length tmp)) tmp [] ≡ some meta
    → decode_pairs tmp ≡ some (some meta)
decode_pairs_filled [] meta l e = absurd (omega (arith, l))
decode_pairs_filled (b ∷ tmp) meta l e = rw e refl

decode_pairs_lem :
    (meta : List (Text × Text))
    → All IsPlainPair meta
    → HasDistinctKeys meta
    → decode_pairs (meta_bytes meta) ≡ some (nilled meta)
decode_pairs_lem [] p d = refl
decode_pairs_lem (x ∷ meta) p d =
    let tmp = meta_bytes (x ∷ meta) in
    let enough = length-le-meta_bytes (x ∷ meta) in
    decode_pairs_filled tmp (x ∷ meta) (omega (arith, enough)) (
      decode_meta_lem (suc (length tmp)) [] (x ∷ meta) (omega (arith, enough)) p d
        (All-IsNew (x ∷ meta)))

decode_names_lem :
    (req : Request)
    → IsWireable req
    → decode_names (tail_text req)
      ≡ some (req.service_name, req.method_name, nilled (items req.meta))
decode_names_lem req w =
    let rest = meta_bytes (items req.meta) in
    let rest1 = (req.method_name ++ splitter ∷ []) ++ rest in
    decode_names_step (tail_text req) rest1 rest req.service_name req.method_name
      (length req.service_name) (length req.method_name) (nilled (items req.meta))
      (line_index req.service_name rest1 w.service) (line_slice req.service_name rest1 w.service)
      (line_rest req.service_name rest1 w.service) (line_index req.method_name rest w.method)
      (line_slice req.method_name rest w.method) (line_rest req.method_name rest w.method)
      (decode_pairs_lem (items req.meta) w.pairs w.keys)

abbrev first_bytes : Request → Text
first_bytes req =
    be32 req.head_length
    ++ (be32 req.body_length
        ++ (be32 req.request_id ++ (req.version ∷ req.compresser ∷ req.serializer ∷ [])))

frame_split :
    (req : Request) → frame req ≡ first_bytes req ++ (tail_text req ++ (items req.content))
frame_split req = simp append_assoc

length-tail_text : (req : Request) → 15 + length (tail_text req) ≡ head_size req
length-tail_text req = omega (
  arith,
  length-append (req.service_name ++ splitter ∷ [])
      ((req.method_name ++ splitter ∷ []) ++ meta_bytes (items req.meta)),
  length-append (req.method_name ++ splitter ∷ []) (meta_bytes (items req.meta)),
  length_snoc req.service_name splitter,
  length_snoc req.method_name splitter,
)

decode_req-frame :
    (req : Request)
    → IsWireable req
    → req.head_length ≡ head_size req
    → decode_req (frame req) ≡ some (received req)
unfolding get_elem?
decode_req-frame req w head =
    decode_req_step (frame req) (be32 req.head_length) (be32 req.body_length) (be32 req.request_id)
      [] req (slice-append [] (be32 req.head_length) _ 0 4 refl refl)
      (of_be32-be32 req.head_length (omega arith))
      (slice-append (be32 req.head_length) (be32 req.body_length) _ 4 8 refl refl)
      (of_be32-be32 req.body_length (omega arith))
      (slice-append (be32 req.head_length ++ be32 req.body_length) (be32 req.request_id) _ 8 12 refl
        refl)
      (of_be32-be32 req.request_id w.id) refl refl refl
      (ap (λ t. slice t 15 req.head_length) (frame_split req)
        ∙ slice-append (first_bytes req) (tail_text req) (items req.content) 15 req.head_length refl
            (head ∙ sym (length-tail_text req)))
      (decode_names_lem req w)
      (ap (λ t. slice t req.head_length (length t))
          (frame_split req
            ∙ sym (append_assoc (first_bytes req) (tail_text req) (items req.content)))
        ∙ slice_rest (first_bytes req ++ tail_text req) (items req.content) req.head_length _
            (head
              ∙ (sym (length-tail_text req)
                  ∙ sym (length-append (first_bytes req) (tail_text req))))
            refl)

head_length_lem :
    (req : Request)
    → IsWireable req
    → (set_head_length req).head_length ≡ head_size (set_head_length req)
unfolding set_head_length
head_length_lem req w = omega (
  arith,
  meta_length_lem (items req.meta) (15 + length req.service_name + 1 + length req.method_name + 1),
  w.small,
)

set_head_length-IsWireable : (req : Request) → IsWireable req → IsWireable (set_head_length req)
unfolding set_head_length
set_head_length-IsWireable req w = record {
  body = w.body;
  small = w.small;
  id = w.id;
  service = w.service;
  method = w.method;
  pairs = w.pairs;
  keys = w.keys;
}

-- A request that the format can carry is, after `SetHeadLength`, encoded with no panic, and what is
-- encoded decodes to it, up to nil: a map with no pairs comes back as nil, and a nil `Data` as a slice
-- that is empty and not nil. The format can carry it if its body length is its content's, the whole
-- frame is shorter than 2^32, its id is below 2^32, its names and values hold no line feed and its
-- keys neither a line feed nor a carriage return, and its keys differ. The pairs stand in the order
-- in which the map gave them.
pub decode_req-encode_req :
    (req : Request)
    → IsWireable req
    → (bs : Text) × (encode_req (set_head_length req) ≡ some bs)
      × (decode_req bs ≡ some (received (set_head_length req)))
decode_req-encode_req req w =
    let w' = set_head_length-IsWireable req w in
    let head = head_length_lem req w in
    (
      frame (set_head_length req),
      encode_req-frame (set_head_length req) head w'.body (omega (arith, w'.small)),
      decode_req-frame (set_head_length req) w' head,
    )
