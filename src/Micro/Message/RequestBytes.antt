-- ===== src/Micro/Message/RequestBytes.antt =====
-- The bytes that `EncodeReq` gives.
use gotest.Common.{
  ℕ, ◌+◌, ◌^◌, ◌<◌, ◌≡◌, refl, some, List, [], ◌∷◌, ◌++◌, length, replicate, arith, length-append,
  append_assoc, append-nil,
}
use gotest.Common.Text.{Text}
use gotest.Micro.Message.{items, Request, splitter, pair_splitter, uint32, be32}
use gotest.Micro.Message.Bytes.{advance_lem, finish_lem}
use gotest.Micro.Message.Requests.{meta_length, encode_meta, encode_req}

abbrev pub meta_bytes : List (Text × Text) → Text
meta_bytes [] = []
meta_bytes ((key, value) ∷ meta) =
    (key ++ pair_splitter ∷ []) ++ ((value ++ splitter ∷ []) ++ meta_bytes meta)

pub length_snoc : (s : Text) (c : ℕ) → length (s ++ c ∷ []) ≡ length s + 1
length_snoc s c = length-append s (c ∷ [])

pub meta_length_lem :
    (meta : List (Text × Text)) (n : ℕ) → meta_length meta n ≡ n + length (meta_bytes meta)
unfolding meta_length
meta_length_lem [] n = omega arith
meta_length_lem ((key, value) ∷ meta) n = omega (
  arith,
  meta_length_lem meta (n + length key + 1 + length value + 1),
  length-append (key ++ pair_splitter ∷ []) ((value ++ splitter ∷ []) ++ meta_bytes meta),
  length-append (value ++ splitter ∷ []) (meta_bytes meta),
  length_snoc key pair_splitter,
  length_snoc value splitter,
)

encode_meta_lem :
    (meta : List (Text × Text)) (w : Text) (k n : ℕ)
    → k ≡ length (meta_bytes meta) + n
    → encode_meta meta (record { written = w; cur = replicate k 0 })
      ≡ some (record { written = w ++ meta_bytes meta; cur = replicate n 0 })
unfolding encode_meta
encode_meta_lem [] w k n e = let p : k ≡ n = omega arith in rw (append-nil w, p)
encode_meta_lem ((key, value) ∷ meta) w k n e =
    let l1 =
      length-append (key ++ pair_splitter ∷ []) ((value ++ splitter ∷ []) ++ meta_bytes meta) in
    let l2 = length-append (value ++ splitter ∷ []) (meta_bytes meta) in
    rw
      (
        advance_lem (key ++ pair_splitter ∷ []) w k
            (length (value ++ splitter ∷ []) + (length (meta_bytes meta) + n))
            (omega (arith, l1, l2)),
        advance_lem (value ++ splitter ∷ []) (w ++ (key ++ pair_splitter ∷ []))
            (length (value ++ splitter ∷ []) + (length (meta_bytes meta) + n))
            (length (meta_bytes meta) + n) (omega arith),
        encode_meta_lem meta ((w ++ (key ++ pair_splitter ∷ [])) ++ (value ++ splitter ∷ []))
            (length (meta_bytes meta) + n) n (omega arith),
      )
      (simp append_assoc)

-- The bytes of a frame.
abbrev pub frame : Request → Text
frame req =
    be32 req.head_length
    ++ (be32 req.body_length
        ++ (be32 req.request_id
            ++ (req.version
                ∷ req.compresser
                ∷ req.serializer
                ∷ ((req.service_name ++ splitter ∷ [])
                    ++ ((req.method_name ++ splitter ∷ [])
                        ++ (meta_bytes (items req.meta) ++ (items req.content)))))))

abbrev pub head_size : Request → ℕ
head_size req =
    15
    + (length req.service_name + 1)
    + (length req.method_name + 1)
    + length (meta_bytes (items req.meta))

pub encode_req-frame :
    (req : Request)
    → req.head_length ≡ head_size req
    → req.body_length ≡ length (items req.content)
    → req.head_length + req.body_length < 2 ^ 32
    → encode_req req ≡ some (frame req)
unfolding encode_req
encode_req-frame req h b small =
    let c = length (items req.content) in
    let m = length (meta_bytes (items req.meta)) in
    let s = length req.service_name in
    let t = length req.method_name in
    rw
      (
        advance_lem (be32 req.head_length) [] (uint32 (req.head_length + req.body_length))
            (11 + (s + 1) + (t + 1) + m + c) (omega arith),
        advance_lem (be32 req.body_length) _ (11 + (s + 1) + (t + 1) + m + c)
            (7 + (s + 1) + (t + 1) + m + c) (omega arith),
        advance_lem (be32 req.request_id) _ (7 + (s + 1) + (t + 1) + m + c)
            (3 + (s + 1) + (t + 1) + m + c) (omega arith),
        advance_lem (req.version ∷ req.compresser ∷ req.serializer ∷ []) _
            (3 + (s + 1) + (t + 1) + m + c) ((s + 1) + (t + 1) + m + c) (omega arith),
        advance_lem (req.service_name ++ splitter ∷ []) _ ((s + 1) + (t + 1) + m + c)
            ((t + 1) + m + c) (omega (arith, length_snoc req.service_name splitter)),
        advance_lem (req.method_name ++ splitter ∷ []) _ ((t + 1) + m + c) (m + c)
            (omega (arith, length_snoc req.method_name splitter)),
        encode_meta_lem (items req.meta) _ (m + c) c refl,
        finish_lem (items req.content) _ c refl,
      )
      (simp append_assoc)
