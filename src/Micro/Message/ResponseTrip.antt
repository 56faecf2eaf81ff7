-- ===== src/Micro/Message/ResponseTrip.antt =====
-- `DecodeResp` undoes `EncodeResp`.
use gotest.Common.{
  ℕ, ◌+◌, ◌^◌, ◌<◌, ◌≡◌, refl, sym, ap, ◌∙◌, Option, none, some, [], ◌∷◌, ◌++◌, length, arith,
  length-append, append_assoc, ◌==◌, ltb, if◌then◌else◌,
}
use gotest.Common.Text.{Text}
use gotest.Micro.Message.{Response, Nilable, items, uint32, be32, of_be32, slice, get_elem?}
use gotest.Micro.Message.Bytes.{of_be32-be32, slice-append, slice_rest, advance_lem, finish_lem}
use gotest.Micro.Message.Responses.{
  set_head_length, set_body_length, encode_resp, read, decode_resp,
}

abbrev frame : Response → Text
frame resp =
    be32 resp.head_length
    ++ (be32 resp.body_length
        ++ (be32 resp.request_id
            ++ (resp.version
                ∷ resp.compresser
                ∷ resp.serializer
                ∷ ((items resp.error) ++ (items resp.content)))))

-- Both lengths are those of the parts, and the whole fits 32 bits.
record HasLengths (resp : Response) : Type 0 where
  head : resp.head_length ≡ 15 + length (items resp.error)
  body : resp.body_length ≡ length (items resp.content)
  small : 15 + length (items resp.error) + length (items resp.content) < 2 ^ 32

encode_resp-frame : (resp : Response) → HasLengths resp → encode_resp resp ≡ some (frame resp)
unfolding encode_resp
encode_resp-frame resp w =
    let e = length (items resp.error) in
    let c = length (items resp.content) in
    let head = w.head in
    let body = w.body in
    let small = w.small in
    rw
      (
        advance_lem (be32 resp.head_length) [] (uint32 (resp.head_length + resp.body_length))
            (11 + e + c) (omega arith),
        advance_lem (be32 resp.body_length) _ (11 + e + c) (7 + e + c) (omega arith),
        advance_lem (be32 resp.request_id) _ (7 + e + c) (3 + e + c) (omega arith),
        advance_lem (resp.version ∷ resp.compresser ∷ resp.serializer ∷ []) _ (3 + e + c) (e + c)
            (omega arith),
        advance_lem (items resp.error) _ (e + c) c refl,
        finish_lem (items resp.content) _ c refl,
      )
      (simp append_assoc)

abbrev first_bytes : Response → Text
first_bytes resp =
    be32 resp.head_length
    ++ (be32 resp.body_length
        ++ (be32 resp.request_id ++ (resp.version ∷ resp.compresser ∷ resp.serializer ∷ [])))

frame_split :
    (resp : Response)
    → frame resp ≡ first_bytes resp ++ ((items resp.error) ++ (items resp.content))
frame_split resp = simp append_assoc

-- What arrives: nil for what is empty.
abbrev pub nilled : Nilable ℕ → Nilable ℕ
nilled none = none
nilled (some []) = none
nilled (some (b ∷ s)) = some (b ∷ s)

abbrev pub received : Response → Response
received resp = record resp { error = nilled resp.error; content = nilled resp.content }

decode_resp_step :
    (bs head body id tmp : Text) (resp : Response)
    → slice bs 0 4 ≡ some head
    → of_be32 head ≡ some resp.head_length
    → slice bs 4 8 ≡ some body
    → of_be32 body ≡ some resp.body_length
    → slice bs 8 12 ≡ some id
    → of_be32 id ≡ some resp.request_id
    → get_elem? bs 12 ≡ some resp.version
    → get_elem? bs 13 ≡ some resp.compresser
    → get_elem? bs 14 ≡ some resp.serializer
    → slice bs 15 resp.head_length ≡ some tmp
    → (if resp.body_length == 0 then some none else read (slice bs resp.head_length (length bs)))
      ≡ some (nilled resp.content)
    → (if ltb 15 resp.head_length then some tmp else none) ≡ nilled resp.error
    → decode_resp bs ≡ some (received resp)
unfolding decode_resp
decode_resp_step bs head body id tmp resp a b c d e f g h i j k l =
    rw (a, b, c, d, e, f, g, h, i, j, k, l)

error_lem :
    (o : Nilable ℕ) (n : ℕ)
    → n ≡ 15 + length (items o)
    → (if ltb 15 n then some (items o) else none) ≡ nilled o
error_lem none n e = ground arith
error_lem (some []) n e = ground arith
error_lem (some (c ∷ s)) n e = ground arith

content_lem :
    (n : ℕ) (o : Nilable ℕ) (s : Option Text)
    → n ≡ length (items o)
    → s ≡ some (items o)
    → (if n == 0 then some none else read s) ≡ some (nilled o)
content_lem n none s p q = ground arith
content_lem n (some []) s p q = ground arith
content_lem n (some (c ∷ t)) s p q = ground (arith, ap read q)

decode_resp-frame :
    (resp : Response)
    → HasLengths resp
    → resp.request_id < 2 ^ 32
    → decode_resp (frame resp) ≡ some (received resp)
unfolding get_elem?
decode_resp-frame resp w id =
    let head = w.head in
    let body = w.body in
    let small = w.small in
    decode_resp_step (frame resp) (be32 resp.head_length) (be32 resp.body_length)
      (be32 resp.request_id) (items resp.error) resp
      (slice-append [] (be32 resp.head_length) _ 0 4 refl refl)
      (of_be32-be32 resp.head_length (omega arith))
      (slice-append (be32 resp.head_length) (be32 resp.body_length) _ 4 8 refl refl)
      (of_be32-be32 resp.body_length (omega arith))
      (slice-append (be32 resp.head_length ++ be32 resp.body_length) (be32 resp.request_id) _ 8 12
        refl refl)
      (of_be32-be32 resp.request_id id) refl refl refl
      (ap (λ t. slice t 15 resp.head_length) (frame_split resp)
        ∙ slice-append (first_bytes resp) (items resp.error) (items resp.content) 15
            resp.head_length refl head)
      (content_lem resp.body_length resp.content _ body (
        ap (λ t. slice t resp.head_length (length t))
          (frame_split resp
            ∙ sym (append_assoc (first_bytes resp) (items resp.error) (items resp.content)))
        ∙ slice_rest (first_bytes resp ++ (items resp.error)) (items resp.content) resp.head_length
            _ (head ∙ sym (length-append (first_bytes resp) (items resp.error))) refl))
      (error_lem resp.error resp.head_length head)

with_lengths : Response → Response
unfolding set_head_length set_body_length
with_lengths resp = set_body_length (set_head_length resp)

with_lengths-HasLengths :
    (resp : Response)
    → 15 + length (items resp.error) + length (items resp.content) < 2 ^ 32
    → HasLengths (with_lengths resp)
unfolding with_lengths
with_lengths-HasLengths resp h = record { head = omega arith; body = omega arith; small = h }

-- A response whose lengths `SetHeadLength` and `SetBodyLength` have set is encoded with no panic,
-- and what is encoded decodes to it, where a nil error or nil data come back as nil, and so do empty
-- ones, if the frame is shorter than 2^32 and the id below 2^32.
pub decode_resp-encode_resp :
    (resp : Response)
    → 15 + length (items resp.error) + length (items resp.content) < 2 ^ 32
    → resp.request_id < 2 ^ 32
    → (bs : Text) × (encode_resp (set_body_length (set_head_length resp)) ≡ some bs)
      × (decode_resp bs ≡ some (received (set_body_length (set_head_length resp))))
unfolding with_lengths
decode_resp-encode_resp resp small id =
    let w = with_lengths-HasLengths resp small in
    (
      frame (with_lengths resp),
      encode_resp-frame (with_lengths resp) w,
      decode_resp-frame (with_lengths resp) w id,
    )
