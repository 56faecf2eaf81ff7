-- ===== src/Micro/Message/RequestPairs.antt =====
-- The pairs of the map, read back by the loop of `DecodeReq`.
use gotest.Common.{
  ℕ, suc, zero, ◌+◌, ◌≤◌, ◌<◌, ◌≡◌, refl, sym, ap, ◌∙◌, ◌≢◌, if_neg, some, List, [], ◌∷◌, ◌++◌,
  length, drop, arith, All, All-append, length-append, append_assoc, append-nil,
}
use gotest.Common.Text.{Text, Lacks, index_byte, index_byte-append, text_discrete}
use gotest.Common.Dict
use gotest.Common.Dict.{HasDistinctKeys}
use gotest.Micro.Message.{splitter, pair_splitter, slice}
use gotest.Micro.Message.Bytes.{slice-append, drop-length}
use gotest.Micro.Message.Requests.{decode_meta}
use gotest.Micro.Message.RequestBytes.{meta_bytes, length_snoc}

-- What the separators of the format ask of a pair of the map.
abbrev pub IsPlainPair : Text × Text → Type 0
IsPlainPair e = Lacks splitter e.0 × Lacks pair_splitter e.0 × Lacks splitter e.1

abbrev pair_text : Text → Text → Text → Text
pair_text key value rest = key ++ (pair_splitter ∷ (value ++ (splitter ∷ rest)))

decode_meta_step :
    (fuel : ℕ) (tmp : Text) (meta : List (Text × Text)) (index pair_index : ℕ) (key value : Text)
    → index_byte tmp splitter ≡ some index
    → index_byte tmp pair_splitter ≡ some pair_index
    → slice tmp 0 pair_index ≡ some key
    → slice tmp (pair_index + 1) index ≡ some value
    → decode_meta (suc fuel) tmp meta
      ≡ decode_meta fuel (drop (index + 1) tmp) (Dict.put text_discrete key value meta)
unfolding decode_meta
decode_meta_step fuel tmp meta index pair_index key value a b c d = rw (a, decode_meta, b, c, d)

module _ (key value rest : Text) where
  pair_text_split : pair_text key value rest ≡ (key ++ (pair_splitter ∷ value)) ++ (splitter ∷ rest)
  pair_text_split = simp append_assoc

  pair_text_value :
      pair_text key value rest ≡ (key ++ (pair_splitter ∷ [])) ++ (value ++ (splitter ∷ rest))
  pair_text_value = simp append_assoc

  pair_length : length (key ++ (pair_splitter ∷ value)) ≡ length key + 1 + length value
  pair_length = omega (arith, length-append key (pair_splitter ∷ value))

  pair_index :
      IsPlainPair (key, value)
      → index_byte (pair_text key value rest) splitter ≡ some (length key + 1 + length value)
  pair_index p =
      ap (λ t. index_byte t splitter) pair_text_split
      ∙ (index_byte-append (key ++ (pair_splitter ∷ value)) splitter rest
            (All-append (λ b. b ≢ splitter) key (pair_splitter ∷ value) p.0 ((omega arith), p.2))
          ∙ ap some pair_length)

  pair_key : slice (pair_text key value rest) 0 (length key) ≡ some key
  pair_key =
      slice-append [] key (pair_splitter ∷ (value ++ (splitter ∷ rest))) 0 (length key) refl
        (omega arith)

  pair_value :
      slice (pair_text key value rest) (length key + 1) (length key + 1 + length value) ≡ some value
  pair_value =
      ap (λ t. slice t (length key + 1) (length key + 1 + length value)) pair_text_value
      ∙ slice-append (key ++ (pair_splitter ∷ [])) value (splitter ∷ rest) (length key + 1)
          (length key + 1 + length value) (omega (arith, length_snoc key pair_splitter))
          (omega (arith, length_snoc key pair_splitter))

  pair_rest : drop (length key + 1 + length value + 1) (pair_text key value rest) ≡ rest
  pair_rest =
      ap (drop (length key + 1 + length value + 1))
        (pair_text_split ∙ sym (append_assoc (key ++ (pair_splitter ∷ value)) (splitter ∷ []) rest))
      ∙ drop-length ((key ++ (pair_splitter ∷ value)) ++ (splitter ∷ [])) rest
          (length key + 1 + length value + 1)
          (omega (arith, pair_length, length_snoc (key ++ (pair_splitter ∷ value)) splitter))

  -- One round of the loop.
  decode_meta_pair :
      (fuel : ℕ) (meta : List (Text × Text))
      → IsPlainPair (key, value)
      → decode_meta (suc fuel) (pair_text key value rest) meta
        ≡ decode_meta fuel rest (Dict.put text_discrete key value meta)
  decode_meta_pair fuel meta p =
      decode_meta_step fuel (pair_text key value rest) meta (length key + 1 + length value)
        (length key) key value (pair_index p)
        (index_byte-append key pair_splitter (value ++ (splitter ∷ rest)) p.1) pair_key pair_value
      ∙ ap (λ t. decode_meta fuel t (Dict.put text_discrete key value meta)) pair_rest

abbrev pub IsNew : List (Text × Text) → Text × Text → Type 0
IsNew meta e = All (λ d. d.0 ≢ e.0) meta

put_new :
    (key value : Text) (meta : List (Text × Text))
    → IsNew meta (key, value)
    → Dict.put text_discrete key value meta ≡ meta ++ (key, value) ∷ []
unfolding Dict.put
put_new key value [] n = refl
put_new key value ((k, v) ∷ meta) n =
    if_neg (text_discrete k key) n.0 _ _ ∙ ap (◌∷◌ (k, v)) (put_new key value meta n.1)

still-IsNew :
    (key value : Text) (meta more : List (Text × Text))
    → All (IsNew meta) more
    → All (λ e. e.0 ≢ key) more
    → All (IsNew (meta ++ (key, value) ∷ [])) more
still-IsNew key value meta [] a b = tt
still-IsNew key value meta (e ∷ more) a b = (
  All-append (λ d. d.0 ≢ e.0) meta ((key, value) ∷ []) a.0 ((λ p. b.0 (sym p)), tt),
  still-IsNew key value meta more a.1 b.1,
)

meta_bytes-cons :
    (key value : Text) (more : List (Text × Text))
    → meta_bytes ((key, value) ∷ more) ≡ pair_text key value (meta_bytes more)
meta_bytes-cons key value more = simp append_assoc

decode_meta_nil :
    (fuel : ℕ) (meta : List (Text × Text)) → decode_meta (suc fuel) [] meta ≡ some meta
unfolding decode_meta index_byte
decode_meta_nil fuel meta = refl

-- The loop reads every pair back, and puts it behind those that it has read.
pub decode_meta_lem :
    (fuel : ℕ) (meta more : List (Text × Text))
    → length more < fuel
    → All IsPlainPair more
    → HasDistinctKeys more
    → All (IsNew meta) more
    → decode_meta fuel (meta_bytes more) meta ≡ some (meta ++ more)
decode_meta_lem zero meta more l p d n = absurd (omega arith)
decode_meta_lem (suc fuel) meta [] l p d n =
    decode_meta_nil fuel meta ∙ ap some (sym (append-nil meta))
decode_meta_lem (suc fuel) meta ((key, value) ∷ more) l p d n =
    ap (λ t. decode_meta (suc fuel) t meta) (meta_bytes-cons key value more)
    ∙ (decode_meta_pair key value (meta_bytes more) fuel meta p.0
        ∙ (ap (decode_meta fuel (meta_bytes more)) (put_new key value meta n.0)
            ∙ (decode_meta_lem fuel (meta ++ (key, value) ∷ []) more (omega arith) p.1 d.1
                  (still-IsNew key value meta more n.1 d.0)
                ∙ ap some (append_assoc meta ((key, value) ∷ []) more))))

pub length-le-meta_bytes : (meta : List (Text × Text)) → length meta ≤ length (meta_bytes meta)
length-le-meta_bytes [] = omega arith
length-le-meta_bytes ((key, value) ∷ meta) = omega (
  arith,
  length-le-meta_bytes meta,
  length-append (key ++ pair_splitter ∷ []) ((value ++ splitter ∷ []) ++ meta_bytes meta),
  length-append (value ++ splitter ∷ []) (meta_bytes meta),
  length_snoc value splitter,
)
