-- ===== src/Micro/Frames/Net.antt =====
-- micro/net: the server that answers a fixed text, and the client.
use gotest.Common.{
  ℕ, zero, suc, ◌-◌, ◌<◌, ◌^◌, ◌≡◌, ◌∙◌, refl, sym, ap, Option, none, some, List, [], ◌∷◌, ◌++◌,
  length, take, replicate, append-nil, All, map,
}
use gotest.Common.Text.{Text, codes}
use gotest.Micro.Frames.{be64, Conn, read, read_msg, encode_msg}
use gotest.Micro.Frames.Trips.{read_header, behind, read_msg-encode_msg}

-- `handleMsg`
abbrev pub handle_msg : Text → Text
handle_msg msg = codes "hello"

-- What `handleConn` writes for a message: the length is that of the message, not of the answer.
unfoldable pub reply : Text → Text
reply msg = be64 (length msg) ++ handle_msg msg

-- `handleConn`: the loop until a read fails, at most as often as the fuel says; what it writes.
abbrev handled : Option (Text × Conn) → (Conn → List Text) → List Text
handled none rest = []
handled (some (msg, conn)) rest = reply msg ∷ rest conn

unfoldable pub handle_conn : ℕ → Conn → List Text
unfolding reply
handle_conn zero conn = []
handle_conn (suc fuel) conn = handled (read_msg conn) (handle_conn fuel)

-- `Send` of the client: what it writes, and what it answers of what arrives.
abbrev pub request : Text → Text
request msg = encode_msg msg

abbrev answer : Option (Text × Conn) → Option Text
answer none = none
answer (some (res, conn)) = some res

unfoldable pub send : Text → Conn → Option Text
send msg arriving = answer (read_msg arriving)

pub read_msg_alone :
    (msg : Text) (pieces : Conn)
    → length msg < 2 ^ 64
    → read_msg (encode_msg msg ∷ pieces) ≡ some (msg, pieces)
read_msg_alone msg pieces l =
    ap (λ t. read_msg (t ∷ pieces)) (sym (append-nil (encode_msg msg)))
    ∙ read_msg-encode_msg msg [] pieces l

pub read_msg_end : read_msg [] ≡ none
unfolding read_msg read
read_msg_end = refl

-- Where each message arrives in one piece, the server answers all of them in order, and ends at the
-- end of the connection.
pub handle_conn_lem :
    (msgs : List Text)
    → All (λ msg. length msg < 2 ^ 64) msgs
    → handle_conn (suc (length msgs)) (map encode_msg msgs) ≡ map reply msgs
unfolding handle_conn
handle_conn_lem [] h = ap (λ r. handled r (handle_conn 0)) read_msg_end
handle_conn_lem (msg ∷ msgs) h =
    ap (λ r. handled r (handle_conn (suc (length msgs))))
      (read_msg_alone msg (map encode_msg msgs) h.0)
    ∙ ap (◌∷◌ (reply msg)) (handle_conn_lem msgs h.1)

-- The client does not receive what the server's handler answers, but as many bytes as it has sent
-- itself: the answer is cut to that length, or filled up with zeros.
pub send-reply :
    (msg : Text)
    → length msg < 2 ^ 64
    → send msg (reply msg ∷ [])
      ≡ some
          (take (length msg) (handle_msg msg) ++ replicate (length msg - length (handle_msg msg)) 0)
unfolding send reply read
send-reply msg l =
    ap answer (read_header (length msg) (handle_msg msg) [] l) ∙ at_length (length msg)
  where
    at_length :
        (n : ℕ)
        → answer (read n (behind (handle_msg msg) []))
          ≡ some (take n (handle_msg msg) ++ replicate (n - length (handle_msg msg)) 0)
    at_length zero = refl
    at_length (suc n) = refl
