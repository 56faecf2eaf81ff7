-- ===== src/Micro/Frames/Tests.antt =====
-- Witnesses for messages on a connection.
use gotest.Common.{◌≡◌, some, [], ◌∷◌, ◌++◌, arith}
use gotest.Common.Text.{codes}
use gotest.Micro.Frames.{read_msg, encode_msg}
use gotest.Micro.Frames.Trips.{read_msg-encode_msg}

read_msg-encode_msg_example :
    read_msg ((encode_msg (codes "ping") ++ codes "next") ∷ [])
    ≡ some (codes "ping", codes "next" ∷ [])
read_msg-encode_msg_example = read_msg-encode_msg (codes "ping") (codes "next") [] (omega arith)
