-- ===== src/Micro/Frames.antt =====
-- Messages on a connection: micro/rpc/tcp.go. A connection is the list of the pieces that arrive: a
-- `Read` answers bytes of the first piece only, at most as many as the buffer holds.
pub mod Trips
pub mod Net
mod Tests
use gotest.Common.{
  ℕ, zero, suc, ◌+◌, ◌-◌, ◌*◌, ◌/◌, ◌%◌, ◌^◌, Option, none, some, List, [], ◌∷◌, ◌++◌, length, take,
  drop, replicate, ltb, if◌then◌else◌,
}
use gotest.Common.Text.{Text}

-- `binary.BigEndian.PutUint64` and `Uint64`, on eight bytes.
abbrev pub be64 : ℕ → Text
be64 n =
    (n / 2 ^ 56 % 256)
    ∷ (n / 2 ^ 48 % 256)
    ∷ (n / 2 ^ 40 % 256)
    ∷ (n / 2 ^ 32 % 256)
    ∷ (n / 2 ^ 24 % 256)
    ∷ (n / 2 ^ 16 % 256)
    ∷ (n / 2 ^ 8 % 256)
    ∷ (n % 256)
    ∷ []

unfoldable pub of_be64 : Text → ℕ
of_be64 (a ∷ b ∷ c ∷ d ∷ e ∷ f ∷ g ∷ h ∷ rest) =
    a * 2 ^ 56 + b * 2 ^ 48 + c * 2 ^ 40 + d * 2 ^ 32 + e * 2 ^ 24 + f * 2 ^ 16 + g * 2 ^ 8 + h
of_be64 _ = 0

abbrev pub num_of_length_byte : ℕ
num_of_length_byte = 8

abbrev pub Conn : Type 0
Conn = List Text

-- What a buffer of that length holds after a `Read` into fresh memory, and the connection; none is
-- the error at the end of the connection. A `Read` into no bytes reads nothing.
abbrev fill : ℕ → Text → Text
fill n piece = take n piece ++ replicate (n - length piece) 0

abbrev rest_of : ℕ → Text → Conn → Conn
rest_of n piece pieces = if ltb n (length piece) then drop n piece ∷ pieces else pieces

unfoldable pub read : ℕ → Conn → Option (Text × Conn)
read zero pieces = some ([], pieces)
read (suc n) [] = none
read (suc n) (piece ∷ pieces) = some (fill (suc n) piece, rest_of (suc n) piece pieces)

-- `ReadMsg`: the numbers of bytes that the two reads answer are not looked at.
abbrev pub read_body : Option (Text × Conn) → Option (Text × Conn)
read_body none = none
read_body (some (len_data, conn)) = read (of_be64 len_data) conn

unfoldable pub read_msg : Conn → Option (Text × Conn)
unfolding read of_be64
read_msg conn = read_body (read num_of_length_byte conn)

-- `EncodeMsg`: `uint64` of a length is the length.
unfoldable pub encode_msg : Text → Text
encode_msg msg = be64 (length msg) ++ msg
