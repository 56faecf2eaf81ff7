-- ===== src/Micro/Frames/Trips.antt =====
-- Reading what was encoded.
use gotest.Common.{
  ℕ, zero, suc, ◌+◌, ◌-◌, ◌^◌, ◌<◌, ◌≤◌, ◌≡◌, ◌∙◌, refl, sym, ap, some, [], ◌∷◌, ◌++◌, length, take,
  replicate, length-append, take-append, drop-append, append-nil, append_assoc, ltb, if◌then◌else◌,
  true, false, All, arith,
}
use gotest.Common.Text.{Text}
use gotest.Micro.Frames.{be64, of_be64, Conn, fill, rest_of, read, read_body, read_msg, encode_msg}

pub of_be64-be64 : (n : ℕ) (rest : Text) → n < 2 ^ 64 → of_be64 (be64 n ++ rest) ≡ n
unfolding of_be64
of_be64-be64 n rest l = omega (arith, l)

-- What is left of a piece goes before the other pieces.
abbrev pub behind : Text → Conn → Conn
behind [] pieces = pieces
behind (b ∷ rest) pieces = (b ∷ rest) ∷ pieces

fill_exact : (xs rest : Text) → fill (length xs) (xs ++ rest) ≡ xs
fill_exact xs rest =
    let none_missing : length xs - length (xs ++ rest) ≡ 0 = omega (arith, length-append xs rest) in
    rw (take-append xs rest, none_missing) (append-nil xs)

rest_exact :
    (xs rest : Text) (pieces : Conn) → rest_of (length xs) (xs ++ rest) pieces ≡ behind rest pieces
rest_exact xs rest pieces = rw (drop-append xs rest, length-append xs rest) (rest_case rest)
  where
    rest_case :
        (rest : Text)
        → (if ltb (length xs) (length xs + length rest) then rest ∷ pieces else pieces)
          ≡ behind rest pieces
    rest_case [] =
        ap (λ b. if b then [] ∷ pieces else pieces) (same (length xs) (length xs + 0) (omega arith))
      where
        same : (a b : ℕ) → b ≤ a → ltb a b ≡ false
        same a b h = ground arith
    rest_case (b ∷ bs) =
        ap (λ c. if c then (b ∷ bs) ∷ pieces else pieces)
          (less (length xs) (length xs + suc (length bs)) (omega arith))
      where
        less : (a b : ℕ) → a < b → ltb a b ≡ true
        less a b h = ground arith

read_exact :
    (xs rest : Text) (pieces : Conn)
    → read (length xs) (behind (xs ++ rest) pieces) ≡ some (xs, behind rest pieces)
unfolding read
read_exact [] rest pieces = refl
read_exact (x ∷ xs) rest pieces = ap some (
    ap (λ y. (y, rest_of (length (x ∷ xs)) (x ∷ xs ++ rest) pieces)) (fill_exact (x ∷ xs) rest)
    ∙ ap (λ c. (x ∷ xs, c)) (rest_exact (x ∷ xs) rest pieces))

pub read_header :
    (n : ℕ) (rest : Text) (pieces : Conn)
    → n < 2 ^ 64
    → read_msg ((be64 n ++ rest) ∷ pieces) ≡ read n (behind rest pieces)
unfolding read_msg
read_header n rest pieces l =
    ap read_body (read_exact (be64 n) rest pieces)
    ∙ ap (λ m. read m (behind rest pieces))
        (ap of_be64 (sym (append-nil (be64 n))) ∙ of_be64-be64 n [] l)

-- A message of less than 2^64 bytes that arrives in one piece with whatever follows it is read as
-- it was encoded, and what follows stays on the connection.
pub read_msg-encode_msg :
    (msg rest : Text) (pieces : Conn)
    → length msg < 2 ^ 64
    → read_msg ((encode_msg msg ++ rest) ∷ pieces) ≡ some (msg, behind rest pieces)
unfolding encode_msg
read_msg-encode_msg msg rest pieces l =
    ap (λ t. read_msg (t ∷ pieces)) (append_assoc (be64 (length msg)) msg rest)
    ∙ (read_header (length msg) (msg ++ rest) pieces l ∙ read_exact msg rest pieces)

-- An encoded message is eight bytes longer than the message, and its first eight bytes are bytes.
pub length-encode_msg :
    (msg : Text)
    → (length (encode_msg msg) ≡ length msg + 8) × All (λ b. b < 256) (take 8 (encode_msg msg))
unfolding encode_msg
length-encode_msg msg = (
  omega arith,
  (
    omega arith,
    (
      omega arith,
      (omega arith, (omega arith, (omega arith, (omega arith, (omega arith, (omega arith, tt)))))),
    ),
  ),
)

pub take_all : (n : ℕ) (xs : Text) → length xs ≤ n → take n xs ≡ xs
take_all n [] l = at_nil n
  where
    at_nil : (n : ℕ) → take {A = ℕ} n [] ≡ []
    at_nil zero = refl
    at_nil (suc n) = refl
take_all zero (x ∷ xs) l = absurd (omega (arith, l))
take_all (suc n) (x ∷ xs) l = ap (◌∷◌ x) (take_all n xs (omega (arith, l)))

not_less : (a b : ℕ) → b ≤ a → ltb a b ≡ false
not_less a b h = ground arith

short :
    (xs ys : Text) (pieces : Conn)
    → ◌≡◌ {A = Text × Conn}
        (fill (length (xs ++ ys)) xs, rest_of (length (xs ++ ys)) xs (ys ∷ pieces))
        (xs ++ replicate (length ys) 0, ys ∷ pieces)
short xs ys pieces =
    let missing : length (xs ++ ys) - length xs ≡ length ys = omega (arith, length-append xs ys) in
    rw
      (
        take_all (length (xs ++ ys)) xs (omega (arith, length-append xs ys)),
        missing,
        not_less (length (xs ++ ys)) (length xs) (omega (arith, length-append xs ys)),
      )
      refl

-- A message whose end arrives in a second piece is read too early: its missing bytes are zeros, and
-- the second piece is left as if a new message began with it.
pub read_msg_split :
    (x : ℕ) (xs ys : Text) (pieces : Conn)
    → length (x ∷ xs ++ ys) < 2 ^ 64
    → read_msg ((be64 (length (x ∷ xs ++ ys)) ++ x ∷ xs) ∷ ys ∷ pieces)
      ≡ some (x ∷ xs ++ replicate (length ys) 0, ys ∷ pieces)
unfolding read
read_msg_split x xs ys pieces l =
    read_header (length (x ∷ xs ++ ys)) (x ∷ xs) (ys ∷ pieces) l
    ∙ ap some (short (x ∷ xs) ys pieces)
