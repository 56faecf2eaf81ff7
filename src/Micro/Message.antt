-- ===== src/Micro/Message.antt =====
-- The wire format of micro/rpc/message: bytes as numbers, `none` for a panic on an index or a slice.
pub mod Bytes
pub mod Requests
pub mod Responses
pub mod RequestBytes
pub mod RequestPairs
pub mod RequestTrip
pub mod ResponseTrip
mod Tests
use gotest.Common.{
  ℕ, suc, zero, ◌+◌, ◌-◌, ◌*◌, ◌/◌, ◌%◌, ◌^◌, Bool, ◌&&◌, Option, none, some, List, [], ◌∷◌, ◌++◌,
  ltb, leb, ◌==◌, if◌then◌else◌, length, take, drop, replicate,
}
use gotest.Common.Text.{Text, index_byte}

infixl 5 ◌>>=◌
abbrev pub ◌>>=◌ {ℓ κ} : {A : Type ℓ} {B : Type κ} → Option A → (A → Option B) → Option B
none >>= f = none
some a >>= f = f a

abbrev pub splitter : ℕ
splitter = b'\n'

abbrev pub pair_splitter : ℕ
pair_splitter = b'\r'

-- `uint32(n)`
abbrev pub uint32 : ℕ → ℕ
uint32 n = n % 2 ^ 32

-- `binary.BigEndian.PutUint32` and `Uint32`
abbrev pub be32 : ℕ → Text
be32 n = (n / 2 ^ 24 % 256) ∷ (n / 2 ^ 16 % 256) ∷ (n / 2 ^ 8 % 256) ∷ (n % 256) ∷ []

unfoldable pub of_be32 : Text → Option ℕ
of_be32 (a ∷ b ∷ c ∷ d ∷ rest) = some (a * 2 ^ 24 + b * 2 ^ 16 + c * 2 ^ 8 + d)
of_be32 _ = none

-- `bs[a:b]`, for a slice whose capacity is its length
unfoldable pub slice : Text → ℕ → ℕ → Option Text
slice bs a b = if leb a b && leb b (length bs) then some (take (b - a) (drop a bs)) else none

-- `bs[i]`
unfoldable pub get_elem? : Text → ℕ → Option ℕ
get_elem? [] i = none
get_elem? (b ∷ bs) zero = some b
get_elem? (b ∷ bs) (suc i) = get_elem? bs i

-- A buffer that is written from the front: what is written, and the part behind it.
pub record Buffer : Type 0 where
  pub written : Text
  pub cur : Text

-- `copy(cur, s); cur = cur[len(s):]`, and the writes of single bytes between
unfoldable pub advance : Text → Buffer → Option Buffer
advance s b =
    if leb (length s) (length b.cur)
    then some (record { written = b.written ++ s; cur = drop (length s) b.cur })
    else none

-- `copy(cur, s)` at the end: the whole buffer, with as much of `s` as fits
unfoldable pub finish : Text → Buffer → Text
finish s b = b.written ++ (take (length b.cur) s ++ drop (length s) b.cur)

-- A `[]byte` or a map, where nil differs from one that is empty; and what is in it.
abbrev pub Nilable : Type 0 → Type 0
Nilable A = Option (List A)

abbrev pub items : {A : Type 0} → Nilable A → List A
items none = []
items (some xs) = xs

pub record Request : Type 0 where
  pub head_length : ℕ
  pub body_length : ℕ
  pub request_id : ℕ
  pub version : ℕ
  pub compresser : ℕ
  pub serializer : ℕ
  pub service_name : Text
  pub method_name : Text
  pub meta : Nilable (Text × Text)
  pub content : Nilable ℕ

pub record Response : Type 0 where
  pub head_length : ℕ
  pub body_length : ℕ
  pub request_id : ℕ
  pub version : ℕ
  pub compresser : ℕ
  pub serializer : ℕ
  pub error : Nilable ℕ
  pub content : Nilable ℕ
