-- ===== src/Micro/Message/Bytes.antt =====
-- What the buffers and slices of the wire format compute to.
use Prim.Native.Nat.add
use gotest.Common.{
  ℕ, suc, zero, ◌+◌, ◌-◌, ◌^◌, ◌≤◌, ◌<◌, ◌≡◌, sym, ap, ◌∙◌, true, some, [], ◌++◌, leb, length, take,
  drop, replicate, arith, length-append, take-append, drop-append, append-nil, length-replicate,
}
use gotest.Common.Text.{Text}
use gotest.Micro.Message.{be32, of_be32, slice, Buffer, advance, finish}

pub of_be32-be32 : (n : ℕ) → n < 2 ^ 32 → of_be32 (be32 n) ≡ some n
unfolding of_be32
of_be32-be32 n h = ap some (omega arith)

pub take-length : (xs ys : Text) (k : ℕ) → k ≡ length xs → take k (xs ++ ys) ≡ xs
take-length xs ys k p = ap (λ n. take n (xs ++ ys)) p ∙ take-append xs ys

pub drop-length : (xs ys : Text) (k : ℕ) → k ≡ length xs → drop k (xs ++ ys) ≡ ys
drop-length xs ys k p = ap (λ n. drop n (xs ++ ys)) p ∙ drop-append xs ys

leb-true : (a b : ℕ) → a ≤ b → leb a b ≡ true
leb-true a b h = ground arith

slice_fits :
    (bs : Text) (a b : ℕ) → a ≤ b → b ≤ length bs → slice bs a b ≡ some (take (b - a) (drop a bs))
unfolding slice
slice_fits bs a b p q = rw (leb-true a b p, leb-true b (length bs) q)

-- The middle part of a text, cut out by its bounds.
pub slice-append :
    (xs ys zs : Text) (a b : ℕ)
    → a ≡ length xs
    → b ≡ length xs + length ys
    → slice (xs ++ (ys ++ zs)) a b ≡ some ys
slice-append xs ys zs a b p q =
    slice_fits (xs ++ (ys ++ zs)) a b (omega arith)
      (omega (arith, length-append xs (ys ++ zs), length-append ys zs))
    ∙ ap some (
        ap (take (b - a)) (drop-length xs (ys ++ zs) a p) ∙ take-length ys zs (b - a) (omega arith))

-- The rest of a text behind a part.
pub slice_rest :
    (xs ys : Text) (a b : ℕ)
    → a ≡ length xs
    → b ≡ length (xs ++ ys)
    → slice (xs ++ ys) a b ≡ some ys
slice_rest xs ys a b p q =
    ap (λ t. slice (xs ++ t) a b) (sym (append-nil ys))
    ∙ slice-append xs ys [] a b p (omega (arith, length-append xs ys))

drop-replicate : (k n : ℕ) → drop k (replicate {A = ℕ} (k + n) 0) ≡ replicate n 0
drop-replicate zero n = rw add.zero
drop-replicate (suc k) n = rw add.suc (drop-replicate k n)

advance_fits :
    (s : Text) (b : Buffer)
    → length s ≤ length b.cur
    → advance s b ≡ some (record { written = b.written ++ s; cur = drop (length s) b.cur })
unfolding advance
advance_fits s b h = rw (leb-true (length s) (length b.cur) h)

-- Writing to a buffer of zeros that is long enough.
pub advance_lem :
    (s w : Text) (k n : ℕ)
    → k ≡ length s + n
    → advance s (record { written = w; cur = replicate k 0 })
      ≡ some (record { written = w ++ s; cur = replicate n 0 })
advance_lem s w k n e =
    advance_fits s _ (omega (arith, length-replicate {A = ℕ} k 0))
    ∙ ap (λ c. some (record { written = w ++ s; cur = c }))
        (ap (λ m. drop (length s) (replicate m 0)) e ∙ drop-replicate (length s) n)

take_all : (s : Text) (k : ℕ) → k ≡ length s → take k s ≡ s
take_all s k e = ap (take k) (sym (append-nil s)) ∙ take-length s [] k e

drop-replicate_all : (k m : ℕ) → m ≡ k → drop k (replicate {A = ℕ} m 0) ≡ []
drop-replicate_all k m e =
    ap (λ n. drop k (replicate {A = ℕ} n 0)) (omega arith) ∙ drop-replicate k 0

-- The last write fills the buffer.
pub finish_lem :
    (s w : Text) (k : ℕ)
    → k ≡ length s
    → finish s (record { written = w; cur = replicate k 0 }) ≡ w ++ s
unfolding finish
finish_lem s w k e =
    rw
      (
        take_all s (length (replicate {A = ℕ} k 0)) (length-replicate {A = ℕ} k 0 ∙ e),
        drop-replicate_all (length s) k e,
      )
      (ap (◌++◌ w) (append-nil s))
