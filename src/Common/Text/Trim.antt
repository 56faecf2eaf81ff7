-- ===== src/Common/Text/Trim.antt =====
-- What `strings.Trim` does to a path, and that `split` loses nothing.
use Prim.Native.Nat.{ℕ}
use mathlib.Core.Path.{◌≡◌, refl}
use mathlib.Core.Logic.{◌≢◌, if_pos, if_neg}
use mathlib.Core.List.{List, [], ◌∷◌, ◌++◌, reverse, reverse-cons, reverse-reverse}
use native.Mathlib.Omega.{arith}
use native.Mathlib.Decide.{ℕ_discrete}
use gotest.Common.Lists.{All}
use gotest.Common.Text.{Text, Lacks, split, join, trim_left, trim}

module _ (c : ℕ) where
  -- The text is not empty, and does not begin (end) with the byte.
  abbrev pub HeadNe : Text → Type 0
  HeadNe [] = ⊥
  HeadNe (b ∷ s) = b ≢ c

  abbrev pub LastNe : Text → Type 0
  LastNe [] = ⊥
  LastNe (b ∷ []) = b ≢ c
  LastNe (b ∷ d ∷ s) = LastNe (d ∷ s)

  HeadNe-append : (s t : Text) → HeadNe s → HeadNe (s ++ t)
  HeadNe-append [] t h = absurd h
  HeadNe-append (b ∷ s) t h = h

  HeadNe-reverse : (s : Text) → LastNe s → HeadNe (reverse s)
  HeadNe-reverse [] h = absurd h
  HeadNe-reverse (b ∷ []) h = h
  HeadNe-reverse (b ∷ d ∷ s) h =
      rw reverse-cons (HeadNe-append (reverse (d ∷ s)) (b ∷ []) (HeadNe-reverse (d ∷ s) h))

  trim_left-HeadNe : (s : Text) → HeadNe s → trim_left c s ≡ s
  unfolding trim_left
  trim_left-HeadNe [] h = absurd h
  trim_left-HeadNe (b ∷ s) h = if_neg (ℕ_discrete b c) h _ _

  trim_left-cons : (s : Text) → trim_left c (c ∷ s) ≡ trim_left c s
  unfolding trim_left
  trim_left-cons s = ground arith

  -- A leading separator goes, and what neither begins nor ends with it stays.
  pub trim-cons : (s : Text) → HeadNe s → LastNe s → trim c (c ∷ s) ≡ s
  unfolding trim
  trim-cons s h k =
      rw (trim_left-cons s, trim_left-HeadNe s h, trim_left-HeadNe (reverse s) (HeadNe-reverse s k))
        (reverse-reverse s)

  LastNe-append : (s t : Text) → LastNe t → LastNe (s ++ t)
  LastNe-append [] t h = h
  LastNe-append (b ∷ []) [] h = absurd h
  LastNe-append (b ∷ []) (d ∷ t) h = h
  LastNe-append (b ∷ d ∷ s) t h = LastNe-append (d ∷ s) t h

  LastNe-of_Lacks : (b : ℕ) (s : Text) → Lacks c (b ∷ s) → LastNe (b ∷ s)
  LastNe-of_Lacks b [] h = h.0
  LastNe-of_Lacks b (d ∷ s) h = LastNe-of_Lacks d s h.1

  -- A path segment: not empty, without the separator.
  abbrev pub IsSegment : Text → Type 0
  IsSegment s = (s ≢ []) × Lacks c s

  HeadNe-of_IsSegment : (s : Text) → IsSegment s → HeadNe s
  HeadNe-of_IsSegment [] h = h.0 refl
  HeadNe-of_IsSegment (b ∷ s) h = h.1.0

  LastNe-of_IsSegment : (s : Text) → IsSegment s → LastNe s
  LastNe-of_IsSegment [] h = h.0 refl
  LastNe-of_IsSegment (b ∷ s) h = LastNe-of_Lacks b s h.1

  HeadNe-join : (s : Text) (ss : List Text) → IsSegment s → HeadNe (join c (s ∷ ss))
  unfolding join
  HeadNe-join s [] h = HeadNe-of_IsSegment s h
  HeadNe-join s (t ∷ ss) h = HeadNe-append s _ (HeadNe-of_IsSegment s h)

  LastNe-cons : (b : ℕ) (s : Text) → LastNe s → LastNe (b ∷ s)
  LastNe-cons b [] h = absurd h
  LastNe-cons b (d ∷ s) h = h

  LastNe-join : (s : Text) (ss : List Text) → All IsSegment (s ∷ ss) → LastNe (join c (s ∷ ss))
  unfolding join
  LastNe-join s [] h = LastNe-of_IsSegment s h.0
  LastNe-join s (t ∷ ss) h =
      LastNe-append s _ (LastNe-cons c (join c (t ∷ ss)) (LastNe-join t ss h.1))

  -- Trimming `/a/b/c` gives `a/b/c`.
  pub trim-join :
      (s : Text) (ss : List Text)
      → All IsSegment (s ∷ ss)
      → trim c (c ∷ join c (s ∷ ss)) ≡ join c (s ∷ ss)
  trim-join s ss h = trim-cons _ (HeadNe-join s ss h.0) (LastNe-join s ss h)

  pub split-cons : (s : Text) → (t : Text) × (ts : List Text) × (split c s ≡ t ∷ ts)
  unfolding split
  split-cons [] = ([], [], refl)
  split-cons (b ∷ s) =
      let (t, ts, e) = split-cons s in
      elim (ℕ_discrete b c) [
        | yes p ↦ ([], t ∷ ts, rw (if_pos _ p, e))
        | no p ↦ (b ∷ t, ts, rw (if_neg _ p, e))
      ]

  join-prepend : (b : ℕ) (t : Text) (ts : List Text) → join c ((b ∷ t) ∷ ts) ≡ b ∷ join c (t ∷ ts)
  unfolding join
  join-prepend b t [] = refl
  join-prepend b t (u ∷ ts) = refl

  join-nil : (t : Text) (ts : List Text) → join c ([] ∷ t ∷ ts) ≡ c ∷ join c (t ∷ ts)
  unfolding join
  join-nil t ts = refl

  pub join-split : (s : Text) → join c (split c s) ≡ s
  unfolding split
  join-split [] = unfold join in refl
  join-split (b ∷ s) =
      let (t, ts, e) = split-cons s in
      elim (ℕ_discrete b c) [
        | yes p ↦ rw (if_pos _ p, e, join-nil, ← e, join-split s, p)
        | no p ↦ rw (if_neg _ p, e, join-prepend, ← e, join-split s)
      ]

  pub split-Lacks : (s : Text) → All (Lacks c) (split c s)
  unfolding split
  split-Lacks [] = (tt, tt)
  split-Lacks (b ∷ s) =
      let (t, ts, e) = split-cons s in
      let ih : All (Lacks c) (t ∷ ts) = rw e at (split-Lacks s) in
      elim (ℕ_discrete b c) [
        | yes p ↦ rw (if_pos _ p) (tt, split-Lacks s)
        | no p ↦ rw (if_neg _ p, e) ((p, ih.0), ih.1)
      ]
