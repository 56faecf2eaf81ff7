-- ===== src/Common/Text.antt =====
-- Go strings and byte slices as lists of bytes, with the parts of the packages `strings` and
-- `bytes` that the code calls.
pub mod Trim
mod Tests
use Prim.Native.Char.{code}
use Prim.Native.String.{String}
use Prim.Native.Nat.{ℕ, zero, suc, ◌+◌}
use mathlib.Core.Path.{◌≡◌, refl, ap, ap₂, sym, ◌∙◌}
use mathlib.Core.Logic.{◌≢◌, ite}
use mathlib.Core.Option.{Option, none, some}
use mathlib.Core.List.{List, [], ◌∷◌, ◌++◌, reverse, reverse-append, reverse-reverse}
use native.Mathlib.Omega.{arith}
use native.Mathlib.Decide.{ℕ_discrete}
use gotest.Common.Lists.{All}

abbrev pub Text : Type 0
Text = List ℕ

-- A literal's bytes; the literals of the code that are used here are ASCII.
abbrev pub codes : String → Text
codes String.[] = []
codes (String.◌∷◌ c s) = code c ∷ codes s

cons_eq : {a b : ℕ} {s t : Text} → a ≡ b → s ≡ t → (a ∷ s) ≡ (b ∷ t)
cons_eq p q = ap₂ (◌∷◌) p q

head_eq : {a b : ℕ} {s t : Text} → (a ∷ s) ≡ (b ∷ t) → a ≡ b
head_eq e = cc

tail_eq : {a b : ℕ} {s t : Text} → (a ∷ s) ≡ (b ∷ t) → s ≡ t
tail_eq e = cc

nil_ne_cons : {a : ℕ} {s : Text} → ¬ ([] ≡ (a ∷ s))
nil_ne_cons e = cc

cons_ne_nil : {a : ℕ} {s : Text} → ¬ ((a ∷ s) ≡ [])
cons_ne_nil e = cc

both : {a b : ℕ} {s t : Text} → Dec (a ≡ b) → Dec (s ≡ t) → Dec ((a ∷ s) ≡ (b ∷ t))
both (yes p) (yes q) = yes (cons_eq p q)
both (no p) d = no (λ e. p (head_eq e))
both (yes p) (no q) = no (λ e. q (tail_eq e))

unfoldable pub text_discrete : Discrete Text
unfolding cons_eq head_eq tail_eq nil_ne_cons cons_ne_nil both ℕ_discrete
text_discrete [] [] = yes refl
text_discrete [] (b ∷ t) = no nil_ne_cons
text_discrete (a ∷ s) [] = no cons_ne_nil
text_discrete (a ∷ s) (b ∷ t) = both (ℕ_discrete a b) (text_discrete s t)

abbrev prepend : ℕ → List Text → List Text
prepend c [] = (c ∷ []) ∷ []
prepend c (s ∷ ss) = (c ∷ s) ∷ ss

-- `strings.Split(s, sep)` for a separator of one byte.
unfoldable pub split : ℕ → Text → List Text
split sep [] = [] ∷ []
split sep (c ∷ s) = let rest = split sep s in ite (ℕ_discrete c sep) ([] ∷ rest) (prepend c rest)

-- `strings.TrimLeft(s, cut)` and `strings.Trim(s, cut)` for a cut set of one byte.
unfoldable pub trim_left : ℕ → Text → Text
trim_left cut [] = []
trim_left cut (c ∷ s) = let rest = trim_left cut s in ite (ℕ_discrete c cut) rest (c ∷ s)

unfoldable pub trim : ℕ → Text → Text
unfolding trim_left
trim cut s = reverse (trim_left cut (reverse (trim_left cut s)))

-- `strings.Join(ss, sep)` for a separator of one byte: what `split` undoes.
unfoldable pub join : ℕ → List Text → Text
join sep [] = []
join sep (s ∷ []) = s
join sep (s ∷ t ∷ ss) = s ++ sep ∷ join sep (t ∷ ss)

-- `bytes.IndexByte(s, c)`; `none` is -1.
unfoldable pub index_byte : Text → ℕ → Option ℕ
index_byte [] c = none
index_byte (b ∷ s) c =
    let rest = index_byte s c in
    ite (ℕ_discrete b c) (some 0) (elim rest [ none ↦ none | some i ↦ some (suc i) ])

-- The text holds no byte `c`.
abbrev pub Lacks : ℕ → Text → Type 0
Lacks c s = All (λ b. b ≢ c) s

pub split_one : (sep : ℕ) (s : Text) → Lacks sep s → split sep s ≡ s ∷ []
unfolding split
split_one sep [] h = refl
split_one sep (c ∷ s) h = ground (arith, split_one sep s h.1)

pub split-append : (sep : ℕ) (s t : Text) → Lacks sep s → split sep (s ++ sep ∷ t) ≡ s ∷ split sep t
unfolding split
split-append sep [] t h = ground arith
split-append sep (c ∷ s) t h = ground (arith, split-append sep s t h.1)

-- Splitting undoes joining, for a list that is not empty of texts without the separator.
pub split-join :
    (sep : ℕ) (s : Text) (ss : List Text)
    → All (Lacks sep) (s ∷ ss)
    → split sep (join sep (s ∷ ss)) ≡ s ∷ ss
unfolding join
split-join sep s [] h = split_one sep s h.0
split-join sep s (t ∷ ss) h =
    split-append sep s (join sep (t ∷ ss)) h.0 ∙ ap (◌∷◌ s) (split-join sep t ss h.1)

pub index_byte-append :
    (s : Text) (c : ℕ) (t : Text)
    → Lacks c s
    → index_byte (s ++ c ∷ t) c ≡ some (gotest.Common.Lists.length s)
unfolding index_byte
index_byte-append [] c t h = ground arith
index_byte-append (b ∷ s) c t h = ground (arith, index_byte-append s c t h.1)

pub index_byte_none : (s : Text) (c : ℕ) → Lacks c s → index_byte s c ≡ none
unfolding index_byte
index_byte_none [] c h = refl
index_byte_none (b ∷ s) c h = ground (arith, index_byte_none s c h.1)
