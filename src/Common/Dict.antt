-- ===== src/Common/Dict.antt =====
-- Go maps as association lists: the first entry of a key counts.
use Prim.Native.Nat.{◌+◌}
use mathlib.Core.Path.{◌≡◌, refl, sym, subst}
use mathlib.Core.Logic.{◌≢◌, ite, if_pos, if_neg}
use mathlib.Core.Option.{Option, none, some}
use mathlib.Core.List.{List, [], ◌∷◌}
use native.Mathlib.Omega.{arith}
use gotest.Common.Lists.{length, All}

module _ {ℓ} {K V : Type ℓ} where
  -- No two entries have one key.
  abbrev pub HasDistinctKeys : List (K × V) → Type ℓ
  HasDistinctKeys [] = Unit
  HasDistinctKeys ((k, v) ∷ m) = All (λ e. e.0 ≢ k) m × HasDistinctKeys m

module _ {ℓ} {K V : Type ℓ} (dec : Discrete K) where
  -- `v, ok := m[k]`
  unfoldable pub get : K → List (K × V) → Option V
  get k [] = none
  get k ((j, v) ∷ m) = let rest = get k m in ite (dec j k) (some v) rest

  -- `m[k] = v`
  unfoldable pub put : K → V → List (K × V) → List (K × V)
  put k v [] = (k, v) ∷ []
  put k v ((j, w) ∷ m) = let rest = put k v m in ite (dec j k) ((k, v) ∷ m) ((j, w) ∷ rest)

  -- `delete(m, k)`
  unfoldable pub remove : K → List (K × V) → List (K × V)
  remove k [] = []
  remove k ((j, w) ∷ m) = let rest = remove k m in ite (dec j k) m ((j, w) ∷ rest)

  pub get-put_self : (k : K) (v : V) (m : List (K × V)) → get k (put k v m) ≡ some v
  unfolding get put
  get-put_self k v [] = ground arith
  get-put_self k v ((j, w) ∷ m) = ground (arith, get-put_self k v m)

  pub get-put_ne : (k : K) (v : V) (m : List (K × V)) (i : K) → i ≢ k → get i (put k v m) ≡ get i m
  unfolding get put
  get-put_ne k v [] i h = ground arith
  get-put_ne k v ((j, w) ∷ m) i h = ground (arith, get-put_ne k v m i h)

  pub get-remove_ne : (k : K) (m : List (K × V)) (i : K) → i ≢ k → get i (remove k m) ≡ get i m
  unfolding get remove
  get-remove_ne k [] i h = refl
  get-remove_ne k ((j, w) ∷ m) i h = ground (arith, get-remove_ne k m i h)

  get_absent : (k : K) (m : List (K × V)) → All (λ e. e.0 ≢ k) m → get k m ≡ none
  unfolding get
  get_absent k [] h = refl
  get_absent k ((j, w) ∷ m) h = ground (arith, get_absent k m h.1)

  pub get-remove_self : (k : K) (m : List (K × V)) → HasDistinctKeys m → get k (remove k m) ≡ none
  unfolding get remove
  get-remove_self k [] d = refl
  get-remove_self k ((j, w) ∷ m) d = ground (arith, get-remove_self k m d.1, get_absent j m d.0)

  pub length-put_new :
      (k : K) (v : V) (m : List (K × V)) → get k m ≡ none → length (put k v m) ≡ length m + 1
  unfolding get put
  length-put_new k v [] h = omega arith
  length-put_new k v ((j, w) ∷ m) h = ground (arith, length-put_new k v m)

  pub length-put_old :
      (k : K) (v w : V) (m : List (K × V)) → get k m ≡ some w → length (put k v m) ≡ length m
  unfolding get put
  length-put_old k v w [] h = cc
  length-put_old k v w ((j, x) ∷ m) h = ground (arith, length-put_old k v w m)

  pub length-remove :
      (k : K) (w : V) (m : List (K × V)) → get k m ≡ some w → length (remove k m) + 1 ≡ length m
  unfolding get remove
  length-remove k w [] h = cc
  length-remove k w ((j, x) ∷ m) h = ground (arith, length-remove k w m)

  pub remove_absent : (k : K) (m : List (K × V)) → get k m ≡ none → remove k m ≡ m
  unfolding get remove
  remove_absent k [] h = refl
  remove_absent k ((j, x) ∷ m) h = ground (arith, remove_absent k m)

  module _ (P : K × V → Type ℓ) where
    pub All-put : (k : K) (v : V) (m : List (K × V)) → All P m → P (k, v) → All P (put k v m)
    unfolding put
    All-put k v [] h p = (p, tt)
    All-put k v ((j, w) ∷ m) h p = ground (arith, All-put k v m h.1 p)

    pub All-remove : (k : K) (m : List (K × V)) → All P m → All P (remove k m)
    unfolding remove
    All-remove k [] h = tt
    All-remove k ((j, w) ∷ m) h = ground (arith, All-remove k m h.1)

    pub get-All : (k : K) (v : V) (m : List (K × V)) → All P m → get k m ≡ some v → P (k, v)
    unfolding get
    get-All k v [] h e = cc
    get-All k v ((j, w) ∷ m) h e = elim (dec j k) [
      | yes p ↦ subst P (ground arith) h.0
      | no p ↦ get-All k v m h.1 (ground arith)
    ]

  pub put-HasDistinctKeys :
      (k : K) (v : V) (m : List (K × V)) → HasDistinctKeys m → HasDistinctKeys (put k v m)
  unfolding put
  put-HasDistinctKeys k v [] d = (tt, tt)
  put-HasDistinctKeys k v ((j, w) ∷ m) d = elim (dec j k) [
    | yes p ↦ rw (if_pos _ p) (rw (← p) d.0, d.1)
    | no p ↦
        rw (if_neg _ p)
          (All-put (λ e. e.0 ≢ j) k v m d.0 (λ e. p (sym e)), put-HasDistinctKeys k v m d.1)
  ]

  pub remove-HasDistinctKeys :
      (k : K) (m : List (K × V)) → HasDistinctKeys m → HasDistinctKeys (remove k m)
  unfolding remove
  remove-HasDistinctKeys k [] d = tt
  remove-HasDistinctKeys k ((j, w) ∷ m) d =
      ground (arith, remove-HasDistinctKeys k m d.1, All-remove (λ e. e.0 ≢ j) k m d.0)
