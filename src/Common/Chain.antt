-- ===== src/Common/Chain.antt =====
-- The loops of web/serve.go and orm/core.go that wrap a function in middlewares.
use Prim.Native.Nat.{ℕ, zero, suc}
use mathlib.Core.Path.{◌≡◌, refl, ap, ◌∙◌}
use mathlib.Core.Option.{Option, none, some}
use mathlib.Core.List.{List, [], ◌∷◌}
use gotest.Common.Lists.{length}

-- `xs[i]`
unfoldable pub index {ℓ} : {A : Type ℓ} → List A → ℕ → Option A
index [] i = none
index (x ∷ xs) zero = some x
index (x ∷ xs) (suc i) = index xs i

module _ {H : Type 0} where
  abbrev apply_at : Option (H → H) → H → H
  apply_at none root = root
  apply_at (some m) root = m root

  -- `for i := n - 1; i >= 0; i-- { root = mdls[i](root) }`
  unfoldable pub wrap_from : List (H → H) → ℕ → H → H
  unfolding index
  wrap_from mdls zero root = root
  wrap_from mdls (suc i) root = wrap_from mdls i (apply_at (index mdls i) root)

  -- The chain as the order of the middlewares reads: the first one is outermost.
  unfoldable pub chain : List (H → H) → H → H
  chain [] root = root
  chain (m ∷ ms) root = m (chain ms root)

  wrap_from-cons :
      (m : H → H) (ms : List (H → H)) (i : ℕ) (root : H)
      → wrap_from (m ∷ ms) (suc i) root ≡ m (wrap_from ms i root)
  unfolding wrap_from index
  wrap_from-cons m ms zero root = refl
  wrap_from-cons m ms (suc i) root = wrap_from-cons m ms i (apply_at (index ms i) root)

  -- From the length of the list on, the loop makes the chain.
  pub wrap_from-chain :
      (ms : List (H → H)) (root : H) → wrap_from ms (length ms) root ≡ chain ms root
  unfolding chain wrap_from
  wrap_from-chain [] root = refl
  wrap_from-chain (m ∷ ms) root =
      wrap_from-cons m ms (length ms) root ∙ ap m (wrap_from-chain ms root)
