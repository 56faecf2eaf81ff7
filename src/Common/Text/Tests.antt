-- ===== src/Common/Text/Tests.antt =====
-- Runs of the text functions.
use Prim.Native.Nat.{ℕ}
use mathlib.Core.Path.{◌≡◌, refl}
use mathlib.Core.Logic.{ite}
use mathlib.Core.List.{[], ◌∷◌}
use native.Mathlib.Decide.{ℕ_discrete}
use gotest.Common.Text.{codes, text_discrete, split, trim}

split_path : split b'/' (codes "a/b//c") ≡ codes "a" ∷ codes "b" ∷ [] ∷ codes "c" ∷ []
unfolding split ℕ_discrete
split_path = refl

trim_path : trim b'/' (codes "//a/b/") ≡ codes "a/b"
unfolding trim ℕ_discrete
trim_path = refl

text_discrete_runs : ite {C = ℕ} (text_discrete (codes "ab") (codes "ac")) 2 1 ≡ 1
unfolding text_discrete
text_discrete_runs = refl
