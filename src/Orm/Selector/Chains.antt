-- ===== src/Orm/Selector/Chains.antt =====
-- The predicates of a WHERE and of a join's ON as one predicate, and the loop of `and`s that makes it.
use gotest.Common.{
  ℕ, zero, suc, ◌-◌, ◌<◌, ◌≤◌, ◌≡◌, refl, ◌∙◌, ap, Option, none, some, List, [], ◌∷◌, Bool, true,
  false, leb, if◌then◌else◌, arith, length, take,
}
use gotest.Common.Text.{codes}
use gotest.Orm.Query.{Predicate, expr, and_pred}
use gotest.Orm.Selector.{and_rounds}

take_all : {A : Type 0} (xs : List A) → take (length xs) xs ≡ xs
take_all [] = refl
take_all (x ∷ xs) = ap (◌∷◌ x) (take_all xs)

module _ {E V : Type 0} where
  -- The predicates joined by AND, from the left.
  unfoldable pub conjunction : Predicate E V → List (Predicate E V) → Predicate E V
  conjunction p [] = p
  conjunction p (x ∷ ps) =
      conjunction (record { left = expr p; op = codes "AND"; right = expr x }) ps

  -- The conjunction of a predicate and the next `n`, where there are so many.
  abbrev pub first_of : ℕ → List (Predicate E V) → Predicate E V → Option (Predicate E V)
  first_of n ps p = if leb n (length ps) then some (conjunction p (take n ps)) else none

  and_rounds_enough :
      (n : ℕ) (ps : List (Predicate E V)) (p : Predicate E V)
      → n ≤ length ps
      → and_rounds n ps p ≡ some (conjunction p (take n ps))
  unfolding and_rounds conjunction
  and_rounds_enough zero ps p h = refl
  and_rounds_enough (suc n) [] p h = absurd (omega (arith, h))
  and_rounds_enough (suc n) (x ∷ ps) p h = and_rounds_enough n ps (and_pred p x) (omega (arith, h))

  and_rounds_short :
      (n : ℕ) (ps : List (Predicate E V)) (p : Predicate E V)
      → length ps < n
      → and_rounds n ps p ≡ none
  unfolding and_rounds
  and_rounds_short zero ps p h = absurd (omega (arith, h))
  and_rounds_short (suc n) [] p h = refl
  and_rounds_short (suc n) (x ∷ ps) p h = and_rounds_short n ps (and_pred p x) (omega (arith, h))

  -- The loop makes the conjunction, or runs out of predicates.
  pub and_rounds_lem :
      (n : ℕ) (ps : List (Predicate E V)) (p : Predicate E V) → and_rounds n ps p ≡ first_of n ps p
  and_rounds_lem n ps p = at_case (leb n (length ps)) refl
    where
      at_case :
          (x : Bool)
          → leb n (length ps) ≡ x
          → and_rounds n ps p ≡ (if x then some (conjunction p (take n ps)) else none)
      at_case true h = and_rounds_enough n ps p (ground (arith, h))
      at_case false h = and_rounds_short n ps p (ground (arith, h))

  -- To the number of all predicates, it makes the conjunction of all of them.
  pub and_rounds_all :
      (ps : List (Predicate E V)) (p : Predicate E V)
      → and_rounds (suc (length ps) - 1) ps p ≡ some (conjunction p ps)
  and_rounds_all ps p =
      ap (λ n. and_rounds n ps p) (same (length ps))
      ∙ (and_rounds_enough (length ps) ps p (omega arith)
          ∙ ap (λ xs. some (conjunction p xs)) (take_all ps))
    where
      same : (n : ℕ) → suc n - 1 ≡ n
      same n = omega arith
