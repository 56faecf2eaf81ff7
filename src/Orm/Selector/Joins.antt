-- ===== src/Orm/Selector/Joins.antt =====
-- Which of a join's ON predicates are written.
use gotest.Common.{ℕ, zero, suc, ◌≤◌, ◌≡◌, refl, List, arith}
use gotest.Common.Text.{Text}
use gotest.Orm.Query.{Preds, Predicate, TableRef, join}
use gotest.Orm.Builder.{Builder}
use gotest.Orm.Selector.{and_rounds, build_predicates, build_table}

module _ {E V : Type 0} where
  -- A query with at most one WHERE predicate writes, of a join's ON predicates, only the first.
  pub join_drops_predicates :
      (n : ℕ) (l r : TableRef E V) (typ : Text) (cols : List Text) (p : Predicate E V)
      (ps : Preds E V) (b : Builder E V)
      → n ≤ 1
      → build_table n (join l r typ (Preds.more p.left p.op p.right ps) cols) b
        ≡ build_table n (join l r typ (Preds.more p.left p.op p.right Preds.none) cols) b
  unfolding build_table build_predicates and_rounds
  join_drops_predicates zero l r typ cols p ps b h = refl
  join_drops_predicates (suc zero) l r typ cols p ps b h = refl
  join_drops_predicates (suc (suc n)) l r typ cols p ps b h = absurd (omega (arith, h))
