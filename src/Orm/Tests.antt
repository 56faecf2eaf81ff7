-- ===== src/Orm/Tests.antt =====
-- The builders at concrete queries: entities are numbers, and so are arguments.
use gotest.Common.{ℕ, zero, suc, subst, ◌≡◌, refl, inr, ◌+◌, none, some, [], ◌∷◌, length, arith}
use gotest.Common.Text.{Text, codes}
use gotest.Common.Text
use gotest.Common.Dict
use native.Mathlib.Decide.{ℕ_discrete}
use gotest.Orm.Meta.{
  Model, Field, Error, index_out_of_range, point_only, insert_zero_row, unknown_column,
}
use gotest.Orm.Meta
use gotest.Orm.Query.{
  TableRef, nil, table, join, Preds, Predicate, Selectable, expr, col, eq, lt, gt, value_of, sum,
  other, table_col, join_on, as_alias,
}
use gotest.Orm.Query
use gotest.Orm.Builder.{Resolved, model, failed, Builder, Built, ok, err, ◌>>◌, write}
use gotest.Orm.Builder
use gotest.Orm.Render.{emit}
use gotest.Orm.Render.Marks.{marks, IsPlain, ArePlain}
use gotest.Orm.Selector.{Selector, build, build_expression, build_predicates, build_table}
use gotest.Orm.Selector
use gotest.Orm.Selector.Renders.{select_out}
use gotest.Orm.Selector.Build.{HasModel, build-select_out}
use gotest.Orm.Selector.Placeholders.{QueryPlain, build-marks}
use gotest.Orm.Selector.Joins.{join_drops_predicates}

abbrev field : Text → Text → Field
field go col = record { col_name = col; typ = 0; go_name = go; offset = 0 }

abbrev users : Model
users = record {
  table_name = codes "user";
  fields = field (codes "Id") (codes "id") ∷ field (codes "Age") (codes "age") ∷ [];
  field_map = (codes "Id", 0) ∷ (codes "Age", 1) ∷ [];
  column_map = (codes "id", 0) ∷ (codes "age", 1) ∷ [];
}

-- Entity 0 is a user; others are refused.
abbrev registry : ℕ → Resolved
registry zero = model users
registry (suc e) = failed point_only

abbrev start : Builder ℕ ℕ
start = record { sb = []; args = []; quoter = b'`'; meta = none; r = registry }

abbrev older : Predicate ℕ ℕ
older = gt (col (codes "Age")) 18

abbrev named : Predicate ℕ ℕ
named = eq (col (codes "Id")) (other 5)

abbrev query : Selector ℕ ℕ
query = record {
  entity = 0;
  table_ref = nil;
  where_preds = older ∷ named ∷ [];
  columns = Selectable.column (col (codes "Id")) ∷ sum (codes "Age") ∷ [];
}

runs : Unit {0}
unfolding Selector.build Selector.build_expression Selector.build_selectable Selector.build_columns
    Selector.build_predicates Selector.build_using Selector.build_table Selector.load_model
    Selector.and_rounds Builder.build_column Builder.write Builder.add_args Builder.each
    Meta.field_of Meta.get_elem? Dict.get Text.text_discrete ℕ_discrete
runs = tt

abbrev built : Builder ℕ ℕ
built = record start {
  meta = some users;
  sb = codes "SELECT `id`,SUM(`age`) FROM `user` WHERE (`age` > ?) AND (`id` = ?);";
  args = 18 ∷ 5 ∷ [];
}

query-built : build query start ≡ ok built
unfolding runs
query-built = refl

query-HasModel : HasModel query start users
query-HasModel = inr (refl, refl)

build-select_out_example :
    build query start
    ≡ emit (select_out b'`' (some users) registry query) (record start { meta = some users })
build-select_out_example = build-select_out query start users query-HasModel

users-IsPlain : IsPlain users
users-IsPlain = record { table_plain = omega arith; columns_plain = omega arith }

model-injective : {a b : Model} → model a ≡ model b → a ≡ b
model-injective e = cc

registry-IsPlain : (e : ℕ) (md : Model) → registry e ≡ model md → IsPlain md
registry-IsPlain zero md h = subst IsPlain (model-injective h) users-IsPlain
registry-IsPlain (suc e) md h = cc

query-QueryPlain : QueryPlain query
query-QueryPlain = record {
  columns_plain = ((tt, tt), ((omega arith, tt), tt));
  where_plain = ((tt, (omega arith, tt), tt), ((tt, (omega arith, tt), tt), tt));
  from_plain = tt;
}

start-ArePlain : ArePlain b'`' users registry
start-ArePlain = record { quote_ne = omega arith; own = users-IsPlain; others = registry-IsPlain }

build-marks_example : marks built.sb + length start.args ≡ marks start.sb + length built.args
build-marks_example =
    build-marks query start built users query-HasModel start-ArePlain query-QueryPlain query-built

-- Of the two predicates of this join only the first is written.
abbrev rest : Preds ℕ ℕ
rest = Query.preds (named ∷ [])

join_drops_predicates_example :
    build_table 0
      (join
        (table 0 (codes "a"))
        (table 0 (codes "b"))
        (codes "JOIN")
        (Preds.more older.left older.op older.right rest)
        [])
      start
    ≡ build_table 0
        (join
          (table 0 (codes "a"))
          (table 0 (codes "b"))
          (codes "JOIN")
          (Preds.more older.left older.op older.right Preds.none)
          [])
        start
join_drops_predicates_example =
    join_drops_predicates 0 (table 0 (codes "a")) (table 0 (codes "b")) (codes "JOIN") [] older rest
      start (omega arith)
