-- ===== src/Orm/Query.antt =====
-- The values that a query is made of: orm/table.go, column.go, predicate.go, expression.go,
-- aggregate.go and assignment.go. `E` is the type of entities and `V` that of arguments (`any`).
use gotest.Common.{List, [], ◌∷◌}
use gotest.Common.Text.{Text, codes}

-- `TableReference` with `Table` and `Join`, `Expression` with `Predicate`, `Column`, `RawExpr` and
-- `value`, and the list of a join's predicates; `nil` and `empty` are the nil interfaces.
mutual
  pub data TableRef (E V : Type 0) : Type 0 where
    nil : TableRef E V
    table : E → (alias : Text) → TableRef E V
    join :
        (left right : TableRef E V) (typ : Text) (on : Preds E V) (using_cols : List Text)
        → TableRef E V

  pub data Expr (E V : Type 0) : Type 0 where
    empty : Expr E V
    pred : (left : Expr E V) (op : Text) (right : Expr E V) → Expr E V
    column : TableRef E V → (name alias : Text) → Expr E V
    raw : Text → List V → Expr E V
    value : V → Expr E V

  pub data Preds (E V : Type 0) : Type 0 where
    none : Preds E V
    more : (left : Expr E V) (op : Text) (right : Expr E V) → Preds E V → Preds E V

pub record Column (E V : Type 0) : Type 0 where
  pub table_ref : TableRef E V
  pub name : Text
  pub alias : Text

pub record Predicate (E V : Type 0) : Type 0 where
  pub left : Expr E V
  pub op : Text
  pub right : Expr E V

-- `Selectable` and `Assignable`; `nil` is the nil interface.
pub data Selectable (E V : Type 0) : Type 0 where
  column : Column E V → Selectable E V
  aggregate : (fn arg alias : Text) → Selectable E V
  raw : Text → List V → Selectable E V

pub data Assignable (E V : Type 0) : Type 0 where
  nil : Assignable E V
  assignment : (col : Text) → V → Assignable E V
  column : Column E V → Assignable E V

-- The argument of `Eq`: an expression, or any other value.
pub data Arg (E V : Type 0) : Type 0 where
  expression : Expr E V → Arg E V
  other : V → Arg E V

module _ {E V : Type 0} where
  abbrev pub expr : Predicate E V → Expr E V
  expr p = pred p.left p.op p.right

  abbrev pub column_expr : Column E V → Expr E V
  column_expr c = column c.table_ref c.name c.alias

  abbrev pub predicates : Preds E V → List (Predicate E V)
  predicates none = []
  predicates (more l o r ps) = record { left = l; op = o; right = r } ∷ predicates ps

  abbrev pub preds : List (Predicate E V) → Preds E V
  preds [] = none
  preds (p ∷ ps) = more p.left p.op p.right (preds ps)

  -- `C`, `Column.As`, `Table.C`, `TableOf`, `Table.As`
  abbrev pub col : Text → Column E V
  col name = record { table_ref = nil; name = name; alias = [] }

  abbrev pub as_alias : Column E V → Text → Column E V
  as_alias c alias = record { name = c.name; alias = alias; table_ref = c.table_ref }

  abbrev pub table_col : E → Text → Text → Column E V
  table_col entity alias name = record { name = name; table_ref = table entity alias; alias = [] }

  abbrev pub table_of : E → TableRef E V
  table_of entity = table entity []

  -- `ValueOf`, `Column.Eq`, `Lt`, `Gt`; of these only `Eq` looks at its argument's type, and `Lt` and
  -- `Gt` take the argument as it is.
  abbrev pub value_of : Arg E V → Expr E V
  value_of (expression e) = e
  value_of (other v) = value v

  abbrev pub eq : Column E V → Arg E V → Predicate E V
  eq c arg = record { left = column_expr c; op = codes "="; right = value_of arg }

  abbrev pub lt : Column E V → V → Predicate E V
  lt c arg = record { left = column_expr c; op = codes "<"; right = value arg }

  abbrev pub gt : Column E V → V → Predicate E V
  gt c arg = record { left = column_expr c; op = codes ">"; right = value arg }

  -- `Not`, `Predicate.And`, `Predicate.Or`, `RawExpr.AsPredicate`
  abbrev pub not_pred : Predicate E V → Predicate E V
  not_pred p = record { left = empty; op = codes "NOT"; right = expr p }

  abbrev pub and_pred : Predicate E V → Predicate E V → Predicate E V
  and_pred p q = record { left = expr p; op = codes "AND"; right = expr q }

  abbrev pub or_pred : Predicate E V → Predicate E V → Predicate E V
  or_pred p q = record { left = expr p; op = codes "OR"; right = expr q }

  abbrev pub as_predicate : Text → List V → Predicate E V
  as_predicate s args = record { left = raw s args; op = []; right = empty }

  -- `Avg`, `Sum`, `Count`, `Max`, `Min`, `Aggregate.As`
  abbrev pub avg : Text → Selectable E V
  avg c = aggregate (codes "AVG") c []

  abbrev pub sum : Text → Selectable E V
  sum c = aggregate (codes "SUM") c []

  abbrev pub count : Text → Selectable E V
  count c = aggregate (codes "COUNT") c []

  abbrev pub max : Text → Selectable E V
  max c = aggregate (codes "MAX") c []

  abbrev pub min : Text → Selectable E V
  min c = aggregate (codes "MIN") c []

  -- `Table.Join` and its kin with `On` and `Using`
  abbrev pub join_on : Text → TableRef E V → TableRef E V → List (Predicate E V) → TableRef E V
  join_on typ left right ps = join left right typ (preds ps) []

  abbrev pub join_using : Text → TableRef E V → TableRef E V → List Text → TableRef E V
  join_using typ left right cols = join left right typ none cols
