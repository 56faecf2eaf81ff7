-- ===== src/Orm/Selector.antt =====
-- select.go: `Selector.Build` and the functions that it calls.
pub mod Chains
pub mod Renders
pub mod Build
pub mod Placeholders
pub mod Joins
use gotest.Common.{
  ℕ, zero, suc, ◌+◌, ◌-◌, Option, none, some, List, [], ◌∷◌, ◌++◌, Bool, true, false, ltb,
  if◌then◌else◌, length,
}
use gotest.Common.Text.{Text, codes}
use gotest.Orm.Meta.{Model, Error, index_out_of_range, nil_pointer}
use gotest.Orm.Query.{
  TableRef, nil, table, join, Expr, empty, pred, column, raw, value, Preds, Predicate, predicates,
  Selectable, aggregate, expr, and_pred,
}
use gotest.Orm.Query
use gotest.Orm.Builder.{
  Resolved, model, failed, Builder, Built, ok, err, ◌>>◌, Action, is_empty, skip, write, quote,
  add_args, write_alias, build_column, each,
}

-- `type Selector[T any] struct` beside its builder; `entity` is `new(T)`.
pub record Selector (E V : Type 0) : Type 0 where
  pub entity : E
  pub table_ref : TableRef E V
  pub where_preds : List (Predicate E V)
  pub columns : List (Selectable E V)

module _ {E V : Type 0} where
  abbrev pub is_pred : Expr E V → Bool
  is_pred (pred l op r) = true
  is_pred _ = false

  abbrev pub bracket : Bool → Action E V → Action E V
  bracket true f = write (codes "(") >> f >> write (codes ")")
  bracket false f = f

  abbrev pub write_op : Text → Action E V
  write_op op = if is_empty op then skip else write (codes " ") >> write op >> write (codes " ")

  unfoldable pub build_expression : Expr E V → Action E V
  build_expression empty = skip
  build_expression (pred left op right) =
      bracket (is_pred left) (build_expression left)
      >> write_op op
      >> bracket (is_pred right) (build_expression right)
  build_expression (column t name alias) = build_column t name []
  build_expression (raw s args) = write (codes "(") >> write s >> add_args args >> write (codes ")")
  build_expression (value v) = write (codes "?") >> add_args (v ∷ [])

  -- `err := buildColumn(…); WriteByte(')'); if err != nil { return err }`
  abbrev pub close_after : Built (Builder E V) → Built (Builder E V)
  close_after (ok b) = write (codes ")") b
  close_after (err e b) = err e (record b { sb = b.sb ++ codes ")" })

  abbrev pub then_close : Action E V → Action E V
  then_close f b = close_after (f b)

  -- The alias of an aggregate is quoted by backquotes in every dialect.
  abbrev pub write_aggregate_alias : Text → Action E V
  write_aggregate_alias alias =
      if is_empty alias then skip else write (codes " AS `") >> write alias >> write (codes "`")

  unfoldable pub build_selectable : Selectable E V → Action E V
  build_selectable (Selectable.column c) = build_column c.table_ref c.name c.alias
  build_selectable (aggregate fn arg alias) =
      write fn
      >> write (codes "(")
      >> then_close (build_column nil arg [])
      >> write_aggregate_alias alias
  build_selectable (Selectable.raw s args) = write s >> add_args args

  unfoldable pub build_columns : List (Selectable E V) → Action E V
  build_columns [] = write (codes "*")
  build_columns (c ∷ columns) = each build_selectable 0 (c ∷ columns)

  -- `for i := 1; i < n; i++ { p = p.And(ps[i]) }`, on the elements of `ps` from the second on and
  -- the number of rounds that are left.
  unfoldable pub and_rounds : ℕ → List (Predicate E V) → Predicate E V → Option (Predicate E V)
  and_rounds zero ps p = some p
  and_rounds (suc n) [] p = none
  and_rounds (suc n) (q ∷ ps) p = and_rounds n ps (and_pred p q)

  abbrev pub build_chained : Option (Predicate E V) → Action E V
  build_chained none b = err index_out_of_range b
  build_chained (some p) b = build_expression (expr p) b

  -- ` ON ` and ` WHERE `: the loop runs to `n`, which is a length.
  unfoldable pub build_predicates : Text → ℕ → List (Predicate E V) → Action E V
  build_predicates keyword n [] = skip
  build_predicates keyword n (p ∷ ps) = write keyword >> build_chained (and_rounds (n - 1) ps p)

  unfoldable pub build_using : List Text → Action E V
  build_using [] = skip
  build_using (c ∷ cols) =
      write (codes " USING (")
      >> each (λ name. build_column nil name []) 0 (c ∷ cols)
      >> write (codes ")")

  abbrev pub quote_table : Option Model → Action E V
  quote_table none b = err nil_pointer b
  quote_table (some m) b = quote m.table_name b

  abbrev pub quote_resolved : Resolved → Text → Action E V
  quote_resolved (failed e) alias b = err e b
  quote_resolved (model m) alias b = (quote m.table_name >> write_alias alias) b

  -- `where_len` is `len(s.where)`, to which the loop over the predicates of a join runs.
  unfoldable pub build_table : (where_len : ℕ) → TableRef E V → Action E V
  build_table where_len nil = λ b. quote_table b.meta b
  build_table where_len (table entity alias) = λ b. quote_resolved (b.r entity) alias b
  build_table where_len (join left right typ on using_cols) =
      write (codes "(")
      >> build_table where_len left
      >> write (codes " ")
      >> write typ
      >> write (codes " ")
      >> build_table where_len right
      >> build_using using_cols
      >> build_predicates (codes " ON ") where_len (predicates on)
      >> write (codes ")")

  abbrev pub load_resolved : Resolved → Action E V
  load_resolved (failed e) b = err e b
  load_resolved (model m) b = ok (record b { meta = some m })

  abbrev pub load_model_if : Option Model → Resolved → Action E V
  load_model_if none resolved b = load_resolved resolved b
  load_model_if (some m) resolved b = ok b

  -- `if s.model == nil { s.model, err = s.r.Get(new(T)) … }`
  unfoldable pub load_model : E → Action E V
  load_model entity b = load_model_if b.meta (b.r entity) b

  -- `Build`: the query's text and arguments are those of the builder that it leaves.
  unfoldable pub build : Selector E V → Action E V
  build s =
      load_model s.entity
      >> write (codes "SELECT ")
      >> build_columns s.columns
      >> write (codes " FROM ")
      >> build_table (length s.where_preds) s.table_ref
      >> build_predicates (codes " WHERE ") (length s.where_preds) s.where_preds
      >> write (codes ";")
