-- ===== src/Orm/Selector/Renders.antt =====
-- `Selector.Build` appends an output that depends only on the query, the dialect's quote and the
-- metadata.
use gotest.Common.{
  ℕ, suc, ◌-◌, ◌≡◌, ◌∙◌, ap, subst, Option, none, some, List, [], ◌∷◌, ◌++◌, Bool, true, false,
  append_assoc, if◌then◌else◌, map, length,
}
use gotest.Common.Text.{Text, codes}
use gotest.Orm.Meta.{Model, Error, index_out_of_range, nil_pointer}
use gotest.Orm.Query.{
  TableRef, nil, table, join, Expr, empty, pred, column, raw, value, Predicate, predicates,
  Selectable, aggregate, expr,
}
use gotest.Orm.Builder.{
  Resolved, model, failed, Builder, ok, err, Action, is_empty, write, build_column,
}
use gotest.Orm.Render.{
  Out, out_text, out_args, fail, ◌⊕◌, comma_separated, quoted, emit, Renders, Renders-skip,
  Renders-write, Renders-args, Renders->>, Renders-quote, alias_out, Renders-alias, column_out,
  Renders-column, Renders-fail,
}
use gotest.Orm.Render.Lists.{Renders-each}
use gotest.Orm.Selector.Chains.{conjunction, first_of, and_rounds_lem, and_rounds_all}
use gotest.Orm.Selector.{
  is_pred, bracket, write_op, build_expression, close_after, then_close, write_aggregate_alias,
  build_selectable, build_columns, and_rounds, build_chained, build_predicates, build_using,
  quote_table, quote_resolved, build_table, Selector,
}

module _ {E V : Type 0} (q : ℕ) (m : Option Model) (r : E → Resolved) where
  abbrev pub bracket_out : Bool → Out V → Out V
  bracket_out true o = (out_text (codes "(") ⊕ o) ⊕ out_text (codes ")")
  bracket_out false o = o

  Renders-bracket :
      (b : Bool) {f : Action E V} {o : Out V}
      → Renders q m r f o
      → Renders q m r (bracket b f) (bracket_out b o)
  Renders-bracket true h =
      Renders->> q m r (Renders->> q m r (Renders-write q m r (codes "(")) h)
        (Renders-write q m r (codes ")"))
  Renders-bracket false h = h

  abbrev pub op_out : Text → Out V
  op_out op =
      if is_empty op
      then out_text []
      else (out_text (codes " ") ⊕ out_text op) ⊕ out_text (codes " ")

  Renders-op : (op : Text) → Renders q m r (write_op op) (op_out op)
  Renders-op [] = Renders-skip q m r
  Renders-op (c ∷ op) =
      Renders->> q m r
        (Renders->> q m r (Renders-write q m r (codes " ")) (Renders-write q m r (c ∷ op)))
        (Renders-write q m r (codes " "))

  -- An operand that is a predicate stands in parentheses.
  unfoldable pub expr_out : Expr E V → Out V
  expr_out empty = out_text []
  expr_out (pred left op right) =
      (bracket_out (is_pred left) (expr_out left) ⊕ op_out op)
      ⊕ bracket_out (is_pred right) (expr_out right)
  expr_out (column t name alias) = column_out q m r t name []
  expr_out (raw s args) =
      ((out_text (codes "(") ⊕ out_text s) ⊕ out_args args) ⊕ out_text (codes ")")
  expr_out (value v) = out_text (codes "?") ⊕ out_args (v ∷ [])

  pub Renders-expr : (e : Expr E V) → Renders q m r (build_expression e) (expr_out e)
  unfolding build_expression expr_out
  Renders-expr empty = Renders-skip q m r
  Renders-expr (pred left op right) =
      Renders->> q m r
        (Renders->> q m r (Renders-bracket (is_pred left) (Renders-expr left)) (Renders-op op))
        (Renders-bracket (is_pred right) (Renders-expr right))
  Renders-expr (column t name alias) = Renders-column q m r t name []
  Renders-expr (raw s args) =
      Renders->> q m r
        (Renders->> q m r
          (Renders->> q m r (Renders-write q m r (codes "(")) (Renders-write q m r s))
          (Renders-args q m r args))
        (Renders-write q m r (codes ")"))
  Renders-expr (value v) =
      Renders->> q m r (Renders-write q m r (codes "?")) (Renders-args q m r (v ∷ []))

  -- A parenthesis that is written also after an error.
  abbrev pub closed : Out V → Out V
  closed o = record { text = o.text ++ codes ")"; args = o.args; failure = o.failure }

  abbrev start : Text → List V → Builder E V
  start sb args = record { sb = sb; args = args; quoter = q; meta = m; r = r }

  closed_case :
      (t : Text) (vs : List V) (e : Option Error) (f : Action E V) (sb : Text) (args : List V)
      → f (start sb args) ≡ emit (record { text = t; args = vs; failure = e }) (start sb args)
      → then_close f (start sb args)
        ≡ emit (closed (record { text = t; args = vs; failure = e })) (start sb args)
  unfolding emit write
  closed_case t vs none f sb args h =
      ap close_after h
      ∙ ap (λ x. ok (record (start sb args) { sb = x; args = args ++ vs }))
          (append_assoc sb t (codes ")"))
  closed_case t vs (some e) f sb args h =
      ap close_after h
      ∙ ap (λ x. err e (record (start sb args) { sb = x; args = args ++ vs }))
          (append_assoc sb t (codes ")"))

  Renders-closed :
      {f : Action E V} {o : Out V} → Renders q m r f o → Renders q m r (then_close f) (closed o)
  Renders-closed {f} {o} h = record {
    apply = λ sb args. closed_case o.text o.args o.failure f sb args (h.apply sb args);
  }

  abbrev pub aggregate_alias_out : Text → Out V
  aggregate_alias_out alias =
      if is_empty alias
      then out_text []
      else (out_text (codes " AS `") ⊕ out_text alias) ⊕ out_text (codes "`")

  Renders-aggregate_alias :
      (alias : Text) → Renders q m r (write_aggregate_alias alias) (aggregate_alias_out alias)
  Renders-aggregate_alias [] = Renders-skip q m r
  Renders-aggregate_alias (c ∷ alias) =
      Renders->> q m r
        (Renders->> q m r (Renders-write q m r (codes " AS `")) (Renders-write q m r (c ∷ alias)))
        (Renders-write q m r (codes "`"))

  unfoldable pub selectable_out : Selectable E V → Out V
  selectable_out (Selectable.column c) = column_out q m r c.table_ref c.name c.alias
  selectable_out (aggregate fn arg alias) =
      ((out_text fn ⊕ out_text (codes "(")) ⊕ closed (column_out q m r nil arg []))
      ⊕ aggregate_alias_out alias
  selectable_out (Selectable.raw s args) = out_text s ⊕ out_args args

  Renders-selectable : (c : Selectable E V) → Renders q m r (build_selectable c) (selectable_out c)
  unfolding build_selectable selectable_out
  Renders-selectable (Selectable.column c) = Renders-column q m r c.table_ref c.name c.alias
  Renders-selectable (aggregate fn arg alias) =
      Renders->> q m r
        (Renders->> q m r
          (Renders->> q m r (Renders-write q m r fn) (Renders-write q m r (codes "(")))
          (Renders-closed (Renders-column q m r nil arg [])))
        (Renders-aggregate_alias alias)
  Renders-selectable (Selectable.raw s args) =
      Renders->> q m r (Renders-write q m r s) (Renders-args q m r args)

  -- `*`, or the selected columns with commas between.
  unfoldable pub columns_out : List (Selectable E V) → Out V
  columns_out [] = out_text (codes "*")
  columns_out (c ∷ columns) = comma_separated (map selectable_out (c ∷ columns))

  pub Renders-columns :
      (cs : List (Selectable E V)) → Renders q m r (build_columns cs) (columns_out cs)
  unfolding build_columns columns_out
  Renders-columns [] = Renders-write q m r (codes "*")
  Renders-columns (c ∷ columns) =
      Renders-each q m r build_selectable selectable_out Renders-selectable (c ∷ columns)

  abbrev pub chained_out : Option (Predicate E V) → Out V
  chained_out none = fail index_out_of_range
  chained_out (some p) = expr_out (expr p)

  Renders-chained : (o : Option (Predicate E V)) → Renders q m r (build_chained o) (chained_out o)
  Renders-chained none = record { apply = (Renders-fail q m r index_out_of_range).apply }
  Renders-chained (some p) = record { apply = (Renders-expr (expr p)).apply }

  -- The predicates of an ON: the first and the next `n - 1`, in a conjunction from the left; and of a
  -- WHERE: all of them.
  unfoldable pub predicates_out : Text → ℕ → List (Predicate E V) → Out V
  predicates_out keyword n [] = out_text []
  predicates_out keyword n (p ∷ ps) = out_text keyword ⊕ chained_out (first_of (n - 1) ps p)

  pub Renders-predicates :
      (keyword : Text) (n : ℕ) (ps : List (Predicate E V))
      → Renders q m r (build_predicates keyword n ps) (predicates_out keyword n ps)
  unfolding build_predicates predicates_out
  Renders-predicates keyword n [] = Renders-skip q m r
  Renders-predicates keyword n (p ∷ ps) = Renders->> q m r (Renders-write q m r keyword) (
      subst (λ o. Renders q m r (build_chained (and_rounds (n - 1) ps p)) (chained_out o))
        (and_rounds_lem (n - 1) ps p) (Renders-chained (and_rounds (n - 1) ps p)))

  unfoldable pub where_out : List (Predicate E V) → Out V
  where_out [] = out_text []
  where_out (p ∷ ps) = out_text (codes " WHERE ") ⊕ expr_out (expr (conjunction p ps))

  pub Renders-where :
      (ps : List (Predicate E V))
      → Renders q m r (build_predicates (codes " WHERE ") (length ps) ps) (where_out ps)
  unfolding build_predicates where_out
  Renders-where [] = Renders-skip q m r
  Renders-where (p ∷ ps) =
      let rounds = and_rounds (suc (length ps) - 1) ps p in
      Renders->> q m r (Renders-write q m r (codes " WHERE ")) (
        subst (λ o. Renders q m r (build_chained rounds) (chained_out o)) (and_rounds_all ps p)
          (Renders-chained rounds))

  unfoldable pub using_out : List Text → Out V
  using_out [] = out_text []
  using_out (c ∷ cols) =
      (out_text (codes " USING (")
        ⊕ comma_separated (map (λ name. column_out q m r nil name []) (c ∷ cols)))
      ⊕ out_text (codes ")")

  Renders-using : (cols : List Text) → Renders q m r (build_using cols) (using_out cols)
  unfolding build_using using_out
  Renders-using [] = Renders-skip q m r
  Renders-using (c ∷ cols) =
      Renders->> q m r
        (Renders->> q m r (Renders-write q m r (codes " USING (")) (
          Renders-each q m r (λ name. build_column nil name [])
            (λ name. column_out q m r nil name []) (λ name. Renders-column q m r nil name [])
            (c ∷ cols)))
        (Renders-write q m r (codes ")"))

  abbrev pub meta_table_out : Option Model → Out V
  meta_table_out none = fail nil_pointer
  meta_table_out (some md) = out_text (quoted q md.table_name)

  abbrev pub resolved_table_out : Resolved → Text → Out V
  resolved_table_out (failed e) alias = fail e
  resolved_table_out (model md) alias = out_text (quoted q md.table_name) ⊕ alias_out q m r alias

  meta_table_case : (md : Option Model) → Renders q m r (quote_table md) (meta_table_out md)
  meta_table_case none = Renders-fail q m r nil_pointer
  meta_table_case (some md) = record { apply = (Renders-quote q m r md.table_name).apply }

  resolved_table_case :
      (o : Resolved) (alias : Text)
      → Renders q m r (quote_resolved o alias) (resolved_table_out o alias)
  resolved_table_case (failed e) alias = Renders-fail q m r e
  resolved_table_case (model md) alias = record {
    apply =
        (Renders->> q m r (Renders-quote q m r md.table_name) (Renders-alias q m r alias)).apply;
  }

  unfoldable pub table_out : ℕ → TableRef E V → Out V
  table_out n nil = meta_table_out m
  table_out n (table entity alias) = resolved_table_out (r entity) alias
  table_out n (join left right typ on using_cols) =
      (((((((out_text (codes "(") ⊕ table_out n left) ⊕ out_text (codes " ")) ⊕ out_text typ)
              ⊕ out_text (codes " "))
            ⊕ table_out n right)
          ⊕ using_out using_cols)
        ⊕ predicates_out (codes " ON ") n (predicates on))
      ⊕ out_text (codes ")")

  pub Renders-table : (n : ℕ) (t : TableRef E V) → Renders q m r (build_table n t) (table_out n t)
  unfolding build_table table_out
  Renders-table n nil = record { apply = (meta_table_case m).apply }
  Renders-table n (table entity alias) = record {
    apply = (resolved_table_case (r entity) alias).apply;
  }
  Renders-table n (join left right typ on using_cols) =
      let w = Renders-write q m r in
      Renders->> q m r
        (Renders->> q m r
          (Renders->> q m r
            (Renders->> q m r
              (Renders->> q m r
                (Renders->> q m r
                  (Renders->> q m r (Renders->> q m r (w (codes "(")) (Renders-table n left))
                    (w (codes " ")))
                  (w typ))
                (w (codes " ")))
              (Renders-table n right))
            (Renders-using using_cols))
          (Renders-predicates (codes " ON ") n (predicates on)))
        (w (codes ")"))

  -- The whole query behind `SELECT `.
  unfoldable pub select_out : Selector E V → Out V
  select_out s =
      ((((out_text (codes "SELECT ") ⊕ columns_out s.columns) ⊕ out_text (codes " FROM "))
          ⊕ table_out (length s.where_preds) s.table_ref)
        ⊕ where_out s.where_preds)
      ⊕ out_text (codes ";")
