-- ===== src/Orm/Selector/Placeholders.antt =====
-- A query has as many placeholders as arguments.
use gotest.Common.{
  ℕ, zero, suc, ◌+◌, ◌-◌, ◌≡◌, refl, sym, ◌∙◌, none, some, List, [], ◌∷◌, ◌++◌, Bool, true, false,
  map, arith, length, length-append, leb, take, if◌then◌else◌, All, subst,
}
use gotest.Common.Text.{Text, codes, Lacks}
use gotest.Orm.Meta.{Model, index_out_of_range}
use gotest.Orm.Query.{
  TableRef, nil, table, join, Expr, empty, pred, column, raw, value, Predicate, predicates,
  Selectable, aggregate, expr, and_pred,
}
use gotest.Orm.Builder.{Resolved, model, failed, Builder, ok}
use gotest.Orm.Render.{Out, out_text, out_args, ◌⊕◌, emit}
use gotest.Orm.Render.Marks.{
  question, marks, marks-append, marks-Lacks, IsMatched, text-IsMatched, fail-IsMatched,
  ⊕-IsMatched, commas-IsMatched, ColumnPlain, ArePlain, quoted-IsMatched, alias-IsMatched,
  column-IsMatched,
}
use gotest.Orm.Selector.Chains.{conjunction}
use gotest.Orm.Selector.{is_pred, Selector, build}
use gotest.Orm.Selector.Renders.{
  bracket_out, op_out, expr_out, closed, aggregate_alias_out, selectable_out, columns_out,
  chained_out, predicates_out, where_out, using_out, resolved_table_out, table_out, select_out,
}
use gotest.Orm.Selector.Build.{HasModel, build-select_out, emit_ok}

module _ {E V : Type 0} where
  -- The texts that a query's author gives hold no question mark, but for raw expressions, which hold
  -- as many as they have arguments.
  abbrev pub ExprPlain : Expr E V → Type 0
  ExprPlain empty = Unit
  ExprPlain (pred l op r) = ExprPlain l × Lacks question op × ExprPlain r
  ExprPlain (column t name alias) = ColumnPlain t
  ExprPlain (raw s args) = marks s ≡ length args
  ExprPlain (value v) = Unit

  abbrev pub PredicatePlain : Predicate E V → Type 0
  PredicatePlain p = ExprPlain (expr p)

  abbrev pub SelectablePlain : Selectable E V → Type 0
  SelectablePlain (Selectable.column c) = ColumnPlain c.table_ref × Lacks question c.alias
  SelectablePlain (aggregate fn arg alias) = Lacks question fn × Lacks question alias
  SelectablePlain (Selectable.raw s args) = marks s ≡ length args

  abbrev pub TablePlain : TableRef E V → Type 0
  TablePlain nil = Unit
  TablePlain (table entity alias) = Lacks question alias
  TablePlain (join l r typ on using_cols) =
      TablePlain l × TablePlain r × Lacks question typ × All PredicatePlain (predicates on)

  pub record QueryPlain (s : Selector E V) : Type 0 where
    pub columns_plain : All SelectablePlain s.columns
    pub where_plain : All PredicatePlain s.where_preds
    pub from_plain : TablePlain s.table_ref

and_plain : Lacks question (codes "AND")
and_plain = omega arith

module _ {E V : Type 0} {q : ℕ} {md : Model} {r : E → Resolved} (p : ArePlain q md r) where
  bracket-IsMatched :
      (b : Bool) (o : Out V) → IsMatched o → IsMatched (bracket_out {E = E} q (some md) r b o)
  bracket-IsMatched true o h =
      ⊕-IsMatched (⊕-IsMatched (text-IsMatched (codes "(") (omega arith)) h)
        (text-IsMatched (codes ")") (omega arith))
  bracket-IsMatched false o h = h

  op-IsMatched :
      (op : Text) → Lacks question op → IsMatched (op_out {E = E} {V = V} q (some md) r op)
  op-IsMatched [] h = text-IsMatched [] tt
  op-IsMatched (c ∷ op) h =
      ⊕-IsMatched
        (⊕-IsMatched (text-IsMatched (codes " ") (omega arith)) (text-IsMatched (c ∷ op) h))
        (text-IsMatched (codes " ") (omega arith))

  raw-IsMatched :
      (s : Text) (args : List V) → marks s ≡ length args → IsMatched (out_text s ⊕ out_args args)
  unfolding ◌⊕◌ marks
  raw-IsMatched s args h = record { apply = λ f. omega (arith, h, marks-append s []) }

  parens-IsMatched :
      (s : Text) (args : List V)
      → marks s ≡ length args
      → IsMatched (((out_text (codes "(") ⊕ out_text s) ⊕ out_args args) ⊕ out_text (codes ")"))
  unfolding ◌⊕◌
  parens-IsMatched s args h = record {
    apply = λ f. omega (
      arith,
      h,
      marks-append ((codes "(" ++ s) ++ []) (codes ")"),
      marks-append (codes "(" ++ s) [],
      marks-append (codes "(") s,
      marks-Lacks (codes "(") (omega arith),
      marks-Lacks (codes ")") (omega arith),
      marks-Lacks [] tt,
      length-append args [],
    );
  }

  expr-IsMatched : (e : Expr E V) → ExprPlain e → IsMatched (expr_out q (some md) r e)
  unfolding expr_out marks native.Mathlib.Decide.ℕ_discrete
  expr-IsMatched empty h = text-IsMatched [] tt
  expr-IsMatched (pred left op right) h =
      ⊕-IsMatched
        (⊕-IsMatched (bracket-IsMatched (is_pred left) _ (expr-IsMatched left h.0))
          (op-IsMatched op h.1))
        (bracket-IsMatched (is_pred right) _ (expr-IsMatched right h.2))
  expr-IsMatched (column t name alias) h = column-IsMatched p t name [] h tt
  expr-IsMatched (raw s args) h = parens-IsMatched s args h
  expr-IsMatched (value v) h = raw-IsMatched (codes "?") (v ∷ []) refl

  closed-IsMatched : (o : Out V) → IsMatched o → IsMatched (closed q (some md) r o)
  closed-IsMatched o h = record {
    apply = λ f.
        omega (
          arith,
          h.apply f,
          marks-append o.text (codes ")"),
          marks-Lacks (codes ")") (omega arith),
        );
  }

  aggregate_alias-IsMatched :
      (s : Text)
      → Lacks question s
      → IsMatched (aggregate_alias_out {E = E} {V = V} q (some md) r s)
  aggregate_alias-IsMatched [] h = text-IsMatched [] tt
  aggregate_alias-IsMatched (c ∷ s) h =
      ⊕-IsMatched
        (⊕-IsMatched (text-IsMatched (codes " AS `") (omega arith)) (text-IsMatched (c ∷ s) h))
        (text-IsMatched (codes "`") (omega arith))

  selectable-IsMatched :
      (c : Selectable E V) → SelectablePlain c → IsMatched (selectable_out q (some md) r c)
  unfolding selectable_out
  selectable-IsMatched (Selectable.column c) h =
      column-IsMatched p c.table_ref c.name c.alias h.0 h.1
  selectable-IsMatched (aggregate fn arg alias) h =
      ⊕-IsMatched
        (⊕-IsMatched
          (⊕-IsMatched (text-IsMatched fn h.0) (text-IsMatched (codes "(") (omega arith)))
          (closed-IsMatched _ (column-IsMatched p nil arg [] tt tt)))
        (aggregate_alias-IsMatched alias h.1)
  selectable-IsMatched (Selectable.raw s args) h = raw-IsMatched s args h

  All-IsMatched :
      {A : Type 0} (out : A → Out V) (P : A → Type 0) (xs : List A)
      → ((x : A) → P x → IsMatched (out x))
      → All P xs
      → All IsMatched (map out xs)
  All-IsMatched out P [] f h = tt
  All-IsMatched out P (x ∷ xs) f h = (f x h.0, All-IsMatched out P xs f h.1)

  columns-IsMatched :
      (cs : List (Selectable E V))
      → All SelectablePlain cs
      → IsMatched (columns_out q (some md) r cs)
  unfolding columns_out
  columns-IsMatched [] h = text-IsMatched (codes "*") (omega arith)
  columns-IsMatched (c ∷ cs) h =
      commas-IsMatched _ (
        All-IsMatched (selectable_out q (some md) r) SelectablePlain (c ∷ cs) selectable-IsMatched
          h)

  conjunction-IsMatched :
      (ps : List (Predicate E V)) (x : Predicate E V)
      → PredicatePlain x
      → All PredicatePlain ps
      → IsMatched (expr_out q (some md) r (expr (conjunction x ps)))
  unfolding conjunction
  conjunction-IsMatched [] x h k = expr-IsMatched (expr x) h
  conjunction-IsMatched (y ∷ ps) x h k =
      conjunction-IsMatched ps (and_pred x y) (h, and_plain, k.0) k.1

  All-take :
      (n : ℕ) (ps : List (Predicate E V)) → All PredicatePlain ps → All PredicatePlain (take n ps)
  All-take zero ps h = tt
  All-take (suc n) [] h = tt
  All-take (suc n) (x ∷ ps) h = (h.0, All-take n ps h.1)

  first-IsMatched :
      (b : Bool) (ps : List (Predicate E V)) (x : Predicate E V)
      → PredicatePlain x
      → All PredicatePlain ps
      → IsMatched (chained_out q (some md) r (if b then some (conjunction x ps) else none))
  first-IsMatched true ps x h k = conjunction-IsMatched ps x h k
  first-IsMatched false ps x h k = fail-IsMatched index_out_of_range

  predicates-IsMatched :
      (keyword : Text) (n : ℕ) (ps : List (Predicate E V))
      → Lacks question keyword
      → All PredicatePlain ps
      → IsMatched (predicates_out q (some md) r keyword n ps)
  unfolding predicates_out
  predicates-IsMatched keyword n [] h k = text-IsMatched [] tt
  predicates-IsMatched keyword n (x ∷ ps) h k =
      ⊕-IsMatched (text-IsMatched keyword h) (
        first-IsMatched (leb (n - 1) (length ps)) (take (n - 1) ps) x k.0 (All-take (n - 1) ps k.1))

  where-IsMatched :
      (ps : List (Predicate E V)) → All PredicatePlain ps → IsMatched (where_out q (some md) r ps)
  unfolding where_out
  where-IsMatched [] k = text-IsMatched [] tt
  where-IsMatched (x ∷ ps) k =
      ⊕-IsMatched (text-IsMatched (codes " WHERE ") (omega arith))
        (conjunction-IsMatched ps x k.0 k.1)

  every-IsMatched :
      {A : Type 0} (out : A → Out V) (xs : List A)
      → ((x : A) → IsMatched (out x))
      → All IsMatched (map out xs)
  every-IsMatched out [] f = tt
  every-IsMatched out (x ∷ xs) f = (f x, every-IsMatched out xs f)

  using-IsMatched : (cols : List Text) → IsMatched (using_out {E = E} {V = V} q (some md) r cols)
  unfolding using_out
  using-IsMatched [] = text-IsMatched [] tt
  using-IsMatched (c ∷ cols) =
      ⊕-IsMatched
        (⊕-IsMatched (text-IsMatched (codes " USING (") (omega arith)) (
          commas-IsMatched _
            (every-IsMatched _ (c ∷ cols) (λ name. column-IsMatched p nil name [] tt tt))))
        (text-IsMatched (codes ")") (omega arith))

  resolved_table-IsMatched :
      (o : Resolved) (e : E) (alias : Text)
      → r e ≡ o
      → Lacks question alias
      → IsMatched (resolved_table_out {E = E} {V = V} q (some md) r o alias)
  resolved_table-IsMatched (failed x) e alias h k = fail-IsMatched x
  resolved_table-IsMatched (model md') e alias h k =
      let plain = p.others e md' h in
      ⊕-IsMatched (quoted-IsMatched p md'.table_name plain.table_plain) (alias-IsMatched p alias k)

  table-IsMatched :
      (n : ℕ) (t : TableRef E V) → TablePlain t → IsMatched (table_out q (some md) r n t)
  unfolding table_out
  table-IsMatched n nil h = quoted-IsMatched p md.table_name p.own.table_plain
  table-IsMatched n (table entity alias) h = resolved_table-IsMatched (r entity) entity alias refl h
  table-IsMatched n (join left right typ on using_cols) h =
      let space : IsMatched (out_text {V = V} (codes " ")) =
        text-IsMatched (codes " ") (omega arith) in
      let from =
        ⊕-IsMatched
          (⊕-IsMatched (text-IsMatched (codes "(") (omega arith)) (table-IsMatched n left h.0))
          space in
      let to =
        ⊕-IsMatched (⊕-IsMatched (⊕-IsMatched from (text-IsMatched typ h.2)) space)
          (table-IsMatched n right h.1) in
      ⊕-IsMatched
        (⊕-IsMatched (⊕-IsMatched to (using-IsMatched using_cols))
          (predicates-IsMatched (codes " ON ") n (predicates on) (omega arith) h.3))
        (text-IsMatched (codes ")") (omega arith))

  select-IsMatched : (s : Selector E V) → QueryPlain s → IsMatched (select_out q (some md) r s)
  unfolding select_out
  select-IsMatched s h =
      let n = length s.where_preds in
      ⊕-IsMatched
        (⊕-IsMatched
          (⊕-IsMatched
            (⊕-IsMatched
              (⊕-IsMatched (text-IsMatched (codes "SELECT ") (omega arith))
                (columns-IsMatched s.columns h.columns_plain))
              (text-IsMatched (codes " FROM ") (omega arith)))
            (table-IsMatched n s.table_ref h.from_plain))
          (where-IsMatched s.where_preds h.where_plain))
        (text-IsMatched (codes ";") (omega arith))

module _ {E V : Type 0} where
  emit-marks :
      (o : Out V) (b b1 : Builder E V)
      → IsMatched o
      → emit o b ≡ ok b1
      → marks b1.sb + length b.args ≡ marks b.sb + length b1.args
  emit-marks o b b1 h e =
      let (fine, same) = emit_ok o b b1 e in
      subst (λ x. marks x.sb + length b.args ≡ marks b.sb + length x.args) (sym same)
        (omega (arith, h.apply fine, marks-append b.sb o.text, length-append b.args o.args))

  -- When the texts of a query, its metadata and the dialect's quote are plain, a `Build` that
  -- succeeds adds as many question marks to the text as arguments to the list.
  pub build-marks :
      (s : Selector E V) (b b1 : Builder E V) (md : Model)
      → HasModel s b md
      → ArePlain b.quoter md b.r
      → QueryPlain s
      → build s b ≡ ok b1
      → marks b1.sb + length b.args ≡ marks b.sb + length b1.args
  build-marks s b b1 md h p k e =
      emit-marks (select_out b.quoter (some md) b.r s) (record b { meta = some md }) b1
        (select-IsMatched p s k) (sym (build-select_out s b md h) ∙ e)
