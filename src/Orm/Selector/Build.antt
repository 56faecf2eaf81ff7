-- ===== src/Orm/Selector/Build.antt =====
-- What `Selector.Build` leaves in its builder.
use gotest.Common.{
  ℕ, ◌≡◌, refl, sym, ◌∙◌, ap, ◌⊎◌, inl, inr, subst, Option-cases, Option, none, some, List, ◌++◌,
  length,
}
use gotest.Common.Text.{Text, codes}
use gotest.Orm.Meta.{Model, Error}
use gotest.Orm.Builder.{
  Resolved, model, failed, Builder, Built, ok, err, ◌>>◌, and_then, Action, write,
}
use gotest.Orm.Render.{Out, emit, emit_failure, Renders, Renders-write, Renders->>}
use gotest.Orm.Selector.{
  build_columns, build_predicates, build_table, load_model, load_model_if, load_resolved, Selector,
  build,
}
use gotest.Orm.Selector.Renders.{Renders-columns, Renders-where, Renders-table, select_out}

ok-injective : {B : Type 0} {a b : B} → Built.ok a ≡ ok b → a ≡ b
ok-injective e = cc

ok-ne-err : {B : Type 0} {a b : B} {e : Error} → ¬ (ok a ≡ err e b)
ok-ne-err e = cc

module _ {E V : Type 0} where
  -- `Build` behind the lookup of the model.
  abbrev build_text : Selector E V → Action E V
  build_text s =
      write (codes "SELECT ")
      >> build_columns s.columns
      >> write (codes " FROM ")
      >> build_table (length s.where_preds) s.table_ref
      >> build_predicates (codes " WHERE ") (length s.where_preds) s.where_preds
      >> write (codes ";")

  build_text-select_out :
      (q : ℕ) (m : Option Model) (r : E → Resolved) (s : Selector E V)
      → Renders q m r (build_text s) (select_out q m r s)
  unfolding select_out
  build_text-select_out q m r s =
      let w = Renders-write q m r in
      Renders->> q m r
        (Renders->> q m r
          (Renders->> q m r
            (Renders->> q m r
              (Renders->> q m r (w (codes "SELECT ")) (Renders-columns q m r s.columns))
              (w (codes " FROM ")))
            (Renders-table q m r (length s.where_preds) s.table_ref))
          (Renders-where q m r s.where_preds))
        (w (codes ";"))

  -- The operations after the lookup can be read as one.
  build_split :
      (s : Selector E V) (b : Builder E V)
      → build s b ≡ and_then (build_text s) (load_model s.entity b)
  unfolding build
  build_split s b = split_case s (load_model s.entity b)
    where
      split_case :
          (s : Selector E V) (o : Built (Builder E V))
          → and_then (write (codes ";")) (
              and_then (build_predicates (codes " WHERE ") (length s.where_preds) s.where_preds) (
                and_then (build_table (length s.where_preds) s.table_ref) (
                  and_then
                    (write (codes " FROM "))
                    (and_then (build_columns s.columns) (and_then (write (codes "SELECT ")) o)))))
            ≡ and_then (build_text s) o
      split_case s (ok b) = refl
      split_case s (err e b) = refl

  -- The model of the query: the one that the selector has, or else its entity's.
  abbrev pub HasModel : Selector E V → Builder E V → Model → Type 0
  HasModel s b md = (b.meta ≡ some md) ⊎ ((b.meta ≡ none) × (b.r s.entity ≡ model md))

  load_model_lem :
      (s : Selector E V) (b : Builder E V) (md : Model)
      → HasModel s b md
      → load_model s.entity b ≡ ok (record b { meta = some md })
  unfolding load_model
  load_model_lem s b md (inl h) =
      ap (λ x. load_model_if x (b.r s.entity) b) h ∙ ap (λ x. ok (record b { meta = x })) h
  load_model_lem s b md (inr h) =
      ap (λ x. load_model_if x (b.r s.entity) b) h.0 ∙ ap (λ x. load_resolved x b) h.1

  -- With a model, `Build` appends the text and the arguments of the query to those that the selector
  -- holds, and ends with the query's error if it has one: what was written before neither changes
  -- nor changes them. The query has all WHERE predicates, joined by AND from the left.
  pub build-select_out :
      (s : Selector E V) (b : Builder E V) (md : Model)
      → HasModel s b md
      → build s b ≡ emit (select_out b.quoter (some md) b.r s) (record b { meta = some md })
  build-select_out s b md h =
      build_split s b
      ∙ (ap (and_then (build_text s)) (load_model_lem s b md h)
          ∙ (build_text-select_out b.quoter (some md) b.r s).apply b.sb b.args)

  -- With no model to be had, `Build` ends with the registry's error and writes nothing.
  pub build_no_model :
      (s : Selector E V) (b : Builder E V) (e : Error)
      → b.meta ≡ none
      → b.r s.entity ≡ failed e
      → build s b ≡ err e b
  unfolding load_model
  build_no_model s b e h k = build_split s b ∙ rw (h, load_model, k)

  pub emit_ok :
      (o : Out V) (b b1 : Builder E V)
      → emit o b ≡ ok b1
      → (o.failure ≡ none) × (b1 ≡ record b { sb = b.sb ++ o.text; args = b.args ++ o.args })
  unfolding emit
  emit_ok o b b1 e = elim (Option-cases o.failure) [
    | inl h ↦ (
      h,
      ok-injective (
          sym e
          ∙ ap (λ f. emit_failure f (record b { sb = b.sb ++ o.text; args = b.args ++ o.args })) h),
    )
    | inr (x, h) ↦ absurd (
        ok-ne-err (
          sym e
          ∙ ap (λ f. emit_failure f (record b { sb = b.sb ++ o.text; args = b.args ++ o.args })) h))
  ]

  emit_none :
      (o : Out V) (b : Builder E V)
      → o.failure ≡ none
      → emit o b ≡ ok (record b { sb = b.sb ++ o.text; args = b.args ++ o.args })
  unfolding emit
  emit_none o b h = rw h

  -- A second `Build` of a selector writes the query again, behind the first: the text and the
  -- arguments that one `Build` adds are added twice.
  pub build_twice :
      (s : Selector E V) (b b1 : Builder E V) (md : Model)
      → HasModel s b md
      → build s b ≡ ok b1
      → (text : Text) × (args : List V) × (b1
          ≡ record b { meta = some md; sb = b.sb ++ text; args = b.args ++ args })
        × (build s b1 ≡ ok (record b1 { sb = b1.sb ++ text; args = b1.args ++ args }))
  build_twice s b b1 md h e =
      let o = select_out b.quoter (some md) b.r s in
      let b0 : Builder E V = record b { meta = some md } in
      let (fine, same) = emit_ok o b0 b1 (sym (build-select_out s b md h) ∙ e) in
      (
        o.text,
        o.args,
        same,
        subst (λ x. build s x ≡ ok (record x { sb = x.sb ++ o.text; args = x.args ++ o.args }))
            (sym same)
            (build-select_out s (record b0 { sb = b.sb ++ o.text; args = b.args ++ o.args }) md
                (inl refl)
              ∙ emit_none o _ fine),
      )
