-- ===== src/Orm/Inserter/Repeated.antt =====
-- `Inserter.Build` again, and its error on a column.
use gotest.Common.{◌≡◌, refl, sym, ◌∙◌, ap, subst, inl, some, List, [], ◌∷◌, ◌++◌}
use gotest.Common.Text.{Text}
use gotest.Orm.Meta.{Model, Field, unknown_column}
use gotest.Orm.Builder.{Builder, ok, err}
use gotest.Orm.Render.{emit}
use gotest.Orm.Inserter.{Inserter, fields, unknown, chosen_fields, build_chosen, build_of, build}
use gotest.Orm.Inserter.Build.{opening, heading, rows_out, HasModel, opened, build-rows_out}
use gotest.Orm.Selector.Build.{emit_ok}

module _ {E V : Type 0} where
  -- A `Build` that succeeds leaves a builder from which a second `Build` gives the same query.
  pub build_again :
      (i : Inserter E V) (b b1 : Builder E V) (v : E) (vs : List E) (md : Model) (fs : List Field)
      → i.values ≡ v ∷ vs
      → HasModel b v md
      → chosen_fields md i.columns ≡ fields fs
      → build i b ≡ ok b1
      → build i b1 ≡ ok b1
  build_again i b b1 v vs md fs e h k l =
      let o = rows_out b.quoter md b.r i fs in
      let b0 : Builder E V = record b { meta = some md; sb = heading b.quoter md fs; args = [] } in
      let first : emit o b0 ≡ ok b1 = sym (build-rows_out i b v vs md fs e h k) ∙ l in
      let (fine, same) = emit_ok o b0 b1 first in
      subst (λ x. build i x ≡ ok b1) (sym same)
        (build-rows_out i (record b0 { sb = b0.sb ++ o.text; args = b0.args ++ o.args }) v vs md fs
            e (inl refl) k
          ∙ first)

  -- An insertion that names a column which the model does not have ends with that error, behind the
  -- opening of the statement, and leaves the arguments as they were.
  pub build_unknown_column :
      (i : Inserter E V) (b : Builder E V) (v : E) (vs : List E) (md : Model) (name : Text)
      → i.values ≡ v ∷ vs
      → HasModel b v md
      → chosen_fields md i.columns ≡ unknown name
      → build i b
        ≡ err (unknown_column name) (record b { meta = some md; sb = opening b.quoter md })
  unfolding build
  build_unknown_column i b v vs md name e h k =
      ap (λ xs. build_of i xs b) e
      ∙ (opened i b v vs md h
          ∙ ap (λ c. build_chosen i md c (record b { meta = some md; sb = opening b.quoter md })) k)
