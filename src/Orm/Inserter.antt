-- ===== src/Orm/Inserter.antt =====
-- insert.go: the state of an `Inserter` and its `Build`.
pub mod Build
pub mod Values
pub mod Repeated
mod Tests
use gotest.Common.{ℕ, ◌+◌, ◌≡◌, Option, none, some, List, [], ◌∷◌}
use gotest.Common.Text.{Text, codes}
use gotest.Orm.Meta.{Model, Field, Error, insert_zero_row, unknown_column, nil_pointer, field_of}
use gotest.Orm.Builder.{
  Resolved, model, failed, Builder, Built, ok, err, ◌>>◌, Action, skip, write, quote, add_args,
  each,
}
use gotest.Orm.Dialect.{Dialect, Upsert, build_upsert}

-- What `Field` of the row's `valuer.Value` returns.
pub data Read (V : Type 0) : Type 0 where
  got : V → Read V
  unreadable : Error → Read V

-- `type Inserter[T any] struct` beside its builder, with the dialect and the creator of its core.
pub record Inserter (E V : Type 0) : Type 0 where
  pub values : List E
  pub columns : List Text
  pub on_duplicate_key : Option (Upsert E V)
  pub dialect : Dialect
  pub creator : Model → E → Text → Read V

-- The fields of the columns, or the first column that the model does not have.
pub data Chosen : Type 0 where
  fields : List Field → Chosen
  unknown : Text → Chosen

abbrev pub add_field : Option Field → Text → Chosen → Chosen
add_field none name rest = unknown name
add_field (some fd) name (fields fs) = fields (fd ∷ fs)
add_field (some fd) name (unknown other) = unknown other

unfoldable pub choose : Model → List Text → Chosen
choose md [] = fields []
choose md (name ∷ columns) = add_field (field_of md name) name (choose md columns)

-- `fields := i.model.Fields`, and the loop over the columns if there are any
unfoldable pub chosen_fields : Model → List Text → Chosen
chosen_fields md [] = fields md.fields
chosen_fields md (name ∷ columns) = choose md (name ∷ columns)

module _ {E V : Type 0} where
  abbrev pub add_read : Read V → Action E V
  add_read (got v) = add_args (v ∷ [])
  add_read (unreadable e) = λ b. err e b

  -- The loop over the fields of one row, and over the rows.
  abbrev pub build_value : (Text → Read V) → Field → Action E V
  build_value val fd = write (codes "?") >> add_read (val fd.go_name)

  abbrev pub build_row : (Model → E → Text → Read V) → Model → List Field → E → Action E V
  build_row creator md fs v =
      write (codes "(") >> each (build_value (creator md v)) 0 fs >> write (codes ")")

  abbrev pub reset_args : Action E V
  reset_args b = ok (record b { args = [] })

  abbrev pub build_on_duplicate : Dialect → Option (Upsert E V) → Action E V
  build_on_duplicate d none = skip
  build_on_duplicate d (some u) = build_upsert d u

  abbrev pub build_rows : Inserter E V → Model → List Field → Action E V
  build_rows i md fs =
      each (λ fd. quote fd.col_name) 0 fs
      >> write (codes ")")
      >> write (codes " VALUES ")
      >> reset_args
      >> each (build_row i.creator md fs) 0 i.values
      >> build_on_duplicate i.dialect i.on_duplicate_key
      >> write (codes ";")

  abbrev pub build_chosen : Inserter E V → Model → Chosen → Action E V
  build_chosen i md (fields fs) = build_rows i md fs
  build_chosen i md (unknown name) = λ b. err (unknown_column name) b

  abbrev pub build_in : Inserter E V → Option Model → Action E V
  build_in i none = λ b. err nil_pointer b
  build_in i (some md) =
      quote md.table_name >> write (codes "(") >> build_chosen i md (chosen_fields md i.columns)

  abbrev pub load_resolved : Resolved → Action E V
  load_resolved (failed e) b = err e b
  load_resolved (model m) b = ok (record b { meta = some m })

  abbrev pub load_model : Option Model → Resolved → Action E V
  load_model none resolved b = load_resolved resolved b
  load_model (some m) resolved b = ok b

  -- `Build` of at least one row.
  abbrev pub build_from : Inserter E V → E → Action E V
  build_from i v =
      (λ b. ok (record b { sb = [] }))
      >> write (codes "INSERT INTO ")
      >> (λ b. load_model b.meta (b.r v) b)
      >> (λ b. build_in i b.meta b)

  abbrev pub build_of : Inserter E V → List E → Action E V
  build_of i [] = λ b. err insert_zero_row b
  build_of i (v ∷ values) = build_from i v

  -- `Build`: the query's text and arguments are those of the builder that it leaves.
  unfoldable pub build : Inserter E V → Action E V
  build i = build_of i i.values
