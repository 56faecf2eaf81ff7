-- ===== src/Orm/Values/Tests.antt =====
-- The two ways to fill a value, at a structure with two fields.
use gotest.Common.{ℕ, ◌≡◌, refl, none, some, List, [], ◌∷◌, ite, All}
use gotest.Common.Text.{Text, codes, text_discrete}
use gotest.Common.Dict
use native.Mathlib.Decide.{ℕ_discrete}
use gotest.Orm.Meta.{Field, Model, Error, other}
use gotest.Orm.Meta
use gotest.Orm.Values.{
  Place, unexported, settable, Memory, Rows, ok, fields_of, types, store_at, store_at, set,
  panicked, unsafe_set_columns, reflect_set_columns,
}
use gotest.Orm.Values
use gotest.Orm.Values.Agreement.{
  IsLaid, silenced, set_columns_agree, set_columns_unexported, set_columns_error,
}

runs : Unit {0}
unfolding Values.fields_of Values.types Meta.column_of Meta.get_elem? Dict.get text_discrete
runs = tt

abbrev id_field : Field
id_field = record { col_name = codes "id"; typ = 1; go_name = codes "Id"; offset = 0 }

abbrev age_field : Field
age_field = record { col_name = codes "age"; typ = 2; go_name = codes "Age"; offset = 8 }

abbrev meta : Model
meta = record {
  table_name = codes "user";
  fields = id_field ∷ age_field ∷ [];
  field_map = (codes "Id", 0) ∷ (codes "Age", 1) ∷ [];
  column_map = (codes "id", 0) ∷ (codes "age", 1) ∷ [];
}

abbrev layout : Text → Place
layout name = ite (text_discrete name (codes "Id")) (settable 0) (settable 8)

abbrev columns : List Text
columns = codes "age" ∷ codes "id" ∷ []

abbrev rows : Rows ℕ
rows = record { columns = some columns; scan = λ ts. (18 ∷ 1 ∷ [], none) }

found : fields_of meta columns ≡ ok (age_field ∷ id_field ∷ [])
unfolding runs
found = refl

laid : All (IsLaid layout) (age_field ∷ id_field ∷ [])
unfolding runs
laid = (refl, (refl, tt))

abbrev zeroed : Memory ℕ
zeroed = (0, 0) ∷ (8, 0) ∷ []

set_columns_agree_example :
    reflect_set_columns layout meta rows zeroed
    ≡ set (unsafe_set_columns meta rows zeroed).0 (unsafe_set_columns meta rows zeroed).1
set_columns_agree_example =
    set_columns_agree layout meta rows zeroed columns (age_field ∷ id_field ∷ []) (18 ∷ 1 ∷ []) refl
      found laid refl

abbrev bad_rows : Rows ℕ
bad_rows = record { columns = some columns; scan = λ ts. (18 ∷ [], some 3) }

bad_scan : reflect_set_columns layout meta bad_rows zeroed ≡ set (some (other 3)) zeroed
unfolding reflect_set_columns runs
bad_scan = refl

set_columns_error_example :
    (zeroed ≡ zeroed)
    × (unsafe_set_columns meta bad_rows zeroed ≡ unsafe_set_columns meta (silenced bad_rows) zeroed)
set_columns_error_example = set_columns_error layout meta bad_rows zeroed zeroed (other 3) bad_scan

-- `Id` is exported and `Age` is not.
abbrev half_exported : Text → Place
half_exported name = ite (text_discrete name (codes "Id")) (settable 0) (unexported 8)

age_unexported : half_exported (codes "Age") ≡ unexported 8
unfolding runs
age_unexported = refl

set_columns_unexported_example :
    (reflect_set_columns half_exported meta rows zeroed ≡ panicked)
    × (unsafe_set_columns meta rows zeroed ≡ (
      none,
      store_at (id_field ∷ []) (1 ∷ []) (Dict.put ℕ_discrete 8 18 (store_at [] [] zeroed)),
    ))
set_columns_unexported_example =
    set_columns_unexported half_exported meta rows zeroed columns [] (id_field ∷ []) age_field []
      (1 ∷ []) 18 8 refl found tt age_unexported refl refl
