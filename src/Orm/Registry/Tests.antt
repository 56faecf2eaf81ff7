-- ===== src/Orm/Registry/Tests.antt =====
-- The registry at a structure with two fields.
use gotest.Common.{◌≡◌, refl, none, some, [], ◌∷◌}
use gotest.Common.Text.{codes, text_discrete, split}
use gotest.Common.Dict
use native.Mathlib.Decide.{ℕ_discrete}
use gotest.Orm.Meta.{Field, Model, Error, get_elem?, field_of, column_of, invalid_tag, point_only}
use gotest.Orm.Meta
use gotest.Orm.Registry
use gotest.Orm.Registry.{
  StructField, Entity, struct_pointer, anything_else, Result, ok, failed, Pairs, parse_tag, parse,
  Registry, register, with_column_name, with_table_name, type_of, underscore_name, is_upper,
}
use gotest.Orm.Registry.Laws.{IsOf, parse_lem}

runs : Unit {0}
unfolding Registry.parse Registry.register Registry.register_fields Registry.parse_tag
    Registry.parse_pairs Registry.apply_opts Registry.underscore_name Registry.underscore_from
    Registry.with_column_name Dict.get Dict.put split text_discrete ℕ_discrete Meta.get_elem?
runs = tt

abbrev id_field : StructField
id_field = record { name = codes "Id"; typ = 1; offset = 0; tag = none }

abbrev name_field : StructField
name_field = record {
  name = codes "FirstName";
  typ = 2;
  offset = 8;
  tag = some (codes "column=fname,x=y");
}

abbrev user : Entity
user = struct_pointer 5 (codes "TestModel") (id_field ∷ name_field ∷ []) none

abbrev user_model : Model
user_model = record {
  table_name = codes "test_model";
  fields =
      record { col_name = codes "id"; typ = 1; go_name = codes "Id"; offset = 0 }
      ∷ record { col_name = codes "fname"; typ = 2; go_name = codes "FirstName"; offset = 8 }
      ∷ [];
  field_map = (codes "Id", 0) ∷ (codes "FirstName", 1) ∷ [];
  column_map = (codes "id", 0) ∷ (codes "fname", 1) ∷ [];
}

parsed : parse user [] ≡ ok user_model
unfolding runs
parsed = refl

registered : (register user [] []).0 ≡ ok user_model
unfolding runs
registered = refl

bad_tag :
    (register
      (struct_pointer 6
        (codes "A")
        (record { name = codes "B"; typ = 1; offset = 0; tag = some (codes "column") } ∷ [])
        none)
      []
      []).0
    ≡ failed (invalid_tag (codes "column"))
unfolding runs
bad_tag = refl

refused : (register (anything_else 3) [] []).0 ≡ failed point_only
unfolding runs
refused = refl

parse_lem_example :
    (pair : Pairs) × (f : Field) × (parse_tag name_field.tag ≡ ok pair)
    × IsOf name_field pair f
    × (field_of user_model (codes "FirstName") ≡ some f)
    × (column_of user_model f.col_name ≡ some f)
parse_lem_example =
    parse_lem 5 (codes "TestModel") (id_field ∷ []) [] name_field none user_model tt parsed

abbrev second : Field
second = record { col_name = codes "fname"; typ = 2; go_name = codes "FirstName"; offset = 8 }

abbrev renamed : Model
renamed = record user_model {
  fields =
      record { col_name = codes "id"; typ = 1; go_name = codes "Id"; offset = 0 }
      ∷ record second { col_name = codes "nick" }
      ∷ [];
}

by_name : Dict.get text_discrete (codes "FirstName") user_model.field_map ≡ some 1
unfolding runs
by_name = refl

by_column : Dict.get text_discrete (codes "fname") user_model.column_map ≡ some 1
unfolding runs
by_column = refl

there : get_elem? user_model.fields 1 ≡ some second
unfolding runs
there = refl

set_name : with_column_name (codes "FirstName") (codes "nick") user_model ≡ ok renamed
unfolding runs
set_name = refl
