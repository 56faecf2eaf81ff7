-- ===== src/Orm/Inserter/Tests.antt =====
-- `Inserter.Build` at concrete rows: a row is the pair of its id and its age.
use gotest.Common.{ℕ, ◌≡◌, refl, inr, none, some, [], ◌∷◌}
use gotest.Common.Text.{Text, codes}
use gotest.Common.Text
use gotest.Common.Dict
use native.Mathlib.Decide.{ℕ_discrete}
use gotest.Orm.Meta.{Model, Field, Error, insert_zero_row, unknown_column}
use gotest.Orm.Meta
use gotest.Orm.Query.{col, Assignable}
use gotest.Orm.Builder.{Resolved, model, Builder, Built, ok, err}
use gotest.Orm.Builder
use gotest.Orm.Render.{emit}
use gotest.Orm.Dialect.{Dialect, mysql, sqlite, Upsert}
use gotest.Orm.Dialect
use gotest.Orm.Inserter.{Inserter, Read, got, fields, unknown, chosen_fields, build}
use gotest.Orm.Inserter
use gotest.Orm.Inserter.Build.{heading, rows_out, HasModel, build-rows_out}

abbrev field : Text → Text → Field
field go name = record { col_name = name; typ = 0; go_name = go; offset = 0 }

abbrev users : Model
users = record {
  table_name = codes "user";
  fields = field (codes "Id") (codes "id") ∷ field (codes "Age") (codes "age") ∷ [];
  field_map = (codes "Id", 0) ∷ (codes "Age", 1) ∷ [];
  column_map = (codes "id", 0) ∷ (codes "age", 1) ∷ [];
}

abbrev start : Builder (ℕ × ℕ) ℕ
start = record {
  sb = codes "left over";
  args = 9 ∷ [];
  quoter = b'`';
  meta = none;
  r = λ e. model users;
}

abbrev insertion : Inserter (ℕ × ℕ) ℕ
insertion = record {
  values = (1, 20) ∷ (2, 30) ∷ [];
  columns = codes "Id" ∷ [];
  on_duplicate_key = none;
  dialect = mysql;
  creator = λ md v name. got v.0;
}

runs : Unit {0}
unfolding Inserter.build Inserter.choose Inserter.chosen_fields Dialect.build_upsert
    Dialect.build_assign Builder.build_column Builder.write Builder.add_args Builder.each
    Meta.field_of Meta.get_elem? Dict.get Text.text_discrete ℕ_discrete
runs = tt

abbrev built : Builder (ℕ × ℕ) ℕ
built = record start {
  meta = some users;
  sb = codes "INSERT INTO `user`(`id`) VALUES (?),(?);";
  args = 1 ∷ 2 ∷ [];
}

insertion-built : build insertion start ≡ ok built
unfolding runs
insertion-built = refl

id_chosen : chosen_fields users (codes "Id" ∷ []) ≡ fields (field (codes "Id") (codes "id") ∷ [])
unfolding runs
id_chosen = refl

has_model : HasModel start (1, 20) users
has_model = inr (refl, refl)

-- With an upsert clause.
abbrev upserting : Inserter (ℕ × ℕ) ℕ
upserting = record insertion {
  on_duplicate_key = some (record {
    assigns = Assignable.assignment (codes "Age") 7 ∷ Assignable.column (col (codes "Id")) ∷ [];
    conflict_columns = codes "Id" ∷ [];
  });
}

mysql_upsert :
    build upserting start
    ≡ ok (record start {
      meta = some users;
      sb =
          codes
            "INSERT INTO `user`(`id`) VALUES (?),(?) ON DUPLICATE KEY UPDATE `age`=?,`id`=VALUES(`id`);";
      args = 1 ∷ 2 ∷ 7 ∷ [];
    })
unfolding runs
mysql_upsert = refl

sqlite_upsert :
    build (record upserting { dialect = sqlite }) start
    ≡ ok (record start {
      meta = some users;
      sb =
          codes
            "INSERT INTO `user`(`id`) VALUES (?),(?)ON CONFLICT(`id`) DO UPDATE SET `age`=?,`id`=excluded.`id`;";
      args = 1 ∷ 2 ∷ 7 ∷ [];
    })
unfolding runs
sqlite_upsert = refl

build-rows_out_example :
    build upserting start
    ≡ emit
        (rows_out b'`' users (λ e. model users) upserting (field (codes "Id") (codes "id") ∷ []))
        (record start {
          meta = some users;
          sb = heading b'`' users (field (codes "Id") (codes "id") ∷ []);
          args = [];
        })
build-rows_out_example =
    build-rows_out upserting start (1, 20) ((2, 30) ∷ []) users
      (field (codes "Id") (codes "id") ∷ []) refl has_model id_chosen

abbrev misnamed : Inserter (ℕ × ℕ) ℕ
misnamed = record insertion { columns = codes "Id" ∷ codes "Name" ∷ [] }

name_unknown : chosen_fields users misnamed.columns ≡ unknown (codes "Name")
unfolding runs
name_unknown = refl

misnamed_built :
    build misnamed start
    ≡ err
        (unknown_column (codes "Name"))
        (record start { meta = some users; sb = codes "INSERT INTO `user`(" })
unfolding runs
misnamed_built = refl
