-- ===== src/Orm/Dialect.antt =====
-- dialect.go: the quote of a dialect, and the clause of an upsert.
pub mod Upserts
use gotest.Common.{
  ℕ, ◌+◌, Option, none, some, List, [], ◌∷◌, ◌++◌, Bool, true, false, ltb, if◌then◌else◌,
}
use gotest.Common.Text.{Text, codes}
use gotest.Orm.Meta.{
  Model, Field, Error, unknown_field, unsupported_assignable, nil_pointer, not_implemented,
  field_of,
}
use gotest.Orm.Query.{TableRef, nil, Assignable, assignment}
use gotest.Orm.Query
use gotest.Orm.Builder.{
  Builder, Built, ok, err, ◌>>◌, Action, write, quote, add_args, build_column, each,
}

-- `DialectMySQL`, `DialectSQLite`, `DialectPostgre`
pub data Dialect : Type 0 where
  mysql sqlite postgre : Dialect

-- `quoter`: PostgreSQL's is the `standardSQL` one, which panics.
unfoldable pub quoter : Dialect → Option ℕ
quoter mysql = some b'`'
quoter sqlite = some b'`'
quoter postgre = none

pub record Upsert (E V : Type 0) : Type 0 where
  pub assigns : List (Assignable E V)
  pub conflict_columns : List Text

module _ {E V : Type 0} where
  -- `fd, ok := b.model.FieldMap[name]; if !ok { return … }`, and what is done with the field.
  abbrev pub with_found : Option Field → Text → (Field → Action E V) → Action E V
  with_found none name f b = err (unknown_field name) b
  with_found (some fd) name f b = f fd b

  abbrev pub with_field_in : Option Model → Text → (Field → Action E V) → Action E V
  with_field_in none name f b = err nil_pointer b
  with_field_in (some m) name f b = with_found (field_of m name) name f b

  abbrev pub with_field : Text → (Field → Action E V) → Action E V
  with_field name f b = with_field_in b.meta name f b

  abbrev pub set_argument : V → Field → Action E V
  set_argument v fd = quote fd.col_name >> write (codes "=?") >> add_args (v ∷ [])

  abbrev pub set_values : Field → Action E V
  set_values fd =
      quote fd.col_name >> write (codes "=VALUES(") >> quote fd.col_name >> write (codes ")")

  abbrev pub set_excluded : Field → Action E V
  set_excluded fd = quote fd.col_name >> write (codes "=excluded.") >> quote fd.col_name

  -- The body of the loop over the assignments, which differs only in what it does with a column.
  unfoldable pub build_assign : (Field → Action E V) → Assignable E V → Action E V
  build_assign set_column Assignable.nil = λ b. err unsupported_assignable b
  build_assign set_column (assignment col v) = with_field col (set_argument v)
  build_assign set_column (Assignable.column c) = with_field c.name set_column

  unfoldable pub build_upsert : Dialect → Upsert E V → Action E V
  build_upsert mysql u =
      write (codes " ON DUPLICATE KEY UPDATE ") >> each (build_assign set_values) 0 u.assigns
  build_upsert sqlite u =
      write (codes "ON CONFLICT(")
      >> each (λ name. build_column nil name []) 0 u.conflict_columns
      >> write (codes ") DO UPDATE SET ")
      >> each (build_assign set_excluded) 0 u.assigns
  build_upsert postgre u = λ b. err not_implemented b
