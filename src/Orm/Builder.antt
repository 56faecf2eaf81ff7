-- ===== src/Orm/Builder.antt =====
-- builder.go: the text and the arguments that a builder collects. An operation returns the builder
-- as it is when the operation ends, beside the error if there is one.
use gotest.Common.{
  ℕ, ◌+◌, Option, none, some, List, [], ◌∷◌, ◌++◌, Bool, true, false, ltb, if◌then◌else◌,
}
use gotest.Common.Text.{Text, codes}
use gotest.Orm.Meta.{Model, Field, Error, unknown_field, unsupported_table, nil_pointer, field_of}
use gotest.Orm.Query.{TableRef, nil, table, join}

-- What the registry's `Get` returns for an entity.
pub data Resolved : Type 0 where
  model : Model → Resolved
  failed : Error → Resolved

-- `type builder struct` with the parts of `core` that it reads. `r` is the registry behind its
-- interface: a function from entities to metadata.
pub record Builder (E V : Type 0) : Type 0 where
  pub sb : Text
  pub args : List V
  pub quoter : ℕ
  pub meta : Option Model
  pub r : E → Resolved

-- An operation that may fail, with the builder that it leaves.
pub data Built (B : Type 0) : Type 0 where
  ok : B → Built B
  err : Error → B → Built B

-- One operation after another, which an error ends.
abbrev pub and_then : {B : Type 0} → (B → Built B) → Built B → Built B
and_then g (ok b) = g b
and_then g (err e b) = err e b

infixl 5 ◌>>◌
abbrev pub ◌>>◌ : {B : Type 0} → (B → Built B) → (B → Built B) → B → Built B
◌>>◌ f g b = and_then g (f b)

abbrev pub Action : Type 0 → Type 0 → Type 0
Action E V = Builder E V → Built (Builder E V)

abbrev pub is_empty : Text → Bool
is_empty [] = true
is_empty (c ∷ s) = false

module _ {E V : Type 0} where
  abbrev pub skip : Action E V
  skip b = ok b

  -- `b.sb.WriteString(s)`, and `WriteByte` for a text of one byte
  unfoldable pub write : Text → Action E V
  write s b = ok (record b { sb = b.sb ++ s })

  -- An operation that reads the builder first.
  abbrev pub quote : Text → Action E V
  quote name b = (write (b.quoter ∷ []) >> write name >> write (b.quoter ∷ [])) b

  unfoldable pub add_args : List V → Action E V
  add_args [] b = ok b
  add_args (v ∷ vals) b = ok (record b { args = b.args ++ v ∷ vals })

  abbrev pub write_alias : Text → Action E V
  write_alias alias = if is_empty alias then skip else write (codes " AS ") >> quote alias

  abbrev pub write_qualifier : Text → Action E V
  write_qualifier alias = if is_empty alias then skip else quote alias >> write (codes ".")

  -- The end of `buildColumn`: the field looked up, and its column written.
  abbrev pub write_column : Option Field → Text → Text → Text → Action E V
  write_column none name qualifier alias b = err (unknown_field name) b
  write_column (some fd) name qualifier alias b =
      (write_qualifier qualifier >> quote fd.col_name >> write_alias alias) b

  abbrev pub column_in : Option Model → Text → Text → Action E V
  column_in none name alias b = err nil_pointer b
  column_in (some m) name alias b = write_column (field_of m name) name [] alias b

  abbrev pub column_of_table : Resolved → Text → Text → Text → Action E V
  column_of_table (failed e) name qualifier alias b = err e b
  column_of_table (model m) name qualifier alias b =
      write_column (field_of m name) name qualifier alias b

  unfoldable pub build_column : TableRef E V → Text → Text → Action E V
  build_column nil name alias b = column_in b.meta name alias b
  build_column (table entity qualifier) name alias b =
      column_of_table (b.r entity) name qualifier alias b
  build_column (join l r typ on using_cols) name alias b = err unsupported_table b

  -- `for i, x := range xs { if i > 0 { WriteByte(sep) }; … }`
  unfoldable pub each : {A : Type 0} → (A → Action E V) → ℕ → List A → Action E V
  each item i [] = skip
  each item i (x ∷ xs) =
      (if ltb 0 i then write (codes ",") else skip) >> item x >> each item (i + 1) xs
