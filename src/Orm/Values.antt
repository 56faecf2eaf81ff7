-- ===== src/Orm/Values.antt =====
-- How a row becomes a value: orm/internal/valuer/reflect.go and unsafe.go. A value is the contents
-- of its memory by offset; reflection's view of its type and `database/sql` are parameters.
pub mod Agreement
mod Tests
use gotest.Common.{ℕ, Option, none, some, List, [], ◌∷◌}
use gotest.Common.Text.{Text, text_discrete}
use gotest.Common.Dict
use native.Mathlib.Decide.{ℕ_discrete}
use gotest.Orm.Meta.{Field, Model, Error, unknown_field, unknown_column, other, field_of, column_of}

-- The fields of a value, by offset.
abbrev pub Memory : Type 0 → Type 0
Memory V = List (ℕ × V)

-- A row: its columns, or the error of `Columns`; and what `Scan` does for pointers to these types:
-- the values it stores, in the order of the pointers, and its error. With an error it can have
-- stored the first ones.
pub record Rows (V : Type 0) : Type 0 where
  pub columns : Option (List Text)
  pub scan : List ℕ → List V × Option ℕ

-- A result with an error.
pub data Result (A : Type 0) : Type 0 where
  ok : A → Result A
  failed : Error → Result A

-- The error of `Columns`.
abbrev pub columns_failed : Error
columns_failed = other 0

-- The fields that the columns lead to, in their order.
abbrev pub add_field : Field → Result (List Field) → Result (List Field)
add_field fd (ok fds) = ok (fd ∷ fds)
add_field fd (failed e) = failed e

abbrev pub with_field : Option Field → Text → Result (List Field) → Result (List Field)
with_field none c rest = failed (unknown_column c)
with_field (some fd) c rest = add_field fd rest

unfoldable pub fields_of : Model → List Text → Result (List Field)
fields_of m [] = ok []
fields_of m (c ∷ cs) = with_field (column_of m c) c (fields_of m cs)

unfoldable pub types : List Field → List ℕ
types [] = []
types (fd ∷ fds) = fd.typ ∷ types fds

-- What reflection finds under a name in the value's type: no field, a field that is not exported, or
-- one that can be set, at its offset.
pub data Place : Type 0 where
  no_field : Place
  unexported settable : ℕ → Place

-- `Set` panics for a name without a field and for a field that is not exported.
pub data Set (V : Type 0) : Type 0 where
  set : Option Error → Memory V → Set V
  panicked : Set V

module _ {V : Type 0} where
  -- unsafe.go: `Scan` stores through pointers into the value, at the offsets of the metadata.
  unfoldable pub store_at : List Field → List V → Memory V → Memory V
  store_at [] vals obj = obj
  store_at (fd ∷ fds) [] obj = obj
  store_at (fd ∷ fds) (v ∷ vals) obj = store_at fds vals (Dict.put ℕ_discrete fd.offset v obj)

  -- The error of `Scan` is assigned, and `nil` returned.
  abbrev pub scanned_unsafe : List Field → List V × Option ℕ → Memory V → Option Error × Memory V
  scanned_unsafe fds (vals, e) obj = (none, store_at fds vals obj)

  abbrev pub unsafe_at : Result (List Field) → Rows V → Memory V → Option Error × Memory V
  unsafe_at (failed e) rows obj = (some e, obj)
  unsafe_at (ok fds) rows obj = scanned_unsafe fds (rows.scan (types fds)) obj

  abbrev pub unsafe_of : Model → Option (List Text) → Rows V → Memory V → Option Error × Memory V
  unsafe_of m none rows obj = (some columns_failed, obj)
  unsafe_of m (some cs) rows obj = unsafe_at (fields_of m cs) rows obj

  unfoldable pub unsafe_set_columns : Model → Rows V → Memory V → Option Error × Memory V
  unfolding fields_of store_at types
  unsafe_set_columns m rows obj = unsafe_of m rows.columns rows obj

  abbrev read_field : Option Field → Text → Memory V → Result (Option V)
  read_field none name obj = failed (unknown_field name)
  read_field (some fd) name obj = ok (Dict.get ℕ_discrete fd.offset obj)

  -- `Field` of unsafe.go: the contents at the field's offset.
  unfoldable pub unsafe_field : Model → Text → Memory V → Result (Option V)
  unsafe_field m name obj = read_field (field_of m name) name obj

  -- reflect.go: `layout` is where reflection finds the field of a name in the value's type.
  abbrev stored_by : Place → V → Memory V → (Memory V → Set V) → Set V
  stored_by no_field v obj rest = panicked
  stored_by (unexported o) v obj rest = panicked
  stored_by (settable o) v obj rest = rest (Dict.put ℕ_discrete o v obj)

  unfoldable pub store_by : (Text → Place) → List Field → List V → Memory V → Set V
  store_by layout [] vals obj = set none obj
  store_by layout (fd ∷ fds) [] obj = set none obj
  store_by layout (fd ∷ fds) (v ∷ vals) obj =
      stored_by (layout fd.go_name) v obj (store_by layout fds vals)

  -- `Scan` stores into fresh values, which are copied only when it succeeds.
  abbrev pub scanned_reflect : (Text → Place) → List Field → List V × Option ℕ → Memory V → Set V
  scanned_reflect layout fds (vals, some e) obj = set (some (other e)) obj
  scanned_reflect layout fds (vals, none) obj = store_by layout fds vals obj

  abbrev pub reflect_at : (Text → Place) → Result (List Field) → Rows V → Memory V → Set V
  reflect_at layout (failed e) rows obj = set (some e) obj
  reflect_at layout (ok fds) rows obj = scanned_reflect layout fds (rows.scan (types fds)) obj

  abbrev pub reflect_of : (Text → Place) → Model → Option (List Text) → Rows V → Memory V → Set V
  reflect_of layout m none rows obj = set (some columns_failed) obj
  reflect_of layout m (some cs) rows obj = reflect_at layout (fields_of m cs) rows obj

  unfoldable pub reflect_set_columns : (Text → Place) → Model → Rows V → Memory V → Set V
  unfolding fields_of store_by types
  reflect_set_columns layout m rows obj = reflect_of layout m rows.columns rows obj
