-- ===== src/Orm/Meta.antt =====
-- The metadata of orm/model/model.go that the builders read, and the errors of orm/internal/errs.
use gotest.Common.{ℕ, zero, suc, Option, none, some, List, [], ◌∷◌}
use gotest.Common.Text.{Text, text_discrete}
use gotest.Common.Dict

-- `type Field struct`; a Go type is a number here.
pub record Field : Type 0 where
  pub col_name : Text
  pub typ : ℕ
  pub go_name : Text
  pub offset : ℕ

-- `type Model struct`. The two maps hold pointers to the elements of `Fields`: positions here.
pub record Model : Type 0 where
  pub table_name : Text
  pub fields : List Field
  pub field_map : List (Text × ℕ)
  pub column_map : List (Text × ℕ)

-- The errors, and the run-time panics that the builders can meet.
pub data Error : Type 0 where
  point_only insert_zero_row no_rows : Error
  unsupported_table unsupported_assignable : Error
  unknown_field unknown_column invalid_tag : Text → Error
  nil_pointer index_out_of_range not_implemented : Error
  other : ℕ → Error

unfoldable pub get_elem? {ℓ} : {A : Type ℓ} → List A → ℕ → Option A
get_elem? [] i = none
get_elem? (x ∷ xs) zero = some x
get_elem? (x ∷ xs) (suc i) = get_elem? xs i

abbrev pub at : List Field → Option ℕ → Option Field
at fs none = none
at fs (some i) = get_elem? fs i

-- `fd, ok := m.FieldMap[name]` and `m.ColumnMap[name]`
unfoldable pub field_of : Model → Text → Option Field
field_of m name = at m.fields (Dict.get text_discrete name m.field_map)

unfoldable pub column_of : Model → Text → Option Field
column_of m name = at m.fields (Dict.get text_discrete name m.column_map)
