-- ===== src/Orm/Registry.antt =====
-- The registry of metadata: orm/model/model.go. Names are ASCII, and reflection's view of an entity
-- is given: a pointer to a structure with its fields, or anything else.
pub mod Fields
pub mod Laws
mod Tests
use gotest.Common.{
  ℕ, zero, suc, ◌+◌, Option, none, some, List, [], ◌∷◌, ◌++◌, Bool, true, false, ◌&&◌, leb,
  if◌then◌else◌, length, with_elem,
}
use gotest.Common.Text.{Text, codes, text_discrete, split}
use gotest.Common.Dict
use native.Mathlib.Decide.{ℕ_discrete}
use gotest.Orm.Meta.{Field, Model, Error, point_only, unknown_field, invalid_tag}

-- A field of a structure; the tag is that under `orm`, if there is one.
pub record StructField : Type 0 where
  pub name : Text
  pub typ : ℕ
  pub offset : ℕ
  pub tag : Option Text

-- An entity: its type, and, for a pointer to a structure, the structure's name and fields and what
-- its `TableName` answers, if it has that method.
pub data Entity : Type 0 where
  struct_pointer :
      (typ : ℕ) (name : Text) (fields : List StructField) (table_name : Option Text) → Entity
  anything_else : (typ : ℕ) → Entity

abbrev pub type_of : Entity → ℕ
type_of (struct_pointer typ name fields table_name) = typ
type_of (anything_else typ) = typ

-- A result with an error.
pub data Result (A : Type 0) : Type 0 where
  ok : A → Result A
  failed : Error → Result A

abbrev pub is_upper : ℕ → Bool
is_upper b = leb b'A' b && leb b b'Z'

-- `underscoreName`: the first byte is not preceded by an underscore.
unfoldable pub underscore_from : Bool → Text → Text
underscore_from first [] = []
underscore_from first (b ∷ s) =
    let rest = underscore_from false s in
    if is_upper b then (if first then (b + 32) ∷ rest else b'_' ∷ (b + 32) ∷ rest) else b ∷ rest

unfoldable pub underscore_name : Text → Text
unfolding underscore_from
underscore_name s = underscore_from true s

-- `parseTag`
abbrev pub Pairs : Type 0
Pairs = List (Text × Text)

abbrev pub with_segs : List Text → Text → Pairs → (Pairs → Result Pairs) → Result Pairs
with_segs [] pair res rest = failed (invalid_tag pair)
with_segs (key ∷ []) pair res rest = failed (invalid_tag pair)
with_segs (key ∷ val ∷ []) pair res rest = rest (Dict.put text_discrete key val res)
with_segs (key ∷ val ∷ more ∷ segs) pair res rest = failed (invalid_tag pair)

unfoldable pub parse_pairs : List Text → Pairs → Result Pairs
parse_pairs [] res = ok res
parse_pairs (pair ∷ pairs) res = with_segs (split b'=' pair) pair res (parse_pairs pairs)

unfoldable pub parse_tag : Option Text → Result Pairs
unfolding parse_pairs
parse_tag none = ok []
parse_tag (some tag) = parse_pairs (split b',' tag) []

-- The column of a field: that of the tag, or else the name with underscores.
abbrev named : Option Text → Text → Text
named none name = underscore_name name
named (some []) name = underscore_name name
named (some (b ∷ s)) name = b ∷ s

abbrev pub field_meta : StructField → Pairs → Field
field_meta fd pair = record {
  col_name = named (Dict.get text_discrete (codes "column") pair) fd.name;
  typ = fd.typ;
  go_name = fd.name;
  offset = fd.offset;
}

-- What the loop of `Register` collects.
pub record Collected : Type 0 where
  pub fields : List Field
  pub field_map : List (Text × ℕ)
  pub column_map : List (Text × ℕ)

abbrev pub none_collected : Collected
none_collected = record { fields = []; field_map = []; column_map = [] }

abbrev pub collect : Field → Collected → Collected
collect fd c = record {
  fields = c.fields ++ fd ∷ [];
  field_map = Dict.put text_discrete fd.go_name (length c.fields) c.field_map;
  column_map = Dict.put text_discrete fd.col_name (length c.fields) c.column_map;
}

abbrev pub collected_with :
    StructField → Result Pairs → Collected → (Collected → Result Collected) → Result Collected
collected_with fd (ok pair) c rest = rest (collect (field_meta fd pair) c)
collected_with fd (failed e) c rest = failed e

unfoldable pub register_fields : List StructField → Collected → Result Collected
unfolding parse_tag
register_fields [] c = ok c
register_fields (fd ∷ fds) c = collected_with fd (parse_tag fd.tag) c (register_fields fds)

abbrev pub table_named : Option Text → Text → Text
table_named none name = underscore_name name
table_named (some []) name = underscore_name name
table_named (some (b ∷ s)) name = b ∷ s

abbrev pub ModelOpt : Type 0
ModelOpt = Model → Result Model

-- `WithColumnName` changes the field behind the pointer that both maps hold.
abbrev pub renamed : Option ℕ → Text → Text → Model → Result Model
renamed none field column m = failed (unknown_field field)
renamed (some i) field column m =
    ok (record m { fields = with_elem (λ fd. record fd { col_name = column }) i m.fields })

unfoldable pub with_column_name : Text → Text → ModelOpt
with_column_name field column m = renamed (Dict.get text_discrete field m.field_map) field column m

abbrev pub with_table_name : Text → ModelOpt
with_table_name name m = ok (record m { table_name = name })

abbrev pub and_then : Result Model → ModelOpt → Result Model
and_then (ok m) f = f m
and_then (failed e) f = failed e

unfoldable pub apply_opts : List ModelOpt → Result Model → Result Model
apply_opts [] r = r
apply_opts (opt ∷ opts) r = apply_opts opts (and_then r opt)

abbrev pub to_model : Text → Result Collected → Result Model
to_model table (ok c) = ok (record {
  table_name = table;
  fields = c.fields;
  field_map = c.field_map;
  column_map = c.column_map;
})
to_model table (failed e) = failed e

-- `type registry struct`, with types for keys.
abbrev pub Registry : Type 0
Registry = List (ℕ × Model)

unfoldable pub parse : Entity → List ModelOpt → Result Model
unfolding register_fields apply_opts
parse (anything_else typ) opts = failed point_only
parse (struct_pointer typ name fields table_name) opts =
    apply_opts opts (to_model (table_named table_name name) (register_fields fields none_collected))

abbrev pub stored : ℕ → Result Model → Registry → Result Model × Registry
stored typ (ok m) r = (ok m, Dict.put ℕ_discrete typ m r)
stored typ (failed e) r = (failed e, r)

-- `Register`
unfoldable pub register : Entity → List ModelOpt → Registry → Result Model × Registry
unfolding parse
register e opts r = stored (type_of e) (parse e opts) r

abbrev pub loaded : Option Model → Entity → Registry → Result Model × Registry
loaded (some m) e r = (ok m, r)
loaded none e r = register e [] r

-- `Get`
unfoldable pub get : Entity → Registry → Result Model × Registry
unfolding register
get e r = loaded (Dict.get ℕ_discrete (type_of e) r) e r
