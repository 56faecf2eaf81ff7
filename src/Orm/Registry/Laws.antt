-- ===== src/Orm/Registry/Laws.antt =====
-- What the registry answers, and the options.
use gotest.Common.{
  ℕ, zero, suc, ◌≡◌, ◌∙◌, refl, sym, ap, Option, none, some, List, [], ◌∷◌, ◌++◌, All, with_elem,
}
use gotest.Common.Text.{Text, codes, text_discrete}
use gotest.Common.Dict
use native.Mathlib.Decide.{ℕ_discrete}
use gotest.Orm.Meta.{Field, Model, Error, get_elem?, field_of, column_of}
use gotest.Orm.Registry.{
  StructField, Entity, struct_pointer, type_of, Result, ok, failed, Pairs, parse_tag, field_meta,
  Collected, none_collected, register_fields, to_model, table_named, parse, stored, Registry,
  register, loaded, get, ModelOpt, apply_opts, renamed, underscore_name, with_column_name,
}
use gotest.Orm.Registry.Fields.{column, column_by, Differs, register_found}

ok_inj : {A : Type 0} {a b : A} → ok a ≡ ok b → a ≡ b
ok_inj e = cc

failed_ne : {A : Type 0} {a : A} {x : Error} → ¬ (failed x ≡ ok a)
failed_ne e = cc

collected :
    (table : Text) (r : Result Collected) (m : Model)
    → to_model table r ≡ ok m
    → (c : Collected) × (r ≡ ok c)
      × (m.fields ≡ c.fields)
      × (m.field_map ≡ c.field_map)
      × (m.column_map ≡ c.column_map)
collected table (ok c) m e = (
  c,
  refl,
  ap (λ x. x.fields) (sym (ok_inj e)),
  ap (λ x. x.field_map) (sym (ok_inj e)),
  ap (λ x. x.column_map) (sym (ok_inj e)),
)
collected table (failed x) m e = absurd (failed_ne e)

-- The column that a tag asks for, where it asks for one that is not empty, or else the name with
-- underscores.
abbrev pub column_asked : Option Text → Text → Text
column_asked (some (b ∷ s)) name = b ∷ s
column_asked _ name = underscore_name name

column_asked_lem :
    (o : Option Text) (fd : StructField) (pair : Pairs)
    → Dict.get text_discrete (codes "column") pair ≡ o
    → (field_meta fd pair).col_name ≡ column_asked o fd.name
column_asked_lem none fd pair h = rw h refl
column_asked_lem (some []) fd pair h = rw h refl
column_asked_lem (some (b ∷ s)) fd pair h = rw h refl

-- The metadata are those of the field, with the pairs of its tag.
pub record IsOf (fd : StructField) (pair : Pairs) (f : Field) : Type 0 where
  pub go_name : f.go_name ≡ fd.name
  pub typ : f.typ ≡ fd.typ
  pub offset : f.offset ≡ fd.offset
  pub col_name : f.col_name ≡ column_asked (Dict.get text_discrete (codes "column") pair) fd.name

-- Of a structure that can be registered, without options, the tag of each field can be parsed, and a
-- field is found in the model under its Go name and under its column, where no later field has that
-- name or that column: with its own name, type and offset, and the column that its tag asks for, or
-- else its name with underscores.
pub parse_lem :
    (typ : ℕ) (name : Text) (xs ys : List StructField) (fd : StructField) (table : Option Text)
    → (m : Model) → All (Differs fd.name (column fd)) ys
    → parse (struct_pointer typ name (xs ++ fd ∷ ys) table) [] ≡ ok m
    → (pair : Pairs) × (f : Field) × (parse_tag fd.tag ≡ ok pair)
      × IsOf fd pair f
      × (field_of m fd.name ≡ some f)
      × (column_of m f.col_name ≡ some f)
unfolding parse apply_opts field_of column_of
parse_lem typ name xs ys fd table m d e =
    let (c, r, fs, fm, cm) =
      collected (table_named table name) (register_fields (xs ++ fd ∷ ys) none_collected) m e in
    let (pair, i, p, l) = register_found c xs ys fd none_collected d r in
    let by_col : column_of m (column fd) ≡ some (field_meta fd pair) =
      rw (fs, cm, l.by_column) l.here in
    let same : column fd ≡ (field_meta fd pair).col_name = ap (λ x. column_by x fd) p in
    (
      pair,
      field_meta fd pair,
      p,
      record {
        go_name = refl;
        typ = refl;
        offset = refl;
        col_name = column_asked_lem (Dict.get text_discrete (codes "column") pair) fd pair refl;
      },
      rw (fs, fm, l.by_name) l.here,
      ap (column_of m) (sym same) ∙ by_col,
    )

-- After a registration that succeeds, `Get` answers the registered model for every entity of the
-- type, with the options of the registration, and changes nothing.
pub get-register :
    (e f : Entity) (opts : List ModelOpt) (r : Registry) (m : Model)
    → (register e opts r).0 ≡ ok m
    → type_of f ≡ type_of e
    → get f (register e opts r).1 ≡ (ok m, (register e opts r).1)
unfolding get register
get-register e f opts r m h t = stored_get (parse e opts) h
  where
    stored_get :
        (x : Result Model)
        → (stored (type_of e) x r).0 ≡ ok m
        → loaded
            (Dict.get ℕ_discrete (type_of f) (stored (type_of e) x r).1)
            f
            (stored (type_of e) x r).1
          ≡ (ok m, (stored (type_of e) x r).1)
    stored_get (failed x) h = absurd (failed_ne h)
    stored_get (ok m') h =
        rw (t, Dict.get-put_self ℕ_discrete (type_of e) m' r)
          (ap (λ x. (ok x, Dict.put ℕ_discrete (type_of e) m' r)) (ok_inj h))

-- A registration that fails leaves the registry as it was.
pub register_failed :
    (e : Entity) (opts : List ModelOpt) (r : Registry) (x : Error)
    → (register e opts r).0 ≡ failed x
    → (register e opts r).1 ≡ r
unfolding register
register_failed e opts r x h = stored_failed (parse e opts) h
  where
    stored_failed :
        (o : Result Model) → (stored (type_of e) o r).0 ≡ failed x → (stored (type_of e) o r).1 ≡ r
    stored_failed (ok m) h = absurd (failed_ne (sym h))
    stored_failed (failed y) h = refl

get_with_elem :
    {A : Type 0} (f : A → A) (i : ℕ) (xs : List A) (x : A)
    → get_elem? xs i ≡ some x
    → get_elem? (with_elem f i xs) i ≡ some (f x)
unfolding get_elem?
get_with_elem f i [] x h = cc
get_with_elem f zero (y ∷ xs) x h = cc
get_with_elem f (suc i) (y ∷ xs) x h = get_with_elem f i xs x h

-- `WithColumnName` gives the field its new column under its Go name; but the map of columns is not
-- changed: the field is still found under the old column, and the new one leads where it led before.
pub with_column_name_lem :
    (field old new : Text) (i : ℕ) (fd : Field) (m m' : Model)
    → Dict.get text_discrete field m.field_map ≡ some i
    → Dict.get text_discrete old m.column_map ≡ some i
    → get_elem? m.fields i ≡ some fd
    → with_column_name field new m ≡ ok m'
    → (field_of m' field ≡ some (record fd { col_name = new }))
      × (column_of m' old ≡ some (record fd { col_name = new }))
      × (Dict.get text_discrete new m'.column_map ≡ Dict.get text_discrete new m.column_map)
unfolding with_column_name field_of column_of
with_column_name_lem field old new i fd m m' h k g e =
    let same = ok_inj (ap (λ o. renamed o field new m) (sym h) ∙ e) in
    let there = get_with_elem (λ x. record x { col_name = new }) i m.fields fd g in
    rw (← same) (rw h there, rw k there, refl)
