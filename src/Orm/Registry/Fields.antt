-- ===== src/Orm/Registry/Fields.antt =====
-- What the loop of `Register` collects of the fields.
use gotest.Common.{
  ℕ, zero, suc, ◌+◌, ◌≡◌, ◌≢◌, ◌∙◌, refl, sym, ap, subst, some, List, [], ◌∷◌, ◌++◌, Bool, true,
  false, if◌then◌else◌, length, All, arith,
}
use gotest.Common.Text.{Text, text_discrete}
use gotest.Common.Dict
use gotest.Orm.Meta.{Field, Error, get_elem?}
use gotest.Orm.Registry.{
  StructField, Result, ok, failed, Pairs, parse_tag, field_meta, Collected, collect, collected_with,
  register_fields, is_upper, underscore_from, underscore_name,
}

lower_upper : (b : ℕ) → is_upper b ≡ true → is_upper (b + 32) ≡ false
lower_upper b h = ground (arith, h)

All-if :
    (P : ℕ → Type 0) (c : Bool) (xs ys : List ℕ)
    → (c ≡ true → All P xs)
    → (c ≡ false → All P ys)
    → All P (if c then xs else ys)
All-if P true xs ys h k = h refl
All-if P false xs ys h k = k refl

underscore_from_lower :
    (first : Bool) (s : Text) → All (λ b. is_upper b ≡ false) (underscore_from first s)
unfolding underscore_from
underscore_from_lower first [] = tt
underscore_from_lower first (b ∷ s) =
    let rest = underscore_from_lower false s in
    All-if _ (is_upper b) _ _
      (λ u.
        All-if _ first _ _ (λ f. (lower_upper b u, rest)) (λ f. (refl, (lower_upper b u, rest))))
      (λ l. (l, rest))

-- No byte of the name that `underscoreName` makes is an upper case letter.
pub underscore_name_lower : (s : Text) → All (λ b. is_upper b ≡ false) (underscore_name s)
unfolding underscore_name
underscore_name_lower s = underscore_from_lower true s

-- The column that a field's tag or name gives it.
abbrev pub column_by : Result Pairs → StructField → Text
column_by (ok pair) fd = (field_meta fd pair).col_name
column_by (failed e) fd = []

abbrev pub column : StructField → Text
column fd = column_by (parse_tag fd.tag) fd

-- The field is neither that name's nor that column's.
abbrev pub Differs : Text → Text → StructField → Type 0
Differs name col fd = (fd.name ≢ name) × (column fd ≢ col)

get_elem_append :
    {A : Type 0} (xs ys : List A) (i : ℕ) (x : A)
    → get_elem? xs i ≡ some x
    → get_elem? (xs ++ ys) i ≡ some x
unfolding get_elem?
get_elem_append [] ys i x h = cc
get_elem_append (y ∷ xs) ys zero x h = h
get_elem_append (y ∷ xs) ys (suc i) x h = get_elem_append xs ys i x h

get_elem_last : {A : Type 0} (xs : List A) (x : A) → get_elem? (xs ++ x ∷ []) (length xs) ≡ some x
unfolding get_elem?
get_elem_last [] x = refl
get_elem_last (y ∷ xs) x = get_elem_last xs x

module _ (c' : Collected) where
  collected_inv :
      (fd : StructField) (r : Result Pairs) (c : Collected) (rest : Collected → Result Collected)
      → collected_with fd r c rest ≡ ok c'
      → (pair : Pairs) × (r ≡ ok pair) × (rest (collect (field_meta fd pair) c) ≡ ok c')
  collected_inv fd (ok pair) c rest e = (pair, refl, e)
  collected_inv fd (failed x) c rest e = absurd (failed_ne e)
    where
      failed_ne : {x : Error} → ¬ (failed x ≡ ok c')
      failed_ne e = cc

  -- The maps lead to the field under its name and its column.
  pub record Leads (name col : Text) (i : ℕ) (fd : Field) (c : Collected) : Type 0 where
    pub by_name : Dict.get text_discrete name c.field_map ≡ some i
    pub by_column : Dict.get text_discrete col c.column_map ≡ some i
    pub here : get_elem? c.fields i ≡ some fd

  collect-Leads :
      (name col : Text) (i : ℕ) (f : Field) (g : StructField) (pair : Pairs) (c : Collected)
      → parse_tag g.tag ≡ ok pair
      → Differs name col g
      → Leads name col i f c
      → Leads name col i f (collect (field_meta g pair) c)
  collect-Leads name col i f g pair c p d l = record {
    by_name =
        Dict.get-put_ne text_discrete g.name (length c.fields) c.field_map name (λ e. d.0 (sym e))
        ∙ l.by_name;
    by_column =
        Dict.get-put_ne text_discrete (field_meta g pair).col_name (length c.fields) c.column_map
          col (λ e. d.1 (ap (λ r. column_by r g) p ∙ sym e))
        ∙ l.by_column;
    here = get_elem_append c.fields _ i f l.here;
  }

  register-Leads :
      (name col : Text) (i : ℕ) (f : Field) (gs : List StructField) (c : Collected)
      → All (Differs name col) gs
      → register_fields gs c ≡ ok c'
      → Leads name col i f c
      → Leads name col i f c'
  unfolding register_fields
  register-Leads name col i f [] c d e l = subst (Leads name col i f) (ok_inj e) l
    where
      ok_inj : {a b : Collected} → ok a ≡ ok b → a ≡ b
      ok_inj e = cc
  register-Leads name col i f (g ∷ gs) c d e l =
      let (pair, p, rest) = collected_inv g (parse_tag g.tag) c (register_fields gs) e in
      register-Leads name col i f gs (collect (field_meta g pair) c) d.1 rest
        (collect-Leads name col i f g pair c p d.0 l)

  pub register_found :
      (xs ys : List StructField) (fd : StructField) (c : Collected)
      → All (Differs fd.name (column fd)) ys
      → register_fields (xs ++ fd ∷ ys) c ≡ ok c'
      → (pair : Pairs) × (i : ℕ) × (parse_tag fd.tag ≡ ok pair)
        × Leads fd.name (column fd) i (field_meta fd pair) c'
  unfolding register_fields
  register_found [] ys fd c d e =
      let (pair, p, rest) = collected_inv fd (parse_tag fd.tag) c (register_fields ys) e in
      (
        pair,
        length c.fields,
        p,
        register-Leads fd.name (column fd) (length c.fields) (field_meta fd pair) ys
            (collect (field_meta fd pair) c) d rest
            (record {
              by_name = Dict.get-put_self text_discrete fd.name (length c.fields) c.field_map;
              by_column =
                  subst
                    (λ k.
                      Dict.get text_discrete k (collect (field_meta fd pair) c).column_map
                      ≡ some (length c.fields))
                    (sym (ap (λ r. column_by r fd) p))
                    (Dict.get-put_self text_discrete (field_meta fd pair).col_name (length c.fields)
                      c.column_map);
              here = get_elem_last c.fields (field_meta fd pair);
            }),
      )
  register_found (x ∷ xs) ys fd c d e =
      let (pair, p, rest) =
        collected_inv x (parse_tag x.tag) c (register_fields (xs ++ fd ∷ ys)) e in
      register_found xs ys fd (collect (field_meta x pair) c) d rest
