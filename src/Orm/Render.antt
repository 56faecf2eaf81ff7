-- ===== src/Orm/Render.antt =====
-- What a builder writes, as a value: a text, arguments, and the error that ends it. The builders'
-- operations are shown to append such values, whatever has been written before.
pub mod Lists
pub mod Marks
use gotest.Common.{
  ℕ, zero, suc, ◌+◌, ◌≡◌, refl, sym, ◌∙◌, ap, Option, none, some, List, [], ◌∷◌, ◌++◌, Bool, true,
  false, append_assoc, append-nil, ltb, if◌then◌else◌,
}
use gotest.Common.Text.{Text, codes}
use gotest.Orm.Meta.{Model, Field, Error, unknown_field, unsupported_table, nil_pointer, field_of}
use gotest.Orm.Query.{TableRef, nil, table, join}
use gotest.Orm.Builder.{
  Resolved, model, failed, Builder, Built, ok, err, and_then, ◌>>◌, Action, is_empty, skip, write,
  quote, add_args, write_alias, write_qualifier, write_column, column_in, column_of_table,
  build_column, each,
}

pub record Out (V : Type 0) : Type 0 where
  pub text : Text
  pub args : List V
  pub failure : Option Error

module _ {V : Type 0} where
  abbrev pub out_text : Text → Out V
  out_text s = record { text = s; args = []; failure = none }

  abbrev pub out_args : List V → Out V
  out_args vs = record { text = []; args = vs; failure = none }

  abbrev pub fail : Error → Out V
  fail e = record { text = []; args = []; failure = some e }

  abbrev pub join_failure : Text → List V → Option Error → Out V → Out V
  join_failure s vs none o = record { text = s ++ o.text; args = vs ++ o.args; failure = o.failure }
  join_failure s vs (some e) o = record { text = s; args = vs; failure = some e }

  -- One output and then another, unless the first has failed.
  infixr 40 ◌⊕◌
  unfoldable pub ◌⊕◌ : Out V → Out V → Out V
  a ⊕ b = join_failure a.text a.args a.failure b

  -- The outputs with commas between.
  unfoldable pub comma_separated : List (Out V) → Out V
  comma_separated [] = out_text []
  comma_separated (o ∷ []) = o
  comma_separated (o ∷ p ∷ os) = o ⊕ out_text (codes ",") ⊕ comma_separated (p ∷ os)

-- A name between the dialect's quotes.
abbrev pub quoted : ℕ → Text → Text
quoted q name = q ∷ (name ++ q ∷ [])

module _ {E V : Type 0} where
  abbrev pub emit_failure : Option Error → Builder E V → Built (Builder E V)
  emit_failure none b = ok b
  emit_failure (some e) b = err e b

  -- The output at the end of a builder.
  unfoldable pub emit : Out V → Builder E V → Built (Builder E V)
  emit o b = emit_failure o.failure (record b { sb = b.sb ++ o.text; args = b.args ++ o.args })

module _ {E V : Type 0} (q : ℕ) (m : Option Model) (r : E → Resolved) where
  -- Under these settings the operation appends the output.
  pub record Renders (f : Action E V) (o : Out V) : Type 0 where
    pub apply :
        (sb : Text) (args : List V)
        → f (record { sb = sb; args = args; quoter = q; meta = m; r = r })
          ≡ emit o (record { sb = sb; args = args; quoter = q; meta = m; r = r })

  pub Renders-skip : Renders skip (out_text [])
  unfolding emit
  Renders-skip = record { apply = λ sb args. rw (append-nil sb, append-nil args) }

  pub Renders-write : (s : Text) → Renders (write s) (out_text s)
  unfolding emit write
  Renders-write s = record { apply = λ sb args. rw (append-nil args) }

  pub Renders-args : (vs : List V) → Renders (add_args vs) (out_args vs)
  unfolding emit add_args
  Renders-args [] = record { apply = λ sb args. rw (append-nil sb, append-nil args) }
  Renders-args (v ∷ vs) = record { apply = λ sb args. rw (append-nil sb) }

  abbrev start : Text → List V → Builder E V
  start sb args = record { sb = sb; args = args; quoter = q; meta = m; r = r }

  emit-join_failure :
      (s : Text) (vs : List V) (e : Option Error) (p : Out V) (sb : Text) (args : List V)
      (g : Action E V)
      → Renders g p
      → ((λ b. emit (record { text = s; args = vs; failure = e }) b) >> g) (start sb args)
        ≡ emit (join_failure s vs e p) (start sb args)
  unfolding emit
  emit-join_failure s vs none p sb args g k =
      k.apply (sb ++ s) (args ++ vs) ∙ rw (append_assoc sb s p.text, append_assoc args vs p.args)
  emit-join_failure s vs (some e) p sb args g k = refl

  emit-⊕ :
      (o p : Out V) (sb : Text) (args : List V) (f g : Action E V)
      → Renders f o
      → Renders g p
      → (f >> g) (start sb args) ≡ emit (o ⊕ p) (start sb args)
  unfolding ◌⊕◌
  emit-⊕ o p sb args f g h k =
      ap (and_then g) (h.apply sb args) ∙ emit-join_failure o.text o.args o.failure p sb args g k

  pub Renders->> :
      {f g : Action E V} {o p : Out V} → Renders f o → Renders g p → Renders (f >> g) (o ⊕ p)
  Renders->> {f} {g} {o} {p} h k = record { apply = λ sb args. emit-⊕ o p sb args f g h k }

  -- The outputs of the shared operations.
  pub Renders-quote : (name : Text) → Renders (quote name) (out_text (quoted q name))
  unfolding emit write
  Renders-quote name = record {
    apply = λ sb args.
        rw (append-nil args, append_assoc sb (q ∷ []) name, append_assoc sb (q ∷ name) (q ∷ []));
  }

  abbrev pub alias_out : Text → Out V
  alias_out alias =
      if is_empty alias then out_text [] else out_text (codes " AS ") ⊕ out_text (quoted q alias)

  abbrev pub qualifier_out : Text → Out V
  qualifier_out alias =
      if is_empty alias then out_text [] else out_text (quoted q alias) ⊕ out_text (codes ".")

  pub Renders-alias : (alias : Text) → Renders (write_alias alias) (alias_out alias)
  Renders-alias [] = Renders-skip
  Renders-alias (c ∷ alias) = Renders->> (Renders-write (codes " AS ")) (Renders-quote (c ∷ alias))

  pub Renders-qualifier : (alias : Text) → Renders (write_qualifier alias) (qualifier_out alias)
  Renders-qualifier [] = Renders-skip
  Renders-qualifier (c ∷ alias) = Renders->> (Renders-quote (c ∷ alias)) (Renders-write (codes "."))

  abbrev pub field_out : Option Field → Text → Text → Text → Out V
  field_out none name qualifier alias = fail (unknown_field name)
  field_out (some fd) name qualifier alias =
      (qualifier_out qualifier ⊕ out_text (quoted q fd.col_name)) ⊕ alias_out alias

  pub Renders-fail : (e : Error) → Renders (λ b. err e b) (fail e)
  unfolding emit
  Renders-fail e = record { apply = λ sb args. rw (append-nil sb, append-nil args) }

  Renders-field :
      (fd : Option Field) (name qualifier alias : Text)
      → Renders (write_column fd name qualifier alias) (field_out fd name qualifier alias)
  Renders-field none name qualifier alias = Renders-fail (unknown_field name)
  Renders-field (some fd) name qualifier alias =
      Renders->> (Renders->> (Renders-qualifier qualifier) (Renders-quote fd.col_name))
        (Renders-alias alias)

  abbrev pub meta_field_out : Option Model → Text → Text → Out V
  meta_field_out none name alias = fail nil_pointer
  meta_field_out (some md) name alias = field_out (field_of md name) name [] alias

  abbrev pub resolved_field_out : Resolved → Text → Text → Text → Out V
  resolved_field_out (failed e) name qualifier alias = fail e
  resolved_field_out (model md) name qualifier alias =
      field_out (field_of md name) name qualifier alias

  -- A column: of the query's own model where it names no table, of the table's model behind the
  -- table's alias where it names one, and an error for a join.
  unfoldable pub column_out : TableRef E V → Text → Text → Out V
  column_out nil name alias = meta_field_out m name alias
  column_out (table entity qualifier) name alias =
      resolved_field_out (r entity) name qualifier alias
  column_out (join l t typ on using_cols) name alias = fail unsupported_table

  meta_case :
      (md : Option Model) (name alias : Text)
      → Renders (column_in md name alias) (meta_field_out md name alias)
  meta_case none name alias = Renders-fail nil_pointer
  meta_case (some md) name alias = Renders-field (field_of md name) name [] alias

  resolved_case :
      (o : Resolved) (name qualifier alias : Text)
      → Renders (column_of_table o name qualifier alias) (resolved_field_out o name qualifier alias)
  resolved_case (failed e) name qualifier alias = Renders-fail e
  resolved_case (model md) name qualifier alias =
      Renders-field (field_of md name) name qualifier alias

  pub Renders-column :
      (t : TableRef E V) (name alias : Text)
      → Renders (build_column t name alias) (column_out t name alias)
  unfolding build_column column_out
  Renders-column nil name alias = record { apply = (meta_case m name alias).apply }
  Renders-column (table entity qualifier) name alias = record {
    apply = (resolved_case (r entity) name qualifier alias).apply;
  }
  Renders-column (join l t typ on using_cols) name alias = record {
    apply = (Renders-fail unsupported_table).apply;
  }
