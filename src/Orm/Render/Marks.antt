-- ===== src/Orm/Render/Marks.antt =====
-- The placeholders of a builder's output: a question mark stands for an argument.
use gotest.Common.{
  ℕ, zero, suc, ◌+◌, ◌≡◌, refl, ◌≢◌, ite, Option, none, some, List, [], ◌∷◌, ◌++◌, arith, length,
  length-append, All, All-append, subst,
}
use gotest.Common.Text.{Text, codes, Lacks}
use gotest.Common.Dict
use gotest.Common.Text
use native.Mathlib.Decide.{ℕ_discrete}
use gotest.Orm.Meta.{Model, Field, Error, field_of, get_elem?, at}
use gotest.Orm.Query.{TableRef, nil, table, join}
use gotest.Orm.Builder.{Resolved, model, failed}
use gotest.Orm.Render.{
  Out, out_text, fail, ◌⊕◌, join_failure, comma_separated, quoted, alias_out, qualifier_out,
  field_out, resolved_field_out, column_out,
}

abbrev pub question : ℕ
question = b'?'

-- The placeholders of a text.
unfoldable pub marks : Text → ℕ
marks [] = 0
marks (c ∷ s) = ite (ℕ_discrete c question) 1 0 + marks s

pub marks-append : (s t : Text) → marks (s ++ t) ≡ marks s + marks t
unfolding marks
marks-append [] t = omega arith
marks-append (c ∷ s) t = omega (arith, marks-append s t)

pub marks-Lacks : (s : Text) → Lacks question s → marks s ≡ 0
unfolding marks
marks-Lacks [] h = refl
marks-Lacks (c ∷ s) h = ground (arith, marks-Lacks s h.1)

module _ {V : Type 0} where
  -- Unless it fails, the output has as many placeholders as arguments.
  pub record IsMatched (o : Out V) : Type 0 where
    pub apply : o.failure ≡ none → marks o.text ≡ length o.args

  pub text-IsMatched : (s : Text) → Lacks question s → IsMatched (out_text s)
  text-IsMatched s h = record { apply = λ _. marks-Lacks s h }

  pub fail-IsMatched : (e : Error) → IsMatched (fail e)
  fail-IsMatched e = record { apply = λ h. cc }

  join-IsMatched :
      (s : Text) (vs : List V) (e : Option Error) (p : Out V)
      → IsMatched (record { text = s; args = vs; failure = e })
      → IsMatched p
      → IsMatched (join_failure s vs e p)
  join-IsMatched s vs none p h k = record {
    apply =
        λ f. omega (arith, h.apply refl, k.apply f, marks-append s p.text, length-append vs p.args);
  }
  join-IsMatched s vs (some x) p h k = record { apply = λ f. cc }

  pub ⊕-IsMatched : {o p : Out V} → IsMatched o → IsMatched p → IsMatched (o ⊕ p)
  unfolding ◌⊕◌
  ⊕-IsMatched {o} {p} h k = join-IsMatched o.text o.args o.failure p h k

  pub commas-IsMatched : (os : List (Out V)) → All IsMatched os → IsMatched (comma_separated os)
  unfolding comma_separated
  commas-IsMatched [] h = text-IsMatched [] tt
  commas-IsMatched (o ∷ []) h = h.0
  commas-IsMatched (o ∷ p ∷ os) h =
      ⊕-IsMatched h.0
        (⊕-IsMatched (text-IsMatched (codes ",") (omega arith)) (commas-IsMatched (p ∷ os) h.1))

-- Metadata whose names hold no question mark.
pub record IsPlain (md : Model) : Type 0 where
  pub table_plain : Lacks question md.table_name
  pub columns_plain : All (λ fd. Lacks question fd.col_name) md.fields

get_elem?-All :
    (P : Field → Type 0) (fs : List Field) (i : ℕ) (fd : Field)
    → All P fs
    → get_elem? fs i ≡ some fd
    → P fd
unfolding get_elem?
get_elem?-All P [] i fd h e = cc
get_elem?-All P (x ∷ fs) zero fd h e = subst P {x = x} {y = fd} (ground arith) h.0
get_elem?-All P (x ∷ fs) (suc i) fd h e = get_elem?-All P fs i fd h.1 e

pub quoted-Lacks :
    (q : ℕ) (s : Text) → q ≢ question → Lacks question s → Lacks question (quoted q s)
quoted-Lacks q s h k = (h, All-append (λ b. b ≢ question) s (q ∷ []) k (h, tt))

field_of-Lacks :
    (md : Model) (name : Text) (fd : Field)
    → IsPlain md
    → field_of md name ≡ some fd
    → Lacks question fd.col_name
unfolding field_of
field_of-Lacks md name fd p e = at_case (Dict.get Text.text_discrete name md.field_map) e
  where
    at_case : (o : Option ℕ) → at md.fields o ≡ some fd → Lacks question fd.col_name
    at_case none e = cc
    at_case (some i) e =
        get_elem?-All (λ fd. Lacks question fd.col_name) md.fields i fd p.columns_plain e

module _ {E V : Type 0} where
  abbrev pub ColumnPlain : TableRef E V → Type 0
  ColumnPlain nil = Unit
  ColumnPlain (table entity alias) = Lacks question alias
  ColumnPlain (join l r typ on using_cols) = Unit

-- The quote is not a question mark, and no table's metadata has one in its names.
pub record ArePlain {E : Type 0} (q : ℕ) (md : Model) (r : E → Resolved) : Type 0 where
  pub quote_ne : q ≢ question
  pub own : IsPlain md
  pub others : (e : E) (md' : Model) → r e ≡ model md' → IsPlain md'

module _ {E V : Type 0} {q : ℕ} {md : Model} {r : E → Resolved} (p : ArePlain q md r) where
  pub quoted-IsMatched : (s : Text) → Lacks question s → IsMatched (out_text {V = V} (quoted q s))
  quoted-IsMatched s h = text-IsMatched (quoted q s) (quoted-Lacks q s p.quote_ne h)

  pub alias-IsMatched :
      (s : Text) → Lacks question s → IsMatched (alias_out {E = E} {V = V} q (some md) r s)
  alias-IsMatched [] h = text-IsMatched [] tt
  alias-IsMatched (c ∷ s) h =
      ⊕-IsMatched (text-IsMatched (codes " AS ") (omega arith)) (quoted-IsMatched (c ∷ s) h)

  qualifier-IsMatched :
      (s : Text) → Lacks question s → IsMatched (qualifier_out {E = E} {V = V} q (some md) r s)
  qualifier-IsMatched [] h = text-IsMatched [] tt
  qualifier-IsMatched (c ∷ s) h =
      ⊕-IsMatched (quoted-IsMatched (c ∷ s) h) (text-IsMatched (codes ".") (omega arith))

  field-IsMatched :
      (md' : Model) (name qualifier alias : Text) (fd : Option Field)
      → IsPlain md'
      → Lacks question qualifier
      → Lacks question alias
      → field_of md' name ≡ fd
      → IsMatched (field_out {E = E} {V = V} q (some md) r fd name qualifier alias)
  field-IsMatched md' name qualifier alias none h k l e = fail-IsMatched (Error.unknown_field name)
  field-IsMatched md' name qualifier alias (some fd) h k l e =
      ⊕-IsMatched
        (⊕-IsMatched (qualifier-IsMatched qualifier k)
          (quoted-IsMatched fd.col_name (field_of-Lacks md' name fd h e)))
        (alias-IsMatched alias l)

  resolved-IsMatched :
      (o : Resolved) (e : E) (name qualifier alias : Text)
      → r e ≡ o
      → Lacks question qualifier
      → Lacks question alias
      → IsMatched (resolved_field_out {E = E} {V = V} q (some md) r o name qualifier alias)
  resolved-IsMatched (failed x) e name qualifier alias h k l = fail-IsMatched x
  resolved-IsMatched (model md') e name qualifier alias h k l =
      field-IsMatched md' name qualifier alias (field_of md' name) (p.others e md' h) k l refl

  -- A column's text holds no placeholder.
  pub column-IsMatched :
      (t : TableRef E V) (name alias : Text)
      → ColumnPlain t
      → Lacks question alias
      → IsMatched (column_out q (some md) r t name alias)
  unfolding column_out
  column-IsMatched nil name alias h k =
      field-IsMatched md name [] alias (field_of md name) p.own tt k refl
  column-IsMatched (table entity qualifier) name alias h k =
      resolved-IsMatched (r entity) entity name qualifier alias refl h k
  column-IsMatched (join l t typ on using_cols) name alias h k =
      fail-IsMatched Error.unsupported_table
