-- ===== src/Orm/Dialect/Upserts.antt =====
-- The output of an upsert clause.
use gotest.Common.{ℕ, Option, none, some, [], ◌∷◌, map}
use gotest.Common.Text.{Text, codes}
use gotest.Orm.Meta.{Model, Field, unknown_field, unsupported_assignable, not_implemented, field_of}
use gotest.Orm.Query.{nil, Assignable, assignment}
use gotest.Orm.Builder.{Resolved, Action, build_column}
use gotest.Orm.Render.{
  Out, out_text, out_args, fail, ◌⊕◌, comma_separated, quoted, Renders, Renders-write, Renders-args,
  Renders->>, Renders-quote, Renders-fail, column_out, Renders-column,
}
use gotest.Orm.Render.Lists.{Renders-each}
use gotest.Orm.Dialect.{
  Dialect, mysql, sqlite, postgre, Upsert, with_found, with_field, set_argument, set_values,
  set_excluded, build_assign, build_upsert,
}

module _ {E V : Type 0} (q : ℕ) (md : Model) (r : E → Resolved) where
  abbrev pub argument_out : V → Field → Out V
  argument_out v fd = (out_text (quoted q fd.col_name) ⊕ out_text (codes "=?")) ⊕ out_args (v ∷ [])

  abbrev pub values_out : Field → Out V
  values_out fd =
      ((out_text (quoted q fd.col_name) ⊕ out_text (codes "=VALUES("))
        ⊕ out_text (quoted q fd.col_name))
      ⊕ out_text (codes ")")

  abbrev pub excluded_out : Field → Out V
  excluded_out fd =
      (out_text (quoted q fd.col_name) ⊕ out_text (codes "=excluded."))
      ⊕ out_text (quoted q fd.col_name)

  abbrev pub found_out : Option Field → Text → (Field → Out V) → Out V
  found_out none name f = fail (unknown_field name)
  found_out (some fd) name f = f fd

  unfoldable pub assign_out : (Field → Out V) → Assignable E V → Out V
  assign_out set_column Assignable.nil = fail unsupported_assignable
  assign_out set_column (assignment col v) = found_out (field_of md col) col (argument_out v)
  assign_out set_column (Assignable.column c) = found_out (field_of md c.name) c.name set_column

  unfoldable pub upsert_out : Dialect → Upsert E V → Out V
  upsert_out mysql u =
      out_text (codes " ON DUPLICATE KEY UPDATE ")
      ⊕ comma_separated (map (assign_out values_out) u.assigns)
  upsert_out sqlite u =
      ((out_text (codes "ON CONFLICT(")
          ⊕ comma_separated (map (λ name. column_out q (some md) r nil name []) u.conflict_columns))
        ⊕ out_text (codes ") DO UPDATE SET "))
      ⊕ comma_separated (map (assign_out excluded_out) u.assigns)
  upsert_out postgre u = fail not_implemented

  module _ (set_column : Field → Action E V) (out : Field → Out V)
      (h : (fd : Field) → Renders q (some md) r (set_column fd) (out fd)) where
    Renders-found :
        (fd : Option Field) (name : Text)
        → Renders q (some md) r (with_found fd name set_column) (found_out fd name out)
    Renders-found none name = Renders-fail q (some md) r (unknown_field name)
    Renders-found (some fd) name = record { apply = (h fd).apply }

    Renders-with_field :
        (name : Text)
        → Renders q (some md) r (with_field name set_column) (found_out (field_of md name) name out)
    Renders-with_field name = record { apply = (Renders-found (field_of md name) name).apply }

  Renders-argument :
      (v : V) (fd : Field) → Renders q (some md) r (set_argument v fd) (argument_out v fd)
  Renders-argument v fd =
      Renders->> q (some md) r
        (Renders->> q (some md) r (Renders-quote q (some md) r fd.col_name)
          (Renders-write q (some md) r (codes "=?")))
        (Renders-args q (some md) r (v ∷ []))

  Renders-assign :
      (set_column : Field → Action E V) (out : Field → Out V)
      → ((fd : Field) → Renders q (some md) r (set_column fd) (out fd))
      → (a : Assignable E V) → Renders q (some md) r (build_assign set_column a) (assign_out out a)
  unfolding build_assign assign_out
  Renders-assign set_column out h Assignable.nil = Renders-fail q (some md) r unsupported_assignable
  Renders-assign set_column out h (assignment col v) =
      Renders-with_field (set_argument v) (argument_out v) (Renders-argument v) col
  Renders-assign set_column out h (Assignable.column c) = Renders-with_field set_column out h c.name

  Renders-values : (fd : Field) → Renders q (some md) r (set_values fd) (values_out fd)
  Renders-values fd =
      let quote = Renders-quote q (some md) r fd.col_name in
      let w = Renders-write q (some md) r in
      Renders->> q (some md) r
        (Renders->> q (some md) r (Renders->> q (some md) r quote (w (codes "=VALUES("))) quote)
        (w (codes ")"))

  Renders-excluded : (fd : Field) → Renders q (some md) r (set_excluded fd) (excluded_out fd)
  Renders-excluded fd =
      let quote = Renders-quote q (some md) r fd.col_name in
      Renders->> q (some md) r
        (Renders->> q (some md) r quote (Renders-write q (some md) r (codes "=excluded."))) quote

  pub Renders-upsert :
      (d : Dialect) (u : Upsert E V) → Renders q (some md) r (build_upsert d u) (upsert_out d u)
  unfolding build_upsert upsert_out
  Renders-upsert mysql u =
      Renders->> q (some md) r (Renders-write q (some md) r (codes " ON DUPLICATE KEY UPDATE ")) (
        Renders-each q (some md) r (build_assign set_values) (assign_out values_out)
          (Renders-assign set_values values_out Renders-values) u.assigns)
  Renders-upsert sqlite u =
      Renders->> q (some md) r
        (Renders->> q (some md) r
          (Renders->> q (some md) r (Renders-write q (some md) r (codes "ON CONFLICT(")) (
            Renders-each q (some md) r (λ name. build_column nil name [])
              (λ name. column_out q (some md) r nil name [])
              (λ name. Renders-column q (some md) r nil name []) u.conflict_columns))
          (Renders-write q (some md) r (codes ") DO UPDATE SET ")))
        (Renders-each q (some md) r (build_assign set_excluded) (assign_out excluded_out)
          (Renders-assign set_excluded excluded_out Renders-excluded) u.assigns)
  Renders-upsert postgre u = Renders-fail q (some md) r not_implemented
