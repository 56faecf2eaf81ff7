-- ===== src/Orm/Inserter/Build.antt =====
-- What `Inserter.Build` leaves in its builder.
use gotest.Common.{
  ℕ, ◌≡◌, refl, ◌∙◌, ap, ◌⊎◌, inl, inr, Option, none, some, List, [], ◌∷◌, ◌++◌, map, append-nil,
}
use gotest.Common.Text.{Text, codes}
use gotest.Orm.Meta.{Model, Field}
use gotest.Orm.Builder.{Resolved, model, Builder, ok, ◌>>◌, and_then, Action, write, quote, each}
use gotest.Orm.Render.{
  Out, out_text, out_args, fail, ◌⊕◌, comma_separated, quoted, emit, Renders, Renders-skip,
  Renders-write, Renders-args, Renders->>, Renders-quote, Renders-fail,
}
use gotest.Orm.Render.Lists.{Renders-each, Renders-eq}
use gotest.Orm.Dialect.{Dialect, Upsert}
use gotest.Orm.Dialect.Upserts.{upsert_out, Renders-upsert}
use gotest.Orm.Inserter.{
  Read, got, unreadable, Inserter, fields, chosen_fields, add_read, build_value, build_row,
  build_on_duplicate, build_rows, build_chosen, reset_args, build_in, build_of, load_resolved,
  load_model, build,
}

-- The columns of an insertion, quoted, with commas between.
unfoldable pub columns_text : ℕ → List Field → Text
columns_text q [] = []
columns_text q (fd ∷ []) = quoted q fd.col_name
columns_text q (fd ∷ gd ∷ fs) = quoted q fd.col_name ++ (codes "," ++ columns_text q (gd ∷ fs))

-- All that stands before the column names, and before the rows.
abbrev pub opening : ℕ → Model → Text
opening q md = codes "INSERT INTO " ++ (quoted q md.table_name ++ codes "(")

abbrev pub heading : ℕ → Model → List Field → Text
heading q md fs = opening q md ++ ((columns_text q fs ++ codes ")") ++ codes " VALUES ")

module _ {V : Type 0} where
  abbrev pub read_out : Read V → Out V
  read_out (got v) = out_args (v ∷ [])
  read_out (unreadable e) = fail e

  abbrev pub value_out : (Text → Read V) → Field → Out V
  value_out val fd = out_text (codes "?") ⊕ read_out (val fd.go_name)

  abbrev pub row_out : (Text → Read V) → List Field → Out V
  row_out val fs =
      (out_text (codes "(") ⊕ comma_separated (map (value_out val) fs)) ⊕ out_text (codes ")")

  columns-text :
      (q : ℕ) (fs : List Field)
      → comma_separated {V = V} (map (λ fd. out_text (quoted q fd.col_name)) fs)
        ≡ out_text (columns_text q fs)
  unfolding comma_separated columns_text ◌⊕◌
  columns-text q [] = refl
  columns-text q (fd ∷ []) = refl
  columns-text q (fd ∷ gd ∷ fs) = rw (columns-text q (gd ∷ fs))

module _ {E V : Type 0} where
  abbrev pub on_duplicate_out : ℕ → Model → (E → Resolved) → Dialect → Option (Upsert E V) → Out V
  on_duplicate_out q md r d none = out_text []
  on_duplicate_out q md r d (some u) = upsert_out q md r d u

  -- The rows, the upsert clause and the semicolon.
  unfoldable pub rows_out : ℕ → Model → (E → Resolved) → Inserter E V → List Field → Out V
  rows_out q md r i fs =
      (comma_separated (map (λ v. row_out (i.creator md v) fs) i.values)
        ⊕ on_duplicate_out q md r i.dialect i.on_duplicate_key)
      ⊕ out_text (codes ";")

  module _ (q : ℕ) (md : Model) (r : E → Resolved) where
    Renders-read : (x : Read V) → Renders q (some md) r (add_read x) (read_out x)
    Renders-read (got v) = record { apply = (Renders-args q (some md) r (v ∷ [])).apply }
    Renders-read (unreadable e) = record { apply = (Renders-fail q (some md) r e).apply }

    Renders-value :
        (val : Text → Read V) (fd : Field)
        → Renders q (some md) r (build_value val fd) (value_out val fd)
    Renders-value val fd =
        Renders->> q (some md) r (Renders-write q (some md) r (codes "?"))
          (Renders-read (val fd.go_name))

    Renders-row :
        (creator : Model → E → Text → Read V) (fs : List Field) (v : E)
        → Renders q (some md) r (build_row creator md fs v) (row_out (creator md v) fs)
    Renders-row creator fs v =
        Renders->> q (some md) r
          (Renders->> q (some md) r (Renders-write q (some md) r (codes "(")) (
            Renders-each q (some md) r (build_value (creator md v)) (value_out (creator md v))
              (Renders-value (creator md v)) fs))
          (Renders-write q (some md) r (codes ")"))

    Renders-on_duplicate :
        (d : Dialect) (u : Option (Upsert E V))
        → Renders q (some md) r (build_on_duplicate d u) (on_duplicate_out q md r d u)
    Renders-on_duplicate d none = Renders-skip q (some md) r
    Renders-on_duplicate d (some u) = record { apply = (Renders-upsert q md r d u).apply }

    abbrev write_rows : Inserter E V → List Field → Action E V
    write_rows i fs =
        each (build_row i.creator md fs) 0 i.values
        >> build_on_duplicate i.dialect i.on_duplicate_key
        >> write (codes ";")

    Renders-rows :
        (i : Inserter E V) (fs : List Field)
        → Renders q (some md) r (write_rows i fs) (rows_out q md r i fs)
    unfolding rows_out
    Renders-rows i fs =
        Renders->> q (some md) r
          (Renders->> q (some md) r
            (Renders-each q (some md) r (build_row i.creator md fs)
              (λ v. row_out (i.creator md v) fs) (Renders-row i.creator fs) i.values)
            (Renders-on_duplicate i.dialect i.on_duplicate_key))
          (Renders-write q (some md) r (codes ";"))

    abbrev write_columns : List Field → Action E V
    write_columns fs =
        each (λ fd. quote fd.col_name) 0 fs >> write (codes ")") >> write (codes " VALUES ")

    Renders-names :
        (fs : List Field)
        → Renders q
            (some md)
            r
            (write_columns fs)
            (out_text {V = V} ((columns_text q fs ++ codes ")") ++ codes " VALUES "))
    unfolding ◌⊕◌
    Renders-names fs =
        Renders-eq q (some md) r (write_columns fs)
          (ap (λ o. (o ⊕ out_text (codes ")")) ⊕ out_text (codes " VALUES ")) (columns-text q fs))
          (Renders->> q (some md) r
            (Renders->> q (some md) r
              (Renders-each q (some md) r (λ fd. quote fd.col_name)
                (λ fd. out_text (quoted q fd.col_name))
                (λ fd. Renders-quote q (some md) r fd.col_name) fs)
              (Renders-write q (some md) r (codes ")")))
            (Renders-write q (some md) r (codes " VALUES ")))

    abbrev start : Text → List V → Builder E V
    start sb args = record { sb = sb; args = args; quoter = q; meta = some md; r = r }

    build_rows_lem :
        (i : Inserter E V) (fs : List Field) (sb : Text) (args : List V)
        → build_rows i md fs (start sb args)
          ≡ emit
              (rows_out q md r i fs)
              (start (sb ++ ((columns_text q fs ++ codes ")") ++ codes " VALUES ")) [])
    unfolding emit
    build_rows_lem i fs sb args =
        ap
          (λ o. and_then (write (codes ";")) (
            and_then (build_on_duplicate i.dialect i.on_duplicate_key)
              (and_then (each (build_row i.creator md fs) 0 i.values) (and_then reset_args o))))
          ((Renders-names fs).apply sb args)
        ∙ (Renders-rows i fs).apply (sb ++ ((columns_text q fs ++ codes ")") ++ codes " VALUES "))
            []

    open_lem :
        (sb : Text) (args : List V)
        → (quote md.table_name >> write (codes "(")) (start sb args)
          ≡ ok (start (sb ++ (quoted q md.table_name ++ codes "(")) args)
    unfolding emit ◌⊕◌
    open_lem sb args =
        (Renders->> q (some md) r (Renders-quote q (some md) r md.table_name)
            (Renders-write q (some md) r (codes "("))).apply
          sb args
        ∙ ap (λ vs. ok (start (sb ++ (quoted q md.table_name ++ codes "(")) vs)) (append-nil args)

  -- The model of the insertion: the one that the inserter has, or else that of its first row.
  abbrev pub HasModel : Builder E V → E → Model → Type 0
  HasModel b v md = (b.meta ≡ some md) ⊎ ((b.meta ≡ none) × (b.r v ≡ model md))

  load_model_lem :
      (b : Builder E V) (v : E) (md : Model)
      → HasModel b v md
      → load_model b.meta (b.r v) b ≡ ok (record b { meta = some md })
  load_model_lem b v md (inl h) =
      ap (λ x. load_model x (b.r v) b) h ∙ ap (λ x. ok (record b { meta = x })) h
  load_model_lem b v md (inr h) =
      ap (λ x. load_model x (b.r v) b) h.0 ∙ ap (λ x. load_resolved x b) h.1

  abbrev built : Builder E V → Model → Text → List V → Builder E V
  built b md sb args = record b { meta = some md; sb = sb; args = args }

  pub opened :
      (i : Inserter E V) (b : Builder E V) (v : E) (vs : List E) (md : Model)
      → HasModel b v md
      → build_of i (v ∷ vs) b
        ≡ build_chosen i md (chosen_fields md i.columns) (built b md (opening b.quoter md) b.args)
  unfolding write
  opened i b v vs md h =
      ap (and_then (λ b. build_in i b.meta b))
        (load_model_lem (record b { sb = codes "INSERT INTO " }) v md h)
      ∙ ap (and_then (build_chosen i md (chosen_fields md i.columns)))
          (open_lem b.quoter md b.r (codes "INSERT INTO ") b.args)

  -- With a model that has the columns, `Build` forgets what the builder held: it leaves the heading
  -- and the rows, and the rows' arguments, and ends with the rows' error if they have one.
  pub build-rows_out :
      (i : Inserter E V) (b : Builder E V) (v : E) (vs : List E) (md : Model) (fs : List Field)
      → i.values ≡ v ∷ vs
      → HasModel b v md
      → chosen_fields md i.columns ≡ fields fs
      → build i b
        ≡ emit
            (rows_out b.quoter md b.r i fs)
            (record b { meta = some md; sb = heading b.quoter md fs; args = [] })
  unfolding build
  build-rows_out i b v vs md fs e h k =
      ap (λ xs. build_of i xs b) e
      ∙ (opened i b v vs md h
          ∙ (ap (λ c. build_chosen i md c (built b md (opening b.quoter md) b.args)) k
              ∙ build_rows_lem b.quoter md b.r i fs (opening b.quoter md) b.args))
