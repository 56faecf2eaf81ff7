-- ===== src/Orm/Values/Agreement.antt =====
-- Where the two ways to fill a value agree, and where not.
use gotest.Common.{
  ℕ, ◌≡◌, ◌∙◌, refl, sym, ap, Option, none, some, List, [], ◌∷◌, ◌++◌, length, arith, All,
}
use gotest.Common.Text.{Text}
use gotest.Common.Dict
use native.Mathlib.Decide.{ℕ_discrete}
use gotest.Orm.Meta.{Field, Model, Error}
use gotest.Orm.Values.{
  Set, Place, no_field, unexported, settable, Memory, Rows, Result, ok, failed, fields_of, types,
  store_at, store_by, stored_by, set, panicked, scanned_unsafe, scanned_reflect, unsafe_at,
  unsafe_of, unsafe_set_columns, reflect_at, reflect_of, reflect_set_columns,
}

-- Reflection finds the field of the metadata, exported and at the offset that the metadata has.
abbrev pub IsLaid : (Text → Place) → Field → Type 0
IsLaid layout fd = layout fd.go_name ≡ settable fd.offset

module _ {V : Type 0} where
  store_by-store_at :
      (layout : Text → Place) (fds : List Field) (vals : List V) (obj : Memory V)
      → All (IsLaid layout) fds
      → store_by layout fds vals obj ≡ set none (store_at fds vals obj)
  unfolding store_by store_at
  store_by-store_at layout [] vals obj h = refl
  store_by-store_at layout (fd ∷ fds) [] obj h = refl
  store_by-store_at layout (fd ∷ fds) (v ∷ vals) obj h =
      ap (λ o. stored_by o v obj (store_by layout fds vals)) (h.0)
      ∙ store_by-store_at layout fds vals (Dict.put ℕ_discrete fd.offset v obj) h.1

  -- Where the columns of the row are known and lead to exported fields, on whose offsets reflection
  -- and the metadata agree, and the row can be scanned, both ways fill the value alike.
  pub set_columns_agree :
      (layout : Text → Place) (m : Model) (rows : Rows V) (obj : Memory V) (cs : List Text)
      → (fds : List Field) (vals : List V) → rows.columns ≡ some cs
      → fields_of m cs ≡ ok fds
      → All (IsLaid layout) fds
      → rows.scan (types fds) ≡ (vals, none)
      → reflect_set_columns layout m rows obj
        ≡ set (unsafe_set_columns m rows obj).0 (unsafe_set_columns m rows obj).1
  unfolding reflect_set_columns unsafe_set_columns
  set_columns_agree layout m rows obj cs fds vals c f l s =
      (ap (λ o. reflect_of layout m o rows obj) c
        ∙ (ap (λ r. reflect_at layout r rows obj) f
            ∙ (ap (λ x. scanned_reflect layout fds x obj) s
                ∙ store_by-store_at layout fds vals obj l)))
      ∙ sym (
          ap (λ r. set r.0 r.1)
            (ap (λ o. unsafe_of m o rows obj) c
              ∙ (ap (λ r. unsafe_at r rows obj) f ∙ ap (λ x. scanned_unsafe fds x obj) s)))

  store_at-append :
      (xs ys : List Field) (fd : Field) (us vs : List V) (v : V) (obj : Memory V)
      → length us ≡ length xs
      → store_at (xs ++ fd ∷ ys) (us ++ v ∷ vs) obj
        ≡ store_at ys vs (Dict.put ℕ_discrete fd.offset v (store_at xs us obj))
  unfolding store_at
  store_at-append [] ys fd [] vs v obj l = refl
  store_at-append [] ys fd (u ∷ us) vs v obj l = absurd (omega (arith, l))
  store_at-append (x ∷ xs) ys fd [] vs v obj l = absurd (omega (arith, l))
  store_at-append (x ∷ xs) ys fd (u ∷ us) vs v obj l =
      store_at-append xs ys fd us vs v (Dict.put ℕ_discrete x.offset u obj) (omega (arith, l))

  store_by_unexported :
      (layout : Text → Place) (xs ys : List Field) (fd : Field) (us vs : List V) (v : V) (o : ℕ)
      → (obj : Memory V) → All (IsLaid layout) xs
      → layout fd.go_name ≡ unexported o
      → length us ≡ length xs
      → store_by layout (xs ++ fd ∷ ys) (us ++ v ∷ vs) obj ≡ panicked
  unfolding store_by
  store_by_unexported layout [] ys fd [] vs v o obj h e l =
      ap (λ p. stored_by p v obj (store_by layout ys vs)) e
  store_by_unexported layout [] ys fd (u ∷ us) vs v o obj h e l = absurd (omega (arith, l))
  store_by_unexported layout (x ∷ xs) ys fd [] vs v o obj h e l = absurd (omega (arith, l))
  store_by_unexported layout (x ∷ xs) ys fd (u ∷ us) vs v o obj h e l =
      ap (λ p. stored_by p u obj (store_by layout (xs ++ fd ∷ ys) (us ++ v ∷ vs))) h.0
      ∙ store_by_unexported layout xs ys fd us vs v o (Dict.put ℕ_discrete x.offset u obj) h.1 e
          (omega (arith, l))

  -- Where the columns of the row are known and the row can be scanned, the first field that is not
  -- exported makes reflection panic; the unsafe way stores its value, and all others, with no error.
  pub set_columns_unexported :
      (layout : Text → Place) (m : Model) (rows : Rows V) (obj : Memory V) (cs : List Text)
      → (xs ys : List Field) (fd : Field) (us vs : List V) (v : V) (o : ℕ) → rows.columns ≡ some cs
      → fields_of m cs ≡ ok (xs ++ fd ∷ ys)
      → All (IsLaid layout) xs
      → layout fd.go_name ≡ unexported o
      → length us ≡ length xs
      → rows.scan (types (xs ++ fd ∷ ys)) ≡ (us ++ v ∷ vs, none)
      → (reflect_set_columns layout m rows obj ≡ panicked)
        × (unsafe_set_columns m rows obj
            ≡ (none, store_at ys vs (Dict.put ℕ_discrete fd.offset v (store_at xs us obj))))
  unfolding reflect_set_columns unsafe_set_columns
  set_columns_unexported layout m rows obj cs xs ys fd us vs v o c f h e l s =
      let fds = xs ++ fd ∷ ys in
      (
        ap (λ x. reflect_of layout m x rows obj) c
            ∙ (ap (λ r. reflect_at layout r rows obj) f
                ∙ (ap (λ x. scanned_reflect layout fds x obj) s
                    ∙ store_by_unexported layout xs ys fd us vs v o obj h e l)),
        ap (λ x. unsafe_of m x rows obj) c
            ∙ (ap (λ r. unsafe_at r rows obj) f
                ∙ (ap (λ x. scanned_unsafe fds x obj) s
                    ∙ ap (λ x. (none, x)) (store_at-append xs ys fd us vs v obj l))),
      )

  -- The row as it would be if `Scan` stored the same and returned no error.
  abbrev pub silenced : Rows V → Rows V
  silenced rows = record rows { scan = λ ts. ((rows.scan ts).0, none) }

  unsafe_silenced :
      (m : Model) (cs : Option (List Text)) (rows : Rows V) (obj : Memory V)
      → unsafe_of m cs rows obj ≡ unsafe_of m cs (silenced rows) obj
  unsafe_silenced m none rows obj = refl
  unsafe_silenced m (some cs) rows obj = at_case (fields_of m cs)
    where
      at_case : (r : Result (List Field)) → unsafe_at r rows obj ≡ unsafe_at r (silenced rows) obj
      at_case (failed e) = refl
      at_case (ok fds) = refl

  stored_by_no_error :
      (o : Place) (v : V) (obj obj' : Memory V) (rest : Memory V → Set V) (e : Error)
      → ((u : Memory V) → ¬ (rest u ≡ set (some e) obj'))
      → ¬ (stored_by o v obj rest ≡ set (some e) obj')
  stored_by_no_error no_field v obj obj' rest e k h = cc
  stored_by_no_error (unexported i) v obj obj' rest e k h = cc
  stored_by_no_error (settable i) v obj obj' rest e k h = k (Dict.put ℕ_discrete i v obj) h

  store_by_no_error :
      (layout : Text → Place) (fds : List Field) (vals : List V) (obj obj' : Memory V) (e : Error)
      → ¬ (store_by layout fds vals obj ≡ set (some e) obj')
  unfolding store_by
  store_by_no_error layout [] vals obj obj' e h = cc
  store_by_no_error layout (fd ∷ fds) [] obj obj' e h = cc
  store_by_no_error layout (fd ∷ fds) (v ∷ vals) obj obj' e h =
      stored_by_no_error (layout fd.go_name) v obj obj' (store_by layout fds vals) e
        (λ u. store_by_no_error layout fds vals u obj' e) h

  reflect_keeps :
      (layout : Text → Place) (m : Model) (cs : Option (List Text)) (rows : Rows V)
      → (obj obj' : Memory V) (e : Error) → reflect_of layout m cs rows obj ≡ set (some e) obj'
      → obj' ≡ obj
  reflect_keeps layout m none rows obj obj' e h = cc
  reflect_keeps layout m (some cs) rows obj obj' e h = at_case (fields_of m cs) h
    where
      at_scan :
          (fds : List Field) (x : List V × Option ℕ)
          → scanned_reflect layout fds x obj ≡ set (some e) obj'
          → obj' ≡ obj
      at_scan fds (vals, some n) h = cc
      at_scan fds (vals, none) h = absurd (store_by_no_error layout fds vals obj obj' e h)

      at_case :
          (r : Result (List Field)) → reflect_at layout r rows obj ≡ set (some e) obj' → obj' ≡ obj
      at_case (failed x) h = cc
      at_case (ok fds) h = at_scan fds (rows.scan (types fds)) h

  -- Whenever reflection returns an error, of the columns or of `Scan`, the value is as it was. The
  -- unsafe way does not depend on the error of `Scan` at all: it answers, and leaves in the value, what
  -- it would if `Scan` had stored the same and succeeded.
  pub set_columns_error :
      (layout : Text → Place) (m : Model) (rows : Rows V) (obj obj' : Memory V) (e : Error)
      → reflect_set_columns layout m rows obj ≡ set (some e) obj'
      → (obj' ≡ obj) × (unsafe_set_columns m rows obj ≡ unsafe_set_columns m (silenced rows) obj)
  unfolding reflect_set_columns unsafe_set_columns
  set_columns_error layout m rows obj obj' e h = (
    reflect_keeps layout m rows.columns rows obj obj' e h,
    unsafe_silenced m rows.columns rows obj,
  )
