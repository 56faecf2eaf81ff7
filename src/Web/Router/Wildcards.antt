-- ===== src/Web/Router/Wildcards.antt =====
-- Registrations through a parameter or a `*`: `childOrCreate` makes these children anew each time.
use gotest.Common.{
  ◌≡◌, refl, sym, ◌∙◌, ap, ◌≢◌, Bool, true, false, ◌&&◌, Option, none, some, List, [], ◌∷◌, arith,
  subst,
}
use gotest.Common.Text.{Text}
use gotest.Web.Router.{
  Node, node, empty, full, Children, done, panic, created, Place, at_param, at_star, at_key, Kind,
  param_kind, star_kind, static_kind, kind, new_node, get_child, put_child, create, child_or_create,
  or_new, with_child, map_outcome, register, node_twice, insert, handler, walk,
}
use gotest.Web.Router.Insert.{
  insert_created, insert-inv, created-subst, children, get_child-put_child_self, walk_hit,
  create-Reaches, StepReaches, is_param_kind,
}

abbrev pub is_static : Kind → Bool
is_static static_kind = true
is_static _ = false

abbrev pub all_static : List Text → Bool
all_static [] = true
all_static (seg ∷ segs) = is_static (kind seg) && all_static segs

module _ {H : Type 0} where
  handler-with_child : (place : Place) (m c : Node H) → handler (with_child place m c) ≡ handler m
  handler-with_child at_param (node r p cs s q h) c = refl
  handler-with_child at_star (node r p cs s q h) c = refl
  handler-with_child (at_key k) (node r p cs s q h) c = refl

  handler-create :
      (k : Kind) (n : Node H) (seg : Text) {place : Place} {m c : Node H}
      → create k n seg ≡ created place m c
      → handler m ≡ handler n
  handler-create param_kind (node r p cs empty q h) seg e = ground arith
  handler-create param_kind (node r p cs (full s) q h) seg e = cc
  handler-create star_kind (node r p cs s empty h) seg e = ground arith
  handler-create star_kind (node r p cs s (full q) h) seg e = cc
  handler-create static_kind (node r p cs s q h) seg e = ground arith

  -- A registration that goes on below a fresh node leaves it without a handler.
  handler-insert_new :
      (w : Text) (seg : Text) (segs : List Text) (fp : Text) (h : Option H) (n' : Node H)
      → insert (seg ∷ segs) fp h (new_node w) ≡ done n'
      → handler n' ≡ none
  unfolding child_or_create
  handler-insert_new w seg segs fp h n' e =
      let (ne, place, m, c, c', r, ok, same) = insert-inv seg segs fp h (new_node w) n' e in
      ap handler same
      ∙ (handler-with_child place m c' ∙ handler-create (kind seg) (new_node w) seg r)

  StepReaches_new :
      (k : Kind) (n : Node H) (seg v : Text)
      → k ≢ static_kind
      → get_child v (children n) ≡ empty
      → StepReaches k n seg v (λ c. c ≡ new_node seg)
  StepReaches_new param_kind n seg v ne e = (e, refl)
  StepReaches_new star_kind n seg v ne e = (e, refl)
  StepReaches_new static_kind n seg v ne e = absurd (ne refl)

  walk_nil :
      (n : Node H) (ps : List (Text × Text))
      → walk n ps [] ≡ some (record { n = n; path_params = ps })
  unfolding walk
  walk_nil n ps = refl

  -- A successful registration below a parameter or `*` replaces its node: a segment that is no
  -- static child then leads to a node without a handler, whatever was registered there.
  pub walk-insert_below_wildcard :
      (seg seg2 : Text) (segs : List Text) (fp : Text) (h : Option H) (n n' : Node H) (v : Text)
      (ps : List (Text × Text))
      → insert (seg ∷ seg2 ∷ segs) fp h n ≡ done n'
      → kind seg ≢ static_kind
      → get_child v (children n) ≡ empty
      → (leaf : Node H) × (params : List (Text × Text)) × (walk n' ps (v ∷ [])
          ≡ some (record { n = leaf; path_params = params }))
        × (handler leaf ≡ none)
  unfolding child_or_create
  walk-insert_below_wildcard seg seg2 segs fp h n n' v ps e ne free =
      let (_, place, m, c, c', r, ok, same) = insert-inv seg (seg2 ∷ segs) fp h n n' e in
      let (found, fresh) =
        create-Reaches (kind seg) n seg v (λ c. c ≡ new_node seg) r
          (StepReaches_new (kind seg) n seg v ne free) c' in
      (
        c',
        _,
        ap (λ x. walk x ps (v ∷ [])) same
            ∙ (walk_hit (with_child place m c') v c' (is_param_kind (kind seg)) ps [] found
                ∙ walk_nil c' _),
        handler-insert_new seg seg2 segs fp h c'
            (subst (λ x. insert (seg2 ∷ segs) fp h x ≡ done c') fresh ok),
      )

  -- Whether a registration succeeds depends neither on the handler nor on the path that is noted.
  insert_any :
      (segs : List Text) (fp fp' : Text) (h h' : Option H) (n n' : Node H)
      → insert segs fp h n ≡ done n'
      → (n'' : Node H) × (insert segs fp' h' n ≡ done n'')
  unfolding insert
  insert_any [] fp fp' h h' (node r p cs s q none) n' e = (node fp' p cs s q h', refl)
  insert_any [] fp fp' h h' (node r p cs s q (some x)) n' e = cc
  insert_any (seg ∷ segs) fp fp' h h' n n' e =
      let (ne, place, m, c, c', r, ok, same) = insert-inv seg segs fp h n n' e in
      let (c'', ok') = insert_any segs fp fp' h h' c c' ok in
      (
        with_child place m c'',
        insert_created seg segs fp' h' n ne r ∙ ap (map_outcome (with_child place m)) ok',
      )

  -- What `childOrCreate` gives the second time: a static child as it was left, another one anew.
  abbrev again : Kind → Node H → Node H → Node H
  again static_kind c c' = c'
  again param_kind c c' = c
  again star_kind c c' = c

  create-again :
      (k : Kind) (n : Node H) (seg : Text) {place : Place} {m c : Node H}
      → create k n seg ≡ created place m c
      → (c' : Node H)
      → (place' : Place) × (m' : Node H) × (create k (with_child place m c') seg
          ≡ created place' m' (again k c c'))
  create-again param_kind (node r p cs (full s) q h) seg e = cc
  create-again param_kind (node r p cs empty q h) seg e =
      created-subst
        (λ place m c.
          (c' : Node H)
          → (place' : Place) × (m' : Node H) × (create param_kind (with_child place m c') seg
              ≡ created place' m' c))
        e (λ c'. (_, _, refl))
  create-again star_kind (node r p cs s (full q) h) seg e = cc
  create-again star_kind (node r p cs s empty h) seg e =
      created-subst
        (λ place m c.
          (c' : Node H)
          → (place' : Place) × (m' : Node H) × (create star_kind (with_child place m c') seg
              ≡ created place' m' c))
        e (λ c'. (_, _, refl))
  create-again static_kind (node r p cs s q h) seg e =
      created-subst
        (λ place m c.
          (c' : Node H)
          → (place' : Place) × (m' : Node H) × (create static_kind (with_child place m c') seg
              ≡ created place' m' c'))
        e
        (λ c'.
          let cs' : Children H =
            put_child seg c' (put_child seg (or_new seg (get_child seg cs)) cs) in
          (
            at_key seg,
            node r p (put_child seg c' cs') s q h,
            ap
                (λ o.
                  created (at_key seg) (node r p (put_child seg (or_new seg o) cs') s q h)
                    (or_new seg o))
                (get_child-put_child_self seg c'
                  (put_child seg (or_new seg (get_child seg cs)) cs)),
          ))

  register_again :
      (fp fp' : Text) (x : H) (h' : Option H) (n n' : Node H)
      → register node_twice fp (some x) n ≡ done n'
      → register node_twice fp' h' n' ≡ panic node_twice n'
  register_again fp fp' x h' (node r p cs s q none) n' e = ground arith
  register_again fp fp' x h' (node r p cs s q (some y)) n' e = cc

  -- Whether the second registration of the same segments panics: exactly when none of them is a
  -- parameter or `*`.
  abbrev pub Twice : Bool → List Text → Text → Option H → Node H → Type 0
  Twice true segs fp h n = (n' : Node H) × (insert segs fp h n ≡ panic node_twice n')
  Twice false segs fp h n = (n' : Node H) × (insert segs fp h n ≡ done n')

  map-Twice :
      (b : Bool) (seg : Text) (segs : List Text) (fp : Text) (h : Option H) (n c : Node H)
      {place : Place} {m : Node H}
      → seg ≢ []
      → child_or_create n seg ≡ created place m c
      → Twice b segs fp h c
      → Twice b (seg ∷ segs) fp h n
  map-Twice true seg segs fp h n c {place} {m} ne r (c', e) = (
    with_child place m c',
    insert_created seg segs fp h n ne r ∙ ap (map_outcome (with_child place m)) e,
  )
  map-Twice false seg segs fp h n c {place} {m} ne r (c', e) = (
    with_child place m c',
    insert_created seg segs fp h n ne r ∙ ap (map_outcome (with_child place m)) e,
  )

  again-Twice :
      (k : Kind) (segs : List Text) (fp fp' : Text) (x : H) (h' : Option H) (c c' : Node H)
      → insert segs fp (some x) c ≡ done c'
      → Twice (all_static segs) segs fp' h' c'
      → Twice (is_static k && all_static segs) segs fp' h' (again k c c')
  again-Twice static_kind segs fp fp' x h' c c' e t = t
  again-Twice param_kind segs fp fp' x h' c c' e t = insert_any segs fp fp' (some x) h' c c' e
  again-Twice star_kind segs fp fp' x h' c c' e t = insert_any segs fp fp' (some x) h' c c' e

  -- After a path has been registered with a handler, a second registration of its segments panics when
  -- all of them are static, and succeeds when one of them is a parameter or `*`.
  pub insert-Twice :
      (segs : List Text) (fp fp' : Text) (x : H) (h' : Option H) (n n' : Node H)
      → insert segs fp (some x) n ≡ done n'
      → Twice (all_static segs) segs fp' h' n'
  unfolding child_or_create
  insert-Twice [] fp fp' x h' n n' e = unfold insert in (n', register_again fp fp' x h' n n' e)
  insert-Twice (seg ∷ segs) fp fp' x h' n n' e =
      let (ne, place, m, c, c', r, ok, same) = insert-inv seg segs fp (some x) n n' e in
      let (place', m', r') = create-again (kind seg) n seg r c' in
      subst (λ y. Twice (all_static (seg ∷ segs)) (seg ∷ segs) fp' h' y) (sym same)
        (map-Twice (all_static (seg ∷ segs)) seg segs fp' h' (with_child place m c')
          (again (kind seg) c c') ne r'
          (again-Twice (kind seg) segs fp fp' x h' c c' ok (insert-Twice segs fp fp' x h' c c' ok)))
