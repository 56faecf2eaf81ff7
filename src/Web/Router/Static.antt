-- ===== src/Web/Router/Static.antt =====
-- Registrations keep the routes that are found through static children alone.
use gotest.Common.{
  ◌≡◌, refl, sym, ◌∙◌, ap, ◌≢◌, inl, inr, false, Option, none, some, List, [], ◌∷◌, subst,
}
use gotest.Common.Text.{Text, text_discrete}
use gotest.Web.Router.{
  Node, node, Slot, empty, full, Children, Panic, created, Place, Kind, param_kind, star_kind,
  static_kind, kind, get_child, put_child, child_of, create, child_or_create, or_new, with_child,
  register, node_twice, insert, handler, route, walk, hit,
}
use gotest.Web.Router.Insert.{
  insert_empty, insert-refused, insert_created, Created-cases, created-subst, children,
  get_child-put_child_self, get_child-put_child_ne, walk_hit,
}
use gotest.Web.Router.Invariant.{state, state-map_outcome}

module _ {H : Type 0} where
  -- The request's segments are static children, one below the other, down to `leaf`.
  abbrev pub Descends : List Text → Node H → Node H → Type 0
  Descends [] n leaf = n ≡ leaf
  Descends (v ∷ vs) n leaf = (c : Node H) × (get_child v (children n) ≡ full c) × Descends vs c leaf

  child_of_static :
      (n c : Node H) (v : Text) → get_child v (children n) ≡ full c → child_of n v ≡ hit c false
  unfolding child_of
  child_of_static (node r p cs s q h) c v e = rw e

  walk-Descends :
      (vs : List Text) (n leaf : Node H) (ps : List (Text × Text))
      → Descends vs n leaf
      → walk n ps vs ≡ some (record { n = leaf; path_params = ps })
  unfolding walk
  walk-Descends [] n leaf ps e = ap (λ x. some (record { n = x; path_params = ps })) e
  walk-Descends (v ∷ vs) n leaf ps (c, e, d) =
      walk_hit n v c false ps vs (child_of_static n c v e) ∙ walk-Descends vs c leaf ps d

  -- Two nodes that answer a request that ends at them alike.
  abbrev pub SameRoute : Node H → Node H → Type 0
  SameRoute a b = (handler a ≡ handler b) × (route a ≡ route b)

  -- Beside the handler at the end of the registered path, a change of the tree keeps each static route.
  abbrev Keeps : List Text → Node H → Node H → Type 0
  Keeps segs n n' =
      (vs : List Text) (leaf : Node H)
      → vs ≢ segs
      → Descends vs n leaf
      → (leaf' : Node H) × Descends vs n' leaf' × SameRoute leaf' leaf

  register-Keeps :
      (m : Panic) (fp : Text) (h : Option H) (n : Node H) → Keeps [] n (state (register m fp h n))
  register-Keeps m fp h (node r p cs s q none) [] leaf ne d = absurd (ne refl)
  register-Keeps m fp h (node r p cs s q none) (v ∷ vs) leaf ne d = (leaf, d, (refl, refl))
  register-Keeps m fp h (node r p cs s q (some x)) vs leaf ne d = (leaf, d, (refl, refl))

  Keeps-refl : (segs : List Text) (n : Node H) → Keeps segs n n
  Keeps-refl segs n vs leaf ne d = (leaf, d, (refl, refl))

  get_child-or_new :
      (seg v : Text) (cs : Children H) (c : Node H) (c' : Node H)
      → v ≢ seg
      → get_child v cs ≡ full c
      → get_child v (put_child seg c' (put_child seg (or_new seg (get_child seg cs)) cs)) ≡ full c
  get_child-or_new seg v cs c c' ne e =
      get_child-put_child_ne seg c' _ v ne ∙ (get_child-put_child_ne seg _ cs v ne ∙ e)

  Keeps-of_same_children :
      (segs : List Text) (n n' : Node H)
      → children n' ≡ children n
      → SameRoute n' n
      → Keeps segs n n'
  Keeps-of_same_children segs n n' e (eh, er) [] leaf ne d =
      (n', refl, (eh ∙ ap handler d, er ∙ ap route d))
  Keeps-of_same_children segs n n' e same (v ∷ vs) leaf ne (c, g, d) =
      (leaf, (c, ap (get_child v) e ∙ g, d), (refl, refl))

  static-Keeps :
      (r p seg : Text) (cs : Children H) (s q : Slot H) (h : Option H) (segs : List Text)
      (c' : Node H)
      → Keeps segs (or_new seg (get_child seg cs)) c'
      → Keeps
          (seg ∷ segs)
          (node r p cs s q h)
          (node r p (put_child seg c' (put_child seg (or_new seg (get_child seg cs)) cs)) s q h)
  static-Keeps r p seg cs s q h segs c' keep [] leaf ne d = (_, refl, (ap handler d, ap route d))
  static-Keeps r p seg cs s q h segs c' keep (v ∷ vs) leaf ne (c, g, d) =
      elim (text_discrete v seg) [
        | no diff ↦ (leaf, (c, get_child-or_new seg v cs c c' diff g, d), (refl, refl))
        | yes same ↦
            let found : or_new seg (get_child seg cs) ≡ c =
              ap (or_new seg) (ap (λ x. get_child x cs) (sym same) ∙ g) in
            let cs' : Children H = put_child seg (or_new seg (get_child seg cs)) cs in
            let (leaf', d', like) =
              keep vs leaf (λ e. ne (cc)) (subst (λ x. Descends vs x leaf) (sym found) d) in
            (
              leaf',
              (
                c',
                ap (λ x. get_child x (put_child seg c' cs')) same
                    ∙ get_child-put_child_self seg c' cs',
                d',
              ),
              like,
            )
      ]

  -- One step: what the change below the created child keeps, the change of the node keeps.
  create-Keeps :
      (k : Kind) (n : Node H) (seg : Text) (segs : List Text) {place : Place} {m c : Node H}
      → create k n seg ≡ created place m c
      → (c' : Node H) → Keeps segs c c'
      → Keeps (seg ∷ segs) n (with_child place m c')
  create-Keeps param_kind (node r p cs (full s) q h) seg segs e = cc
  create-Keeps param_kind (node r p cs empty q h) seg segs e =
      created-subst
        (λ place m c.
          (c' : Node H)
          → Keeps segs c c'
          → Keeps (seg ∷ segs) (node r p cs empty q h) (with_child place m c'))
        e (λ c' _. Keeps-of_same_children (seg ∷ segs) (node r p cs empty q h) _ refl (refl, refl))
  create-Keeps star_kind (node r p cs s (full q) h) seg segs e = cc
  create-Keeps star_kind (node r p cs s empty h) seg segs e =
      created-subst
        (λ place m c.
          (c' : Node H)
          → Keeps segs c c'
          → Keeps (seg ∷ segs) (node r p cs s empty h) (with_child place m c'))
        e (λ c' _. Keeps-of_same_children (seg ∷ segs) (node r p cs s empty h) _ refl (refl, refl))
  create-Keeps static_kind (node r p cs s q h) seg segs e =
      created-subst
        (λ place m c.
          (c' : Node H)
          → Keeps segs c c'
          → Keeps (seg ∷ segs) (node r p cs s q h) (with_child place m c'))
        e (static-Keeps r p seg cs s q h segs)

  insert-Keeps :
      (segs : List Text) (fp : Text) (h : Option H) (n : Node H)
      → Keeps segs n (state (insert segs fp h n))
  unfolding child_or_create
  insert-Keeps [] fp h n = unfold insert in register-Keeps node_twice fp h n
  insert-Keeps (seg ∷ segs) fp h n = elim (text_discrete seg []) [
    | yes p ↦ rw (insert_empty seg segs fp h n p) (Keeps-refl (seg ∷ segs) n)
    | no p ↦ elim (Created-cases (create (kind seg) n seg)) [
      | inl (m, r) ↦ rw (insert-refused seg segs fp h n p r) (Keeps-refl (seg ∷ segs) n)
      | inr (place, m, c, r) ↦
          rw
            (
              insert_created seg segs fp h n p r,
              state-map_outcome (with_child place m) (insert segs fp h c),
            )
            (create-Keeps (kind seg) n seg segs r _ (insert-Keeps segs fp h c))
    ]
  ]

  -- A registration, also one that panics on its way, leaves each route that is found through static
  -- children with its handler and its path, except for the registered path itself.
  pub walk-insert_static :
      (segs vs : List Text) (fp : Text) (h : Option H) (n leaf : Node H) (ps : List (Text × Text))
      → vs ≢ segs
      → Descends vs n leaf
      → (walk n ps vs ≡ some (record { n = leaf; path_params = ps }))
        × ((leaf' : Node H) × (walk (state (insert segs fp h n)) ps vs
              ≡ some (record { n = leaf'; path_params = ps }))
            × SameRoute leaf' leaf)
  walk-insert_static segs vs fp h n leaf ps ne d =
      let (leaf', d', like) = insert-Keeps segs fp h n vs leaf ne d in
      (walk-Descends vs n leaf ps d, (leaf', walk-Descends vs _ leaf' ps d', like))
