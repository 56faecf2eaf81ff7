-- ===== src/Web/Router/Insert.antt =====
-- What one registration (the loop of `addRoute`) does to the tree of its method.
use gotest.Common.{
  ◌≡◌, refl, ◌∙◌, ap, ◌≢◌, ◌⊎◌, inl, inr, if◌then◌else◌, Bool, true, false, Option, none, some,
  List, [], ◌∷◌, drop, arith, subst,
}
use gotest.Common.Text.{Text, text_discrete}
use gotest.Common.Dict
use gotest.Web.Router.{
  Node, node, empty, full, Children, nil, child, Outcome, done, panic, Panic, node_twice,
  empty_segment, Created, refused, created, Place, at_param, at_star, at_key, Kind, param_kind,
  star_kind, static_kind, kind, new_node, get_child, put_child, child_of, create, child_or_create,
  or_new, with_child, map_outcome, register, insert, walk, route, path, handler, hit,
}

pub Kind-cases : (k : Kind) → (k ≡ param_kind) ⊎ ((k ≡ star_kind) ⊎ (k ≡ static_kind))
Kind-cases param_kind = inl refl
Kind-cases star_kind = inr (inl refl)
Kind-cases static_kind = inr (inr refl)

abbrev pub bind_seg : Kind → Text → Text → List (Text × Text) → List (Text × Text)
bind_seg param_kind seg v ps = Dict.put text_discrete (drop 1 seg) v ps
bind_seg _ seg v ps = ps

-- What the parameters of a route are bound to by the segments of a request.
unfoldable pub bind : List Text → List Text → List (Text × Text) → List (Text × Text)
bind [] vs ps = ps
bind (seg ∷ segs) [] ps = ps
bind (seg ∷ segs) (v ∷ vs) ps = bind segs vs (bind_seg (kind seg) seg v ps)

pub map_outcome-eq-done :
    {A B : Type 0} (f : A → B) (o : Outcome A) {b : B}
    → map_outcome f o ≡ done b
    → (a : A) × (o ≡ done a) × (b ≡ f a)
map_outcome-eq-done f (done a) e = (a, refl, cc)
map_outcome-eq-done f (panic m a) e = cc

abbrev pub is_param_kind : Kind → Bool
is_param_kind param_kind = true
is_param_kind _ = false

module _ {H : Type 0} where
  pub get_child-put_child_self :
      (seg : Text) (m : Node H) (cs : Children H) → get_child seg (put_child seg m cs) ≡ full m
  unfolding get_child put_child
  get_child-put_child_self seg m nil = ground arith
  get_child-put_child_self seg m (child k n cs) = ground (arith, get_child-put_child_self seg m cs)

  pub get_child-put_child_ne :
      (seg : Text) (m : Node H) (cs : Children H) (v : Text)
      → v ≢ seg
      → get_child v (put_child seg m cs) ≡ get_child v cs
  unfolding get_child put_child
  get_child-put_child_ne seg m nil v h = ground arith
  get_child-put_child_ne seg m (child k n cs) v h =
      ground (arith, get_child-put_child_ne seg m cs v h)

  abbrev pub children : Node H → Children H
  children (node r p cs s q h) = cs

  -- The request's segments instantiate the route's: a static segment is met by itself, a parameter
  -- and `*` by any segment that is no static child of the node where they stand.
  abbrev pub StepReaches : Kind → Node H → Text → Text → (Node H → Type 0) → Type 0
  StepReaches static_kind n seg v rest = (v ≡ seg) × rest (or_new seg (get_child seg (children n)))
  StepReaches param_kind n seg v rest = (get_child v (children n) ≡ empty) × rest (new_node seg)
  StepReaches star_kind n seg v rest = (get_child v (children n) ≡ empty) × rest (new_node seg)

  abbrev pub Reaches : List Text → List Text → Node H → Type 0
  Reaches [] [] n = Unit
  Reaches [] (v ∷ vs) n = ⊥
  Reaches (seg ∷ segs) [] n = ⊥
  Reaches (seg ∷ segs) (v ∷ vs) n = StepReaches (kind seg) n seg v (Reaches segs vs)

  pub Created-cases :
      (x : Created H)
      → ((m : Panic) × (x ≡ refused m))
        ⊎ ((place : Place) × (m : Node H) × (c : Node H) × (x ≡ created place m c))
  Created-cases (refused m) = inl (m, refl)
  Created-cases (created place m c) = inr (place, m, c, refl)

  -- The three ways that the loop goes on.
  module _ (seg : Text) (segs : List Text) (fp : Text) (h : Option H) (n : Node H) where
    pub insert_empty : seg ≡ [] → insert (seg ∷ segs) fp h n ≡ panic empty_segment n
    unfolding insert
    insert_empty p = ground arith

    pub insert-refused :
        {m : Panic}
        → seg ≢ []
        → child_or_create n seg ≡ refused m
        → insert (seg ∷ segs) fp h n ≡ panic m n
    unfolding insert
    insert-refused p r = ground arith

    pub insert_created :
        {place : Place} {m c : Node H}
        → seg ≢ []
        → child_or_create n seg ≡ created place m c
        → insert (seg ∷ segs) fp h n ≡ map_outcome (with_child place m) (insert segs fp h c)
    unfolding insert
    insert_created p r = ground arith

  -- A registration that succeeds created or found a child, and went on below it.
  pub insert-inv :
      (seg : Text) (segs : List Text) (full_path : Text) (h : Option H) (n n' : Node H)
      → insert (seg ∷ segs) full_path h n ≡ done n'
      → (seg ≢ [])
        × (place : Place) × (m c c' : Node H) × (child_or_create n seg ≡ created place m c)
        × (insert segs full_path h c ≡ done c')
        × (n' ≡ with_child place m c')
  unfolding insert child_or_create
  insert-inv seg segs full_path h n n' e = elim (text_discrete seg []) [
    | yes p ↦ absurd (ground arith)
    | no p ↦ elim (Created-cases (create (kind seg) n seg)) [
      | inl (m, r) ↦ absurd (ground arith)
      | inr (place, m, c, r) ↦
          let (c', ok, same) =
            map_outcome-eq-done (with_child place m) (insert segs full_path h c) {b = n'}
              (ground arith) in
          (p, place, m, c, c', r, ok, same)
    ]
  ]

  pub path-with_child : (place : Place) (m c : Node H) → path (with_child place m c) ≡ path m
  path-with_child at_param (node r p cs s q h) c = refl
  path-with_child at_star (node r p cs s q h) c = refl
  path-with_child (at_key k) (node r p cs s q h) c = refl

  pub path-create :
      (k : Kind) (n : Node H) (seg : Text) {place : Place} {m c : Node H}
      → create k n seg ≡ created place m c
      → path m ≡ path n
  path-create param_kind (node r p cs empty q h) seg e = ground arith
  path-create param_kind (node r p cs (full s) q h) seg e = cc
  path-create star_kind (node r p cs s empty h) seg e = ground arith
  path-create star_kind (node r p cs s (full q) h) seg e = cc
  path-create static_kind (node r p cs s q h) seg e = ground arith

  pub path-register :
      (m : Panic) (fp : Text) (h : Option H) (n n' : Node H)
      → register m fp h n ≡ done n'
      → (path n' ≡ path n)
        × (handler n' ≡ h)
        × (route n' ≡ fp)
        × (handler n ≡ none)
        × (children n' ≡ children n)
  path-register m fp h (node r p cs s q none) n' e = ground arith
  path-register m fp h (node r p cs s q (some x)) n' e = cc

  pub path-insert :
      (segs : List Text) (fp : Text) (h : Option H) (n n' : Node H)
      → insert segs fp h n ≡ done n'
      → path n' ≡ path n
  unfolding insert child_or_create
  path-insert [] fp h n n' e = (path-register node_twice fp h n n' e).0
  path-insert (seg ∷ segs) fp h n n' e =
      let (_, place, m, c, c', r, ok, same) = insert-inv seg segs fp h n n' e in
      ap path same ∙ path-with_child place m c' ∙ path-create (kind seg) n seg r

  AtCreated : (Place → Node H → Node H → Type 0) → Created H → Type 0
  AtCreated P (refused m) = Unit
  AtCreated P (created place m c) = P place m c

  pub created-subst :
      (P : Place → Node H → Node H → Type 0) {p q : Place} {m m' c c' : Node H}
      → created p m c ≡ created q m' c'
      → P p m c
      → P q m' c'
  unfolding AtCreated
  created-subst P e x = subst (AtCreated P) e x

  -- The child that was created is what `childOf` finds for a segment that reaches it.
  pub create-Reaches :
      (k : Kind) (n : Node H) (seg v : Text) (rest : Node H → Type 0) {place : Place} {m c : Node H}
      → create k n seg ≡ created place m c
      → StepReaches k n seg v rest
      → (c' : Node H) → (child_of (with_child place m c') v ≡ hit c' (is_param_kind k)) × rest c
  unfolding child_of
  create-Reaches param_kind (node r p cs (full s) q h) seg v rest e s' c' = cc
  create-Reaches param_kind (node r p cs empty q h) seg v rest e s' c' =
      created-subst (λ place m c. (child_of (with_child place m c') v ≡ hit c' true) × rest c) e
        (rw (s'.0), s'.1)
  create-Reaches star_kind (node r p cs s (full q) h) seg v rest e s' c' = cc
  create-Reaches star_kind (node r p cs s empty h) seg v rest e s' c' =
      created-subst (λ place m c. (child_of (with_child place m c') v ≡ hit c' false) × rest c) e
        (rw (s'.0), s'.1)
  create-Reaches static_kind (node r p cs s q h) seg v rest e s' c' =
      created-subst (λ place m c. (child_of (with_child place m c') v ≡ hit c' false) × rest c) e
        (rw (s'.0, get_child-put_child_self), s'.1)

  pub path_of_param :
      (n : Node H) (seg : Text) {place : Place} {m c : Node H}
      → create param_kind n seg ≡ created place m c
      → path c ≡ seg
  path_of_param (node r p cs (full s) q h) seg e = cc
  path_of_param (node r p cs empty q h) seg e = created-subst (λ _ _ c. path c ≡ seg) e refl

  bind_step :
      (k : Kind) (n : Node H) (seg v : Text) (ps : List (Text × Text)) {place : Place}
      {m c : Node H} (c' : Node H)
      → create k n seg ≡ created place m c
      → path c' ≡ path c
      → (if is_param_kind k then Dict.put text_discrete (drop 1 (path c')) v ps else ps)
        ≡ bind_seg k seg v ps
  bind_step param_kind n seg v ps c' e p = rw (p, path_of_param n seg e)
  bind_step star_kind n seg v ps c' e p = refl
  bind_step static_kind n seg v ps c' e p = refl

  pub walk_hit :
      (n : Node H) (v : Text) (c : Node H) (is_param : Bool) (ps : List (Text × Text))
      (vs : List Text)
      → child_of n v ≡ hit c is_param
      → walk n ps (v ∷ vs)
        ≡ walk c (if is_param then Dict.put text_discrete (drop 1 (path c)) v ps else ps) vs
  unfolding walk
  walk_hit n v c is_param ps vs e = rw (e, walk)

  -- After a successful registration a request whose segments instantiate the route's reaches the
  -- node that holds the handler, and binds the route's parameters.
  pub walk-insert :
      (segs vs : List Text) (fp : Text) (h : Option H) (n n' : Node H) (ps : List (Text × Text))
      → insert segs fp h n ≡ done n'
      → Reaches segs vs n
      → (leaf : Node H) × (walk n' ps vs
          ≡ some (record { n = leaf; path_params = bind segs vs ps }))
        × (handler leaf ≡ h)
        × (route leaf ≡ fp)
  unfolding insert walk bind child_or_create
  walk-insert [] [] fp h n n' ps e reach =
      let (_, hh, rr, _, _) = path-register node_twice fp h n n' e in (n', refl, hh, rr)
  walk-insert [] (v ∷ vs) fp h n n' ps e reach = absurd reach
  walk-insert (seg ∷ segs) [] fp h n n' ps e reach = absurd reach
  walk-insert (seg ∷ segs) (v ∷ vs) fp h n n' ps e reach =
      let (_, place, m, c, c', r, ok, same) = insert-inv seg segs fp h n n' e in
      let (found, reach') = create-Reaches (kind seg) n seg v (Reaches segs vs) r reach c' in
      let (leaf, walked, handled, routed) =
        walk-insert segs vs fp h c c' (bind_seg (kind seg) seg v ps) ok reach' in
      let step = bind_step (kind seg) n seg v ps c' r (path-insert segs fp h c c' ok) in
      (
        leaf,
        ap (λ x. walk x ps (v ∷ vs)) same
            ∙ (walk_hit (with_child place m c') v c' (is_param_kind (kind seg)) ps vs found
                ∙ (ap (λ qs. walk c' qs vs) step ∙ walked)),
        handled,
        routed,
      )
