-- ===== src/Web/Router/Invariant.antt =====
-- The shape of the trees that `addRoute` builds.
use gotest.Common.{
  ◌≡◌, refl, ◌∙◌, ◌≢◌, ◌⊎◌, inl, inr, if_pos, if_neg, Bool-cases, Option, none, some, List, [], ◌∷◌,
  arith, All, subst,
}
use gotest.Common.Text.{Text, codes, text_discrete}
use gotest.Common.Dict
use gotest.Web.Router.{
  Node, node, Slot, empty, full, Children, nil, child, Outcome, done, panic, Panic, created, Place,
  Kind, param_kind, star_kind, static_kind, kind, new_node, get_child, put_child, create,
  child_or_create, or_new, with_child, map_outcome, register, insert, path, add_at_root, add_route,
  root_of, slot, Trees, node_twice, root_twice, begins_with, last_is,
}
use gotest.Web.Router.Insert.{
  StepReaches, Reaches, insert_empty, insert-refused, insert_created, Created-cases, created-subst,
  path-create, path-with_child,
}

-- The state that a call leaves, whether it returns or panics.
abbrev pub state : {A : Type 0} → Outcome A → A
state (done a) = a
state (panic m a) = a

-- Every static child stands under its own segment, which is not empty and neither `*` nor a
-- parameter; a `*` child and a parameter child are what their names say, and no node has both.
abbrev mutual
  pub IsWf : {H : Type 0} → Node H → Type 0
  IsWf (node r p cs s q h) =
      IsWfChildren cs × IsWfStar s × IsWfParam q × ((s ≡ empty) ⊎ (q ≡ empty))

  pub IsWfChildren : {H : Type 0} → Children H → Type 0
  IsWfChildren nil = Unit
  IsWfChildren (child k n cs) =
      (k ≢ []) × (kind k ≡ static_kind) × (path n ≡ k) × IsWf n × IsWfChildren cs

  pub IsWfStar : {H : Type 0} → Slot H → Type 0
  IsWfStar empty = Unit
  IsWfStar (full n) = (path n ≡ codes "*") × IsWf n

  pub IsWfParam : {H : Type 0} → Slot H → Type 0
  IsWfParam empty = Unit
  IsWfParam (full n) = (kind (path n) ≡ param_kind) × IsWf n

eq_of_star_kind : (seg : Text) → kind seg ≡ star_kind → seg ≡ codes "*"
unfolding kind
eq_of_star_kind seg e = ground arith

pub state-map_outcome :
    {A B : Type 0} (f : A → B) (o : Outcome A) → state (map_outcome f o) ≡ f (state o)
state-map_outcome f (done a) = refl
state-map_outcome f (panic m a) = refl

module _ {H : Type 0} where
  get_child-IsWf :
      (seg : Text) (cs : Children H) (n : Node H)
      → IsWfChildren cs
      → get_child seg cs ≡ full n
      → (path n ≡ seg) × IsWf n
  unfolding get_child
  get_child-IsWf seg nil n w e = cc
  get_child-IsWf seg (child k m cs) n w e = elim (text_discrete k seg) [
    | yes p ↦ subst (λ x. (path x ≡ seg) × IsWf x) {x = m} {y = n} (ground arith) (w.2 ∙ p, w.3)
    | no p ↦ get_child-IsWf seg cs n w.4 (ground arith)
  ]

  put_child-IsWf :
      (seg : Text) (m : Node H) (cs : Children H)
      → seg ≢ []
      → kind seg ≡ static_kind
      → path m ≡ seg
      → IsWf m
      → IsWfChildren cs
      → IsWfChildren (put_child seg m cs)
  unfolding put_child
  put_child-IsWf seg m nil a b c d w = (a, b, c, d, tt)
  put_child-IsWf seg m (child k n cs) a b c d w = elim (text_discrete k seg) [
    | yes p ↦
        rw (if_pos (text_discrete k seg) p (child seg m cs) (child k n (put_child seg m cs)))
          (a, b, c, d, w.4)
    | no p ↦
        rw (if_neg (text_discrete k seg) p (child seg m cs) (child k n (put_child seg m cs)))
          (w.0, w.1, w.2, w.3, put_child-IsWf seg m cs a b c d w.4)
  ]

  pub or_new-IsWf :
      (seg : Text) (o : Slot H) (cs : Children H)
      → IsWfChildren cs
      → get_child seg cs ≡ o
      → (path (or_new seg o) ≡ seg) × IsWf (or_new seg o)
  or_new-IsWf seg empty cs w e = (refl, (tt, tt, tt, inl refl))
  or_new-IsWf seg (full n) cs w e = get_child-IsWf seg cs n w e

  -- What `childOrCreate` gives: a child of the right shape, and a place where any change of the child
  -- that keeps its segment keeps the shape of the node.
  abbrev IsGood : Text → Place → Node H → Node H → Type 0
  IsGood seg place m c =
      IsWf c × ((c' : Node H) → IsWf c' → path c' ≡ path c → IsWf (with_child place m c'))

  create-IsGood :
      (k : Kind) (n : Node H) (seg : Text) {place : Place} {m c : Node H}
      → seg ≢ []
      → kind seg ≡ k
      → IsWf n
      → create k n seg ≡ created place m c
      → IsGood seg place m c
  create-IsGood param_kind (node r p cs (full s) q h) seg ne k w e = cc
  create-IsGood param_kind (node r p cs empty q h) seg ne k w e =
      created-subst (IsGood seg) e
        ((tt, tt, tt, inl refl), λ c' w' same. (w.0, tt, (rw same k, w'), inl refl))
  create-IsGood star_kind (node r p cs s (full q) h) seg ne k w e = cc
  create-IsGood star_kind (node r p cs s empty h) seg ne k w e = created-subst (IsGood seg) e (
    (tt, tt, tt, inl refl),
    λ c' w' same. (w.0, (same ∙ eq_of_star_kind seg k, w'), tt, inr refl),
  )
  create-IsGood static_kind (node r p cs s q h) seg ne k w e =
      let (same, wf) = or_new-IsWf seg (get_child seg cs) cs w.0 refl in
      created-subst (IsGood seg) e (
        wf,
        λ c' w' same'. (
          put_child-IsWf seg c' (put_child seg (or_new seg (get_child seg cs)) cs) ne k
              (same' ∙ same) w'
              (put_child-IsWf seg (or_new seg (get_child seg cs)) cs ne k same wf w.0),
          w.1,
          w.2,
          w.3,
        ),
      )

  state-register :
      (m : Panic) (fp : Text) (h : Option H) (n : Node H)
      → IsWf n
      → IsWf (state (register m fp h n)) × (path (state (register m fp h n)) ≡ path n)
  state-register m fp h (node r p cs s q none) w = (w, refl)
  state-register m fp h (node r p cs s q (some x)) w = (w, refl)

  pub insert-IsWf :
      (segs : List Text) (fp : Text) (h : Option H) (n : Node H)
      → IsWf n
      → IsWf (state (insert segs fp h n)) × (path (state (insert segs fp h n)) ≡ path n)
  unfolding child_or_create
  insert-IsWf [] fp h n w = unfold insert in state-register node_twice fp h n w
  insert-IsWf (seg ∷ segs) fp h n w = elim (text_discrete seg []) [
    | yes p ↦ rw (insert_empty seg segs fp h n p) (w, refl)
    | no p ↦ elim (Created-cases (create (kind seg) n seg)) [
      | inl (m, r) ↦ rw (insert-refused seg segs fp h n p r) (w, refl)
      | inr (place, m, c, r) ↦
          let (wf, keeps) = create-IsGood (kind seg) n seg p refl w r in
          let (wf', same) = insert-IsWf segs fp h c wf in
          let c' : Node H = state (insert segs fp h c) in
          rw
            (
              insert_created seg segs fp h n p r,
              state-map_outcome (with_child place m) (insert segs fp h c),
            )
            (keeps c' wf' same, path-with_child place m c' ∙ path-create (kind seg) n seg r)
    ]
  ]

  add_at_root-IsWf :
      (fp : Text) (h : Option H) (n : Node H) → IsWf n → IsWf (state (add_at_root fp h n))
  unfolding add_at_root
  add_at_root-IsWf fp h n w = elim (Bool-cases (begins_with b'/' fp)) [
    | inr q ↦ rw q w
    | inl q ↦ rw q (elim (text_discrete fp (codes "/")) [
      | yes p ↦ rw (if_pos (text_discrete fp (codes "/")) p) (state-register root_twice fp h n w).0
      | no p ↦ rw (if_neg (text_discrete fp (codes "/")) p) (elim (Bool-cases (last_is b'/' fp)) [
        | inl t ↦ rw t w
        | inr t ↦ rw t (insert-IsWf _ fp h n w).0
      ])
    ])
  ]

  abbrev pub AllWf : Trees H → Type 0
  AllWf trees = All (λ e. IsWf e.1) trees

  pub get-IsWf :
      (m : Text) (trees : Trees H)
      → AllWf trees
      → IsWf (root_of (slot (Dict.get text_discrete m trees)))
  unfolding Dict.get
  get-IsWf m [] w = (tt, tt, tt, inl refl)
  get-IsWf m ((k, n) ∷ trees) w = elim (text_discrete k m) [
    | yes p ↦ rw (if_pos (text_discrete k m) p (some n) (Dict.get text_discrete m trees)) w.0
    | no p ↦
        rw (if_neg (text_discrete k m) p (some n) (Dict.get text_discrete m trees))
          (get-IsWf m trees w.1)
  ]

  -- Whatever the path, and also where the registration panics, `addRoute` keeps the shape of all the trees.
  pub add_route-AllWf :
      (trees : Trees H) (method fp : Text) (h : Option H)
      → AllWf trees
      → AllWf (state (add_route trees method fp h))
  unfolding add_route
  add_route-AllWf trees method fp h w = elim (text_discrete fp []) [
    | yes p ↦ rw (if_pos (text_discrete fp []) p) w
    | no p ↦
        let root = root_of (slot (Dict.get text_discrete method trees)) in
        rw
          (
            if_neg (text_discrete fp []) p,
            state-map_outcome (λ root'. Dict.put text_discrete method root' trees)
                (add_at_root fp h root),
          )
          (Dict.All-put text_discrete (λ e. IsWf e.1) method (state (add_at_root fp h root)) trees w
            (add_at_root-IsWf fp h root (get-IsWf method trees w)))
  ]

  get_child_not_static :
      (seg : Text) (cs : Children H)
      → IsWfChildren cs
      → kind seg ≢ static_kind
      → get_child seg cs ≡ empty
  unfolding get_child
  get_child_not_static seg nil w h = refl
  get_child_not_static seg (child k n cs) w h = elim (text_discrete k seg) [
    | yes p ↦ absurd (h (subst (λ x. kind x ≡ static_kind) p w.1))
    | no p ↦ if_neg (text_discrete k seg) p _ _ ∙ get_child_not_static seg cs w.4 h
  ]

  -- In a tree of the right shape a route, read as a request, instantiates itself.
  StepReaches-self :
      (k : Kind) (n : Node H) (seg : Text) (rest : Node H → Type 0)
      → kind seg ≡ k
      → IsWf n
      → ((c : Node H) → IsWf c → rest c)
      → StepReaches k n seg seg rest
  StepReaches-self param_kind (node r p cs s q h) seg rest k w f =
      (get_child_not_static seg cs w.0 (λ e. cc), f (new_node seg) (tt, tt, tt, inl refl))
  StepReaches-self star_kind (node r p cs s q h) seg rest k w f =
      (get_child_not_static seg cs w.0 (λ e. cc), f (new_node seg) (tt, tt, tt, inl refl))
  StepReaches-self static_kind (node r p cs s q h) seg rest k w f =
      (refl, f _ (or_new-IsWf seg (get_child seg cs) cs w.0 refl).1)

  pub Reaches-self : (segs : List Text) (n : Node H) → IsWf n → Reaches segs segs n
  Reaches-self [] n w = tt
  Reaches-self (seg ∷ segs) n w =
      StepReaches-self (kind seg) n seg (Reaches segs segs) refl w (Reaches-self segs)
