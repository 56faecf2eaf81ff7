-- ===== src/Web/Router/Routes.antt =====
-- What a registration promises to the requests that follow it.
use gotest.Common.{
  ◌≡◌, sym, ◌∙◌, ap, ◌≢◌, ◌⊎◌, inl, inr, if_pos, if_neg, true, Option, some, List, [], ◌∷◌, drop,
  arith, All, subst,
}
use gotest.Common.Text.{Text, codes, text_discrete, split, trim, join, Lacks}
use gotest.Common.Text.Trim.{IsSegment, trim-join, split-Lacks, join-split, split-cons}
use gotest.Common.Dict
use gotest.Web.Router.{
  Node, done, register, root_twice, insert, handler, route, add_at_root, add_route, root_of, slot,
  Trees, walk, find_route, find_from, begins_with,
}
use gotest.Web.Router.Insert.{
  insert-inv, map_outcome-eq-done, path-register, Reaches, bind, walk-insert,
}
use gotest.Web.Router.Invariant.{state, state-map_outcome, AllWf, get-IsWf, Reaches-self}

-- The segments that `addRoute` splits a path into.
abbrev pub segments : Text → List Text
segments fp = split b'/' (drop 1 fp)

abbrev pub request_segments : Text → List Text
request_segments fp = split b'/' (trim b'/' fp)

-- A path that can be registered: `/`, or `/` and segments joined by `/`, none of them empty.
abbrev pub IsRoutePath : Text → Type 0
IsRoutePath fp =
    (fp ≡ codes "/")
    ⊎ ((s : Text) × (ss : List Text) × All (IsSegment b'/') (s ∷ ss)
        × (fp ≡ b'/' ∷ join b'/' (s ∷ ss)))

cons_drop : (fp : Text) → begins_with b'/' fp ≡ true → fp ≡ b'/' ∷ drop 1 fp
cons_drop [] e = cc
cons_drop (c ∷ s) e = ground arith

pub find_route_lem :
    {H : Type 0} (trees : Trees H) (root : Node H) (method request : Text)
    → Dict.get text_discrete method trees ≡ some root
    → request ≢ codes "/"
    → find_route trees method request ≡ walk root [] (request_segments request)
unfolding find_route
find_route_lem trees root method request e p =
    ap (λ o. find_from o request) e ∙ if_neg (text_discrete request (codes "/")) p _ _

trim_route : (fp : Text) → IsRoutePath fp → fp ≢ codes "/" → request_segments fp ≡ segments fp
trim_route fp (inl e) ne = absurd (ne e)
trim_route fp (inr (s, ss, wf, e)) ne =
    let same : trim b'/' fp ≡ drop 1 fp =
      ap (trim b'/') e ∙ (trim-join b'/' s ss wf ∙ sym (ap (drop 1) e)) in
    ap (split b'/') same

module _ {H : Type 0} where
  abbrev pub tree : Trees H → Text → Node H
  tree trees method = root_of (slot (Dict.get text_discrete method trees))

  -- The path begins with `/`, and is the root's or has its segments inserted.
  abbrev pub AddedAtRoot : Text → Option H → Node H → Node H → Type 0
  AddedAtRoot fp h root root' =
      (begins_with b'/' fp ≡ true)
      × (((fp ≡ codes "/") × (register root_twice fp h root ≡ done root'))
          ⊎ ((fp ≢ codes "/") × (insert (segments fp) fp h root ≡ done root')))

  add_at_root-inv :
      (fp : Text) (h : Option H) (root root' : Node H)
      → add_at_root fp h root ≡ done root'
      → AddedAtRoot fp h root root'
  unfolding add_at_root
  add_at_root-inv fp h root root' e = (
    ground arith,
    elim (text_discrete fp (codes "/")) [
      | yes p ↦ inl (p, ground arith)
      | no p ↦ inr (p, ground arith)
    ],
  )

  -- A successful call, taken apart: the method's tree is replaced.
  pub add_route-inv :
      (trees trees' : Trees H) (method fp : Text) (h : Option H)
      → add_route trees method fp h ≡ done trees'
      → (root : Node H) × (trees' ≡ Dict.put text_discrete method root trees)
        × AddedAtRoot fp h (tree trees method) root
  unfolding add_route
  add_route-inv trees trees' method fp h e = elim (text_discrete fp []) [
    | yes p ↦ absurd (ground arith)
    | no p ↦
        let (root, ok, same) =
          map_outcome-eq-done (λ root. Dict.put text_discrete method root trees)
            (add_at_root fp h (tree trees method)) {b = trees'} (ground arith) in
        (root, same, add_at_root-inv fp h (tree trees method) root ok)
  ]

  All-segments :
      (segs : List Text) (fp : Text) (h : Option H) (n n' : Node H)
      → insert segs fp h n ≡ done n'
      → All (Lacks b'/') segs
      → All (IsSegment b'/') segs
  All-segments [] fp h n n' e l = tt
  All-segments (seg ∷ segs) fp h n n' e l =
      let (ne, place, m, c, c', r, ok, same) = insert-inv seg segs fp h n n' e in
      ((ne, l.0), All-segments segs fp h c c' ok l.1)

  -- Only a path that is `/`, or `/` before segments that are joined by `/` and not empty, can be
  -- registered: on every other path `addRoute` panics.
  pub add_route-IsRoutePath :
      (trees trees' : Trees H) (method fp : Text) (h : Option H)
      → add_route trees method fp h ≡ done trees'
      → IsRoutePath fp
  add_route-IsRoutePath trees trees' method fp h e =
      let (root, _, (slash, how)) = add_route-inv trees trees' method fp h e in
      elim how [
        | inl (p, _) ↦ inl p
        | inr (p, ok) ↦
            let (s, ss, e') = split-cons b'/' (drop 1 fp) in
            let wf : All (IsSegment b'/') (s ∷ ss) =
              rw e' at (All-segments (segments fp) fp h _ root ok (split-Lacks b'/' (drop 1 fp))) in
            inr (
              s,
              ss,
              wf,
              cons_drop fp slash
                  ∙ ap (λ x. b'/' ∷ x) (sym (join-split b'/' (drop 1 fp)) ∙ ap (join b'/') e'),
            )
      ]

  -- After a successful registration of a path other than `/`, a request that instantiates the path
  -- finds the node with the handler and the path, and its parameters are bound to the request's
  -- segments.
  pub find_route-add_route :
      (trees trees' : Trees H) (method fp request : Text) (h : Option H)
      → add_route trees method fp h ≡ done trees'
      → fp ≢ codes "/"
      → request ≢ codes "/"
      → Reaches (segments fp) (request_segments request) (tree trees method)
      → (leaf : Node H) × (find_route trees' method request
          ≡ some
              (record { n = leaf; path_params = bind (segments fp) (request_segments request) [] }))
        × (handler leaf ≡ h)
        × (route leaf ≡ fp)
  find_route-add_route trees trees' method fp request h e p q reach =
      let (root, same, (_, how)) = add_route-inv trees trees' method fp h e in
      elim how [
        | inl (p', _) ↦ absurd (p p')
        | inr (_, ok) ↦
            let (leaf, walked, handled, routed) =
              walk-insert (segments fp) (request_segments request) fp h (tree trees method) root []
                ok reach in
            (
              leaf,
              find_route_lem trees' root method request
                    (ap (Dict.get text_discrete method) same
                      ∙ Dict.get-put_self text_discrete method root trees)
                    q
                  ∙ walked,
              handled,
              routed,
            )
      ]

  -- A registration, also one that panics, changes no lookup of another method.
  pub find_route-other_method :
      (trees : Trees H) (method fp : Text) (h : Option H) (other request : Text)
      → other ≢ method
      → find_route (state (add_route trees method fp h)) other request
        ≡ find_route trees other request
  unfolding add_route find_route
  find_route-other_method trees method fp h other request ne = elim (text_discrete fp []) [
    | yes p ↦ rw (if_pos (text_discrete fp []) p)
    | no p ↦
        let root = tree trees method in
        rw
          (
            if_neg (text_discrete fp []) p,
            state-map_outcome (λ root'. Dict.put text_discrete method root' trees)
                (add_at_root fp h root),
          )
          (ap (λ o. find_from o request)
            (Dict.get-put_ne text_discrete method (state (add_at_root fp h root)) trees other ne))
  ]

  -- After a successful registration of any path, a request for the path as it is written finds the
  -- node with the handler and the path.
  pub find_route-add_route_self :
      (trees trees' : Trees H) (method fp : Text) (h : Option H)
      → AllWf trees
      → add_route trees method fp h ≡ done trees'
      → (leaf : Node H) × (params : List (Text × Text)) × (find_route trees' method fp
          ≡ some (record { n = leaf; path_params = params }))
        × (handler leaf ≡ h)
        × (route leaf ≡ fp)
  unfolding find_route
  find_route-add_route_self trees trees' method fp h wf e = elim (text_discrete fp (codes "/")) [
    | no p ↦
        let reach : Reaches (segments fp) (request_segments fp) (tree trees method) =
          subst (λ vs. Reaches (segments fp) vs (tree trees method))
            (sym (trim_route fp (add_route-IsRoutePath trees trees' method fp h e) p))
            (Reaches-self (segments fp) (tree trees method) (get-IsWf method trees wf)) in
        let (leaf, found, handled, routed) =
          find_route-add_route trees trees' method fp fp h e p p reach in
        (leaf, _, found, handled, routed)
    | yes p ↦
        let (root, same, (_, how)) = add_route-inv trees trees' method fp h e in
        elim how [
          | inr (ne, _) ↦ absurd (ne p)
          | inl (_, ok) ↦
              let (_, handled, routed, _, _) = path-register root_twice fp h _ root ok in
              (
                root,
                [],
                ap (λ o. find_from o fp)
                      (ap (Dict.get text_discrete method) same
                        ∙ Dict.get-put_self text_discrete method root trees)
                    ∙ if_pos (text_discrete fp (codes "/")) p _ _,
                handled,
                routed,
              )
        ]
  ]
