-- ===== src/Web/Router.antt =====
-- The route trees of web/router.go. A tree is a value here: where the code changes a node through a
-- pointer, the functions below return the tree with that node changed, also beside a panic.
pub mod Insert
pub mod Invariant
pub mod Routes
pub mod Static
pub mod Wildcards
mod Tests
use gotest.Common.{
  ℕ, ◌≡◌, refl, ite, Bool, true, false, not, Option, none, some, List, [], ◌∷◌, drop, ◌==◌,
  if◌then◌else◌,
}
use gotest.Common.Text.{Text, codes, text_discrete, split, trim}
use gotest.Common.Dict

-- `type node struct`. A nil and an empty map of children answer every lookup alike, and are both
-- `nil`; a nil pointer is `empty`.
mutual
  pub data Node (H : Type 0) : Type 0 where
    node :
        (route path : Text) (children : Children H) (star_child param_child : Slot H)
        (handler : Option H)
        → Node H

  pub data Slot (H : Type 0) : Type 0 where
    empty : Slot H
    full : Node H → Slot H

  pub data Children (H : Type 0) : Type 0 where
    nil : Children H
    child : Text → Node H → Children H → Children H

-- The kinds of segments, in the order of the tests of `childOrCreate`.
pub data Kind : Type 0 where
  param_kind star_kind static_kind : Kind

abbrev pub begins_with : ℕ → Text → Bool
begins_with b [] = false
begins_with b (c ∷ s) = c == b

unfoldable pub kind : Text → Kind
kind seg =
    if begins_with b':' seg
    then param_kind
    else ite (text_discrete seg (codes "*")) star_kind static_kind

-- The messages of the panics, in the order of the source.
pub data Panic : Type 0 where
  empty_path no_leading_slash trailing_slash root_twice empty_segment node_twice : Panic
  star_registered param_registered : Panic

-- A call that returns, or one that panics and leaves the state that it has reached.
pub data Outcome (A : Type 0) : Type 0 where
  done : A → Outcome A
  panic : Panic → A → Outcome A

-- What `childOf` finds: nothing, or a child and whether it is the path parameter.
pub data Found (H : Type 0) : Type 0 where
  miss : Found H
  hit : Node H → (is_param : Bool) → Found H

-- The pointer that `childOrCreate` returns, as a place below the node.
pub data Place : Type 0 where
  at_param at_star : Place
  at_key : Text → Place

-- The node with the child in it, and the child.
pub data Created (H : Type 0) : Type 0 where
  refused : Panic → Created H
  created : Place → Node H → Node H → Created H

abbrev pub map_outcome : {A B : Type 0} → (A → B) → Outcome A → Outcome B
map_outcome f (done a) = done (f a)
map_outcome f (panic m a) = panic m (f a)

abbrev last_is : ℕ → Text → Bool
last_is b [] = false
last_is b (c ∷ []) = c == b
last_is b (c ∷ d ∷ s) = last_is b (d ∷ s)

-- The root of each HTTP method's tree.
abbrev pub Trees : Type 0 → Type 0
Trees H = List (Text × Node H)

-- `matchInfo`
pub record MatchInfo (H : Type 0) : Type 0 where
  pub n : Node H
  pub path_params : List (Text × Text)

module _ {H : Type 0} where
  abbrev pub route : Node H → Text
  route (node r p cs s q h) = r

  abbrev pub path : Node H → Text
  path (node r p cs s q h) = p

  abbrev pub handler : Node H → Option H
  handler (node r p cs s q h) = h

  -- `&node{path: seg}`
  abbrev pub new_node : Text → Node H
  new_node seg = node [] seg nil empty empty none

  unfoldable pub get_child : Text → Children H → Slot H
  get_child seg nil = empty
  get_child seg (child k n cs) =
      let rest = get_child seg cs in ite (text_discrete k seg) (full n) rest

  unfoldable pub put_child : Text → Node H → Children H → Children H
  put_child seg m nil = child seg m nil
  put_child seg m (child k n cs) =
      let rest = put_child seg m cs in ite (text_discrete k seg) (child seg m cs) (child k n rest)

  abbrev wildcard : Slot H → Slot H → Found H
  wildcard star (full q) = hit q true
  wildcard (full s) empty = hit s false
  wildcard empty empty = miss

  abbrev first_of_slots : Slot H → Found H → Found H
  first_of_slots (full c) other = hit c false
  first_of_slots empty other = other

  unfoldable pub child_of : Node H → Text → Found H
  unfolding get_child
  child_of (node r p cs star param h) seg = first_of_slots (get_child seg cs) (wildcard star param)

  abbrev is_nil : Slot H → Bool
  is_nil empty = true
  is_nil (full n) = false

  abbrev or_new : Text → Slot H → Node H
  or_new seg empty = new_node seg
  or_new seg (full n) = n

  abbrev create : Kind → Node H → Text → Created H
  create param_kind (node r p cs (full s) q h) seg = refused star_registered
  create param_kind (node r p cs empty q h) seg =
      created at_param (node r p cs empty (full (new_node seg)) h) (new_node seg)
  create star_kind (node r p cs s (full q) h) seg = refused param_registered
  create star_kind (node r p cs s empty h) seg =
      created at_star (node r p cs (full (new_node seg)) empty h) (new_node seg)
  create static_kind (node r p cs s q h) seg =
      let res = or_new seg (get_child seg cs) in
      created (at_key seg) (node r p (put_child seg res cs) s q h) res

  unfoldable pub child_or_create : Node H → Text → Created H
  child_or_create n seg = create (kind seg) n seg

  -- The node after a change of the child at a place.
  abbrev pub with_child : Place → Node H → Node H → Node H
  with_child at_param (node r p cs s q h) c = node r p cs s (full c) h
  with_child at_star (node r p cs s q h) c = node r p cs (full c) q h
  with_child (at_key k) (node r p cs s q h) c = node r p (put_child k c cs) s q h

  -- The handler and the route are set on a node without a handler.
  abbrev pub register : Panic → Text → Option H → Node H → Outcome (Node H)
  register twice full_path h (node r p cs s q none) = done (node full_path p cs s q h)
  register twice full_path h (node r p cs s q (some old)) = panic twice (node r p cs s q (some old))

  -- The loop of `addRoute` over the segments, and what follows it.
  unfoldable pub insert : List Text → Text → Option H → Node H → Outcome (Node H)
  insert [] full_path h n = register node_twice full_path h n
  insert (seg ∷ segs) full_path h n =
      ite (text_discrete seg []) (panic empty_segment n) (elim (child_or_create n seg) [
        | refused m ↦ panic m n
        | created place n' c ↦ map_outcome (with_child place n') (insert segs full_path h c)
      ])

  abbrev root_of : Slot H → Node H
  root_of empty = new_node (codes "/")
  root_of (full n) = n

  abbrev slot : Option (Node H) → Slot H
  slot none = empty
  slot (some n) = full n

  -- `addRoute` from the root of the method's tree on, for a path that is not empty.
  unfoldable pub add_at_root : Text → Option H → Node H → Outcome (Node H)
  add_at_root full_path h root =
      if not (begins_with b'/' full_path)
      then panic no_leading_slash root
      else ite (text_discrete full_path (codes "/")) (register root_twice full_path h root) (
          if last_is b'/' full_path
          then panic trailing_slash root
          else insert (split b'/' (drop 1 full_path)) full_path h root)

  unfoldable pub add_route : Trees H → Text → Text → Option H → Outcome (Trees H)
  unfolding add_at_root
  add_route trees method full_path h = ite (text_discrete full_path []) (panic empty_path trees) (
      map_outcome (λ root. Dict.put text_discrete method root trees)
        (add_at_root full_path h (root_of (slot (Dict.get text_discrete method trees)))))

  -- The loop of `findRoute`.
  unfoldable pub walk : Node H → List (Text × Text) → List Text → Option (MatchInfo H)
  walk root params [] = some (record { n = root; path_params = params })
  walk root params (seg ∷ segs) = elim (child_of root seg) [
    | miss ↦ none
    | hit c is_param ↦
        walk c (if is_param then Dict.put text_discrete (drop 1 (path c)) seg params else params)
          segs
  ]

  -- `findRoute` in the tree of the method, if there is one.
  abbrev pub find_from : Option (Node H) → Text → Option (MatchInfo H)
  find_from none full_path = none
  find_from (some root) full_path =
      ite (text_discrete full_path (codes "/")) (some (record { n = root; path_params = [] }))
        (walk root [] (split b'/' (trim b'/' full_path)))

  unfoldable pub find_route : Trees H → Text → Text → Option (MatchInfo H)
  find_route trees method full_path = find_from (Dict.get text_discrete method trees) full_path
