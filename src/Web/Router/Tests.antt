-- ===== src/Web/Router/Tests.antt =====
-- The routing table at concrete routes.
use gotest.Common.{ℕ, ◌≡◌, ◌≢◌, refl, Option, none, some, List, [], ◌∷◌}
use gotest.Common.Text.{Text, codes, join}
use gotest.Common.Text
use gotest.Common.Dict
use native.Mathlib.Decide.{ℕ_discrete}
use gotest.Web.Router.{
  Node, Trees, Outcome, done, panic, add_route, find_route, insert, walk, node, handler, route,
  new_node, get_child,
}
use gotest.Web.Router
use gotest.Web.Router.Insert.{bind, children, Reaches}
use gotest.Web.Router.Invariant.{AllWf, add_route-AllWf, state}
use gotest.Web.Router.Routes.{segments, request_segments, tree, find_route-add_route}
use gotest.Web.Router.Static.{Descends, SameRoute, walk-insert_static}
use gotest.Web.Router.Wildcards.{Twice, all_static, insert-Twice}

-- The definitions that the evaluations below unfold.
runs : Unit {0}
unfolding Router.add_route Router.find_route Router.insert Router.walk Router.child_of
    Router.child_or_create Router.kind Router.put_child Router.get_child Dict.get Dict.put
    Text.split Text.trim Text.text_discrete ℕ_discrete
runs = tt

abbrev get : Text
get = codes "GET"

abbrev user_id : Text
user_id = codes "/user/:id"

abbrev user_home : Text
user_home = codes "/user/home"

abbrev user_42 : Text
user_42 = codes "/user/42/"

abbrev trees_of : Outcome (Trees ℕ) → Trees ℕ
trees_of (done r) = r
trees_of (panic m r) = r

abbrev table : Trees ℕ
table = trees_of (add_route [] get user_id (some 1))

abbrev table2 : Trees ℕ
table2 = trees_of (add_route table get user_home (some 2))

abbrev handler_at : Trees ℕ → Text → Option (Option ℕ × List (Text × Text))
handler_at r p = elim (find_route r get p) [
  | none ↦ none
  | some i ↦ some (handler i.n, i.path_params)
]

handler_at_parameter : handler_at table2 user_42 ≡ some (some 1, (codes "id", codes "42") ∷ [])
unfolding runs
handler_at_parameter = refl

handler_at_static : handler_at table2 user_home ≡ some (some 2, [])
unfolding runs
handler_at_static = refl

-- A `*` between segments takes one segment.
handler_at_star :
    handler_at (trees_of (add_route [] get (codes "/a/*/c") (some 3))) (codes "/a/b/c")
    ≡ some (some 3, [])
unfolding runs
handler_at_star = refl

table_added : add_route [] get user_id (some 1) ≡ done table
unfolding runs
table_added = refl

table2_added : add_route table get user_home (some 2) ≡ done table2
unfolding runs
table2_added = refl

not_root : user_id ≢ codes "/"
not_root = λ e. cc

request_not_root : user_42 ≢ codes "/"
request_not_root = λ e. cc

Reaches-42 : Reaches (segments user_id) (request_segments user_42) (tree {H = ℕ} [] get)
unfolding runs
Reaches-42 = (refl, (refl, tt))

find_route-add_route_example :
    (leaf : Node ℕ) × (find_route table get user_42
      ≡ some (record {
        n = leaf;
        path_params = bind (segments user_id) (request_segments user_42) [];
      }))
    × (handler leaf ≡ some 1)
    × (route leaf ≡ user_id)
find_route-add_route_example =
    find_route-add_route [] table get user_id user_42 (some 1) table_added not_root request_not_root
      Reaches-42

table-AllWf : AllWf table
unfolding runs
table-AllWf = add_route-AllWf [] get user_id (some 1) tt

add_route-AllWf_example : AllWf (state (add_route table get user_home (some 2)))
add_route-AllWf_example = add_route-AllWf table get user_home (some 2) table-AllWf

post_ne_get : codes "POST" ≢ get
post_ne_get = λ e. cc

abbrev node_of : Outcome (Node ℕ) → Node ℕ
node_of (done n) = n
node_of (panic m n) = n

abbrev start : Node ℕ
start = new_node (codes "/")

-- The tree with `/a/b`, and then with `/a/b/c`.
abbrev a_b : List Text
a_b = codes "a" ∷ codes "b" ∷ []

abbrev a_b_c : List Text
a_b_c = codes "a" ∷ codes "b" ∷ codes "c" ∷ []

abbrev tree_b : Node ℕ
tree_b = node_of (insert a_b (codes "/a/b") (some 1) start)

tree_b_inserted : insert a_b (codes "/a/b") (some 1) start ≡ done tree_b
unfolding runs
tree_b_inserted = refl

Reaches-b : Reaches a_b a_b start
unfolding runs
Reaches-b = (refl, (refl, tt))

abbrev leaf_b : Node ℕ
leaf_b = node (codes "/a/b") (codes "b") Router.nil Router.empty Router.empty (some 1)

Descends-b : Descends a_b tree_b leaf_b
unfolding runs
Descends-b = (_, refl, (_, refl, refl))

a_b_ne_a_b_c : a_b ≢ a_b_c
a_b_ne_a_b_c = λ e. cc

walk-insert_static_example :
    (walk tree_b [] a_b ≡ some (record { n = leaf_b; path_params = [] }))
    × ((leaf' : Node ℕ) × (walk (state (insert a_b_c (codes "/a/b/c") (some 2) tree_b)) [] a_b
          ≡ some (record { n = leaf'; path_params = [] }))
        × SameRoute leaf' leaf_b)
walk-insert_static_example =
    walk-insert_static a_b_c a_b (codes "/a/b/c") (some 2) tree_b leaf_b [] a_b_ne_a_b_c Descends-b

insert-Twice_example : Twice (all_static a_b) a_b (codes "/a/b") (some 2) tree_b
insert-Twice_example =
    insert-Twice a_b (codes "/a/b") (codes "/a/b") 1 (some 2) start tree_b tree_b_inserted

-- `/:id` is registered, and then `/:id/posts`.
abbrev tree_id : Node ℕ
tree_id = node_of (insert (codes ":id" ∷ []) (codes "/:id") (some 1) start)

abbrev id_posts : List Text
id_posts = codes ":id" ∷ codes "posts" ∷ []

abbrev tree_posts : Node ℕ
tree_posts = node_of (insert id_posts (codes "/:id/posts") (some 2) tree_id)

tree_posts_inserted : insert id_posts (codes "/:id/posts") (some 2) tree_id ≡ done tree_posts
unfolding runs
tree_posts_inserted = refl

is_param_kind : Router.kind (codes ":id") ≢ Router.static_kind
unfolding runs
is_param_kind = λ e. cc

free_42 : get_child (codes "42") (children tree_id) ≡ Router.empty
unfolding runs
free_42 = refl
