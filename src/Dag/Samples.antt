-- ===== src/Dag/Samples.antt =====
-- Small graphs, and what `levels` and `topo_sort` do on them.
use fast_flow_transform.Prelude.{ℕ, ◌≡◌, refl, none, List, [], ◌∷◌, arith, if◌then◌else◌}
use fast_flow_transform.Prelude.Names.{Name, same, same_iff, IsNodup}
use fast_flow_transform.Registry.{sql, Node, Nodes, no_tags, names}
use fast_flow_transform.Dag.{ordered, missing_deps, cycle, levels, topo_sort}
use fast_flow_transform.Dag.Edges.{deps_of}
use fast_flow_transform.Dag.Ends.{IsComplete, IsBlocked, IsRanking}
use fast_flow_transform.Dag.Levels.{
  IsLevelOrder, levels-IsLevelOrder, levels-IsBlocked, levels_acyclic,
}
use fast_flow_transform.Dag.Topo.{IsTopoOrder, topo_sort-IsTopoOrder}

abbrev pub model : Name → List Name → Node
model name deps = record {
  name = name;
  kind = sql;
  path = name;
  deps = deps;
  meta = record { materialized = none; tags = no_tags };
  package_name = none;
}

abbrev pub shop : Nodes
shop =
    model "mart" ("orders" ∷ "users" ∷ [])
    ∷ model "users" []
    ∷ model "orders" ("users" ∷ "users" ∷ [])
    ∷ model "audit" []
    ∷ []

pub levels-shop :
    levels shop ≡ ordered (("audit" ∷ "users" ∷ []) ∷ ("orders" ∷ []) ∷ ("mart" ∷ []) ∷ [])
unfolding levels
levels-shop = refl

topo_sort-shop : topo_sort shop ≡ ordered ("audit" ∷ "users" ∷ "orders" ∷ "mart" ∷ [])
unfolding topo_sort
topo_sort-shop = refl

abbrev pub looped : Nodes
looped = model "a" ("b" ∷ []) ∷ model "b" ("a" ∷ []) ∷ model "c" [] ∷ []

levels-looped : levels looped ≡ cycle ("a" ∷ "b" ∷ [])
unfolding levels
levels-looped = refl

topo_sort-missing :
    topo_sort (model "a" ("y" ∷ "x" ∷ []) ∷ []) ≡ missing_deps (("a", "x" ∷ "y" ∷ []) ∷ [])
unfolding topo_sort
topo_sort-missing = refl

pub shop-IsNodup : IsNodup (names shop)
shop-IsNodup = ground arith

levels-IsLevelOrder_example :
    IsLevelOrder shop (("audit" ∷ "users" ∷ []) ∷ ("orders" ∷ []) ∷ ("mart" ∷ []) ∷ [])
levels-IsLevelOrder_example =
    levels-IsLevelOrder shop shop-IsNodup
      (("audit" ∷ "users" ∷ []) ∷ ("orders" ∷ []) ∷ ("mart" ∷ []) ∷ []) levels-shop

looped-IsNodup : IsNodup (names looped)
looped-IsNodup = ground arith

levels-IsBlocked_example : IsBlocked looped ("a" ∷ "b" ∷ [])
levels-IsBlocked_example = levels-IsBlocked looped looped-IsNodup ("a" ∷ "b" ∷ []) levels-looped

abbrev pair : Nodes
pair = model "b" ("a" ∷ []) ∷ model "a" [] ∷ []

pair-IsNodup : IsNodup (names pair)
pair-IsNodup = ground arith

abbrev height : Name → ℕ
height k = if same k "b" then 1 else 0

pair-IsComplete : IsComplete pair
unfolding deps_of
pair-IsComplete k d m = ground arith

pair-IsRanking : IsRanking pair height
unfolding deps_of
pair-IsRanking k d m =
    ground (arith, same_iff k "b", same_iff "b" k, same_iff d "b", same_iff d "a", same_iff "a" "b")

levels_acyclic_example : (lvls : List (List Name)) × (levels pair ≡ ordered lvls)
levels_acyclic_example = levels_acyclic pair pair-IsNodup height pair-IsComplete pair-IsRanking

topo_sort-IsTopoOrder_example : IsTopoOrder shop ("audit" ∷ "users" ∷ "orders" ∷ "mart" ∷ [])
topo_sort-IsTopoOrder_example =
    topo_sort-IsTopoOrder shop shop-IsNodup ("audit" ∷ "users" ∷ "orders" ∷ "mart" ∷ [])
      topo_sort-shop

topo_sort-looped : topo_sort looped ≡ cycle ("a" ∷ "b" ∷ [])
unfolding topo_sort
topo_sort-looped = refl
