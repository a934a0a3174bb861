-- ===== src/Registry/Samples.antt =====
-- Registrations and lookups in a small project.
use fast_flow_transform.Prelude.{◌≡◌, refl, ◌⊎◌, Option, none, some, [], ◌∷◌, if◌then◌else◌}
use fast_flow_transform.Prelude.Names.{Name, same, IsNodup}
use fast_flow_transform.Registry.{
  sql, Node, Nodes, no_tags, names, find, added, duplicate, add_node_or_fail, get_node,
}
use fast_flow_transform.Registry.Lookup.{IsConflict, add_node_or_fail_outcome}

abbrev node : Name → Name → Option Name → Node
node name path package_name = record {
  name = name;
  kind = sql;
  path = path;
  deps = [];
  meta = record { materialized = none; tags = no_tags };
  package_name = package_name;
}

abbrev users : Nodes
users = node "users.ff" "models/users.ff.sql" none ∷ []

abbrev packaged : Node
packaged = node "users.ff" "shared/users.ff.sql" (some "shared")

add_node_or_fail-packaged : add_node_or_fail packaged users ≡ added (packaged ∷ [])
unfolding add_node_or_fail
add_node_or_fail-packaged = refl

abbrev again : Node
again = node "users.ff" "models/again.ff.sql" none

get_node-users : get_node "users" users ≡ some (node "users.ff" "models/users.ff.sql" none)
unfolding get_node
get_node-users = refl

-- A node of a package may take the name of one of the main project.
add_node_or_fail_outcome_example :
    ((old_path : Name) × (new_path : Name) × IsConflict packaged users old_path new_path
      × (add_node_or_fail packaged users ≡ duplicate old_path new_path))
    ⊎ (((old_path new_path : Name) → ¬ IsConflict packaged users old_path new_path)
        × ((after : Nodes) × (add_node_or_fail packaged users ≡ added after)
            × IsNodup (names after)
            × ((k : Name)
                → find k after ≡ (if same packaged.name k then some packaged else find k users))))
add_node_or_fail_outcome_example = add_node_or_fail_outcome packaged users (refl, tt)
