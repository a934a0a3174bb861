-- ===== src/Registry.antt =====
-- core.py: the nodes of the registry. The dict `Registry.nodes` is the list of its values in insertion
-- order; each stands under its own name, since `_add_node_or_fail` is the only writer.
pub mod Lookup
mod Samples
use fast_flow_transform.Prelude.{
  ◌≡◌, Bool, true, false, not, Option, none, some, List, [], ◌∷◌, ◌++◌, map, if◌then◌else◌, filter,
  is_empty, String,
}
use fast_flow_transform.Prelude.Names.{Name, same, member}
use mathlib.Core.Option
use Prim.Native.String as Str

pub data Kind : Type 0 where
  sql python : Kind

-- `meta["tags"]` may be absent, a text or a list of texts.
pub data Tags : Type 0 where
  no_tags : Tags
  one_tag : Name → Tags
  tag_list : List Name → Tags

-- The entries of `Node.meta` that the modelled code reads.
pub record Meta : Type 0 where
  pub materialized : Option Name
  pub tags : Tags

pub record Node : Type 0 where
  pub name : Name
  pub kind : Kind
  pub path : Name
  pub deps : List Name
  pub meta : Meta
  pub package_name : Option Name

abbrev pub Nodes : Type 0
Nodes = List Node

abbrev pub names : Nodes → List Name
names ns = map (λ n. n.name) ns

-- `self.nodes.get(name)`
unfoldable pub find : Name → Nodes → Option Node
find k [] = none
find k (n ∷ ns) = if same n.name k then some n else find k ns

-- `self.nodes[name] = node`: a dict keeps the place of a key that it has.
unfoldable pub put : Node → Nodes → Nodes
put m [] = m ∷ []
put m (n ∷ ns) = if same n.name m.name then m ∷ ns else n ∷ put m ns

pub data AddResult : Type 0 where
  added : Nodes → AddResult
  duplicate : (registered new_path : Name) → AddResult

abbrev both_local : Option Name → Option Name → Bool
both_local none none = true
both_local _ _ = false

-- `_add_node_or_fail`
unfoldable pub add_node_or_fail : Node → Nodes → AddResult
unfolding find put
add_node_or_fail new ns = elim (find new.name ns) [
  | none ↦ added (put new ns)
  | some old ↦
      if both_local old.package_name new.package_name
      then duplicate old.path new.path
      else added (put new ns)
]

-- The prefix of a text that ends with the suffix.
unfoldable pub strip_suffix : Name → Name → Option Name
strip_suffix suffix String.[] = if same String.[] suffix then some String.[] else none
strip_suffix suffix (String.◌∷◌ c s) =
    let rest = Option.map (λ t. String.◌∷◌ c t) (strip_suffix suffix s) in
    if same (String.◌∷◌ c s) suffix then some String.[] else rest

-- `relation_for`
unfoldable pub relation_for : Name → Name
unfolding strip_suffix
relation_for name = Option.get_or (strip_suffix ".ff" name) name

-- `get_node`: the exact name, then the name with ".ff"; `none` is the `KeyError`.
unfoldable pub get_node : Name → Nodes → Option Node
unfolding find
get_node name ns = elim (find name ns) [ some n ↦ some n | none ↦ find (Str.◌++◌ name ".ff") ns ]

-- `_validate_dependencies`: the nodes with a dependency that is no node, with those dependencies.
abbrev pub MissingMap : Type 0
MissingMap = List (Name × List Name)

missing_of : List Name → Node → List Name
missing_of known n = filter (λ d. not (member d known)) n.deps

unfoldable pub collect_missing : List Name → Nodes → MissingMap
unfolding missing_of
collect_missing known [] = []
collect_missing known (n ∷ ns) =
    let rest = collect_missing known ns in
    if is_empty (missing_of known n) then rest else (n.name, missing_of known n) ∷ rest

-- `some` is the map of the `DependencyNotFoundError`.
unfoldable pub validate_dependencies : Nodes → Option MissingMap
unfolding collect_missing
validate_dependencies ns = elim (collect_missing (names ns) ns) [
  | [] ↦ none
  | m ∷ ms ↦ some (m ∷ ms)
]
