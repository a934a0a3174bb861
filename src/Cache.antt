-- ===== src/Cache.antt =====
-- cache.py: the store of fingerprints, the fingerprints of a whole project, and the decision to skip a
-- node. The file that keeps the store between runs is not modelled: its entries are an argument.
mod Entries
pub mod Current
pub mod Skip
mod Samples
unfoldable pub use Entries.*
use Entries.{Fingerprints, get, set, update_many}
use fast_flow_transform.Prelude.{
  ℕ, zero, suc, ◌+◌, ◌-◌, ◌*◌, ◌/◌, ◌%◌, ◌^◌, ◌≤◌, ◌<◌, min, max, String, ◌≡◌, refl, sym, ap, ◌∙◌,
  ◌≢◌, ◌↔◌, ◌⊎◌, inl, inr, Bool, true, false, not, ◌&&◌, ◌||◌, Option, none, some, List, [], ◌∷◌,
  ◌++◌, map, foldl, arith, ltb, leb, ◌==◌, if◌then◌else◌, Bool-cases, ltb→lt, lt→ltb, length,
  length-append, is_empty, filter, concat, Option-cases, List-cases, all, any, All,
}
use fast_flow_transform.Prelude.Names.{
  Name, same, same_iff, same_lem, same_refl, member, add, set_of, IsNodup, member-add, add-IsNodup,
  member-set_of, set_of-IsNodup, member-append, member-filter, filter-IsNodup, IsSubset,
  length-subset, update, update-same, update-other,
}
use mathlib.Core.Option
use fast_flow_transform.Registry.{Kind, sql, python, Node, Nodes, names, find, relation_for}
use fast_flow_transform.Dag.{DagResult, ordered, missing_deps, cycle, topo_sort}

-- What the code reads outside of the registry; `none` where the call raises. `function` is
-- `REGISTRY.py_funcs.get`, with the source text that `inspect` finds for it.
pub record Sources : Type 0 where
  pub render : Node → Option Name
  pub read_text : Node → Option Name
  pub function : Node → Option (Option Name)

abbrev file_text : Sources → Node → Name
file_text sources n = Option.get_or (sources.read_text n) ""

abbrev function_text : Sources → Node → Option (Option Name) → Name
function_text sources n none = ""
function_text sources n (some none) = file_text sources n
function_text sources n (some (some text)) = text

-- The loop over the nodes: `sql_render` and `py_src` at a node.
unfoldable pub source_text : Sources → Node → Name
source_text sources n = elim n.kind [
  | sql ↦ elim (sources.render n) [ some text ↦ text | none ↦ file_text sources n ]
  | python ↦ function_text sources n (sources.function n)
]

abbrev kind_word : Kind → Name
kind_word sql = "sql"
kind_word python = "py"

-- The list that is hashed, from the fingerprints of the dependencies.
abbrev pub blob : Sources → Name → Node → List Name → List Name
blob sources env n dep_fps = kind_word n.kind ∷ n.name ∷ source_text sources n ∷ env ∷ dep_fps

-- `[current[d] for d in deps if d in current]`
unfoldable pub found_fps : Fingerprints → List Name → List Name
unfolding get
found_fps current [] = []
found_fps current (d ∷ ds) = elim (get current d) [
  | none ↦ found_fps current ds
  | some fp ↦ fp ∷ found_fps current ds
]

-- `hash` is `_hash`: SHA-256 over the parts.
module _ (sources : Sources) (hash : List Name → Name) (env : Name) (ns : Nodes) where
  -- The body of the loop over the order. Its names are nodes, so `none` is not met.
  unfoldable pub fingerprint_step : Fingerprints → Name → Fingerprints
  unfolding found_fps find set source_text
  fingerprint_step current name = elim (find name ns) [
    | none ↦ current
    | some n ↦ set current name (hash (blob sources env n (found_fps current n.deps)))
  ]

  -- `compute_current`
  unfoldable pub compute_current : DagResult Fingerprints
  unfolding topo_sort fingerprint_step
  compute_current = elim (topo_sort ns) [
    | ordered order ↦ ordered (foldl fingerprint_step [] order)
    | missing_deps m ↦ missing_deps m
    | cycle bad ↦ cycle bad
  ]

pub is_fp : Name → Option Name → Bool
is_fp fp none = false
is_fp fp (some old) = same old fp

-- The set comprehension of `modified_set`, from the saved entries and the current ones.
unfoldable pub modified_set : Fingerprints → Fingerprints → List Name
unfolding get is_fp
modified_set saved current = map (λ e. e.0) (filter (λ e. not (is_fp e.1 (get saved e.0))) current)

-- `can_skip_node`; `exists` is `relation_exists` of the executor.
unfoldable pub can_skip_node : (Name → Bool) → Fingerprints → Name → Name → Name → Bool
unfolding get is_fp relation_for
can_skip_node exists cache node_name new_fp materialized =
    is_fp new_fp (get cache node_name)
    && (same materialized "ephemeral" || exists (relation_for node_name))
