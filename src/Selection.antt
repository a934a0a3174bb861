-- ===== src/Selection.antt =====
-- cli/selectors.py: which nodes a run executes. A set of names is a list without duplicates, and the
-- order in which Python visits it is the order of that list.
mod Upstream
mod Samples
pub mod State
pub mod Tokens
pub mod Subgraph
use fast_flow_transform.Prelude.{
  ℕ, zero, suc, ◌+◌, ◌-◌, ◌*◌, ◌/◌, ◌%◌, ◌^◌, ◌≤◌, ◌<◌, min, max, String, ◌≡◌, refl, sym, ap, ◌∙◌,
  ◌≢◌, ◌↔◌, ◌⊎◌, inl, inr, Bool, true, false, not, ◌&&◌, ◌||◌, Option, none, some, List, [], ◌∷◌,
  ◌++◌, map, foldl, arith, ltb, leb, ◌==◌, if◌then◌else◌, Bool-cases, ltb→lt, lt→ltb, length,
  length-append, is_empty, filter, concat, Option-cases, List-cases, all, any, All,
}
use fast_flow_transform.Prelude.Names.{
  Name, same, same_iff, same_lem, same_refl, member, add, set_of, IsNodup, member-add, add-IsNodup,
  member-set_of, set_of-IsNodup, member-append, member-filter, filter-IsNodup, IsSubset,
  length-subset, update, update-same, update-other,
}
use fast_flow_transform.Walk.{Walk, walk}
use fast_flow_transform.Registry.{Kind, sql, python, Node, Nodes, names, find}

-- The dict `rev` of `_downstream_closure` at a key: each node once for each time that it names `cur`.
pub dependents_of_node : Name → Node → List Name
dependents_of_node cur n = map (λ _. n.name) (filter (λ d. same d cur) n.deps)

unfoldable pub dependents : Nodes → Name → List Name
unfolding dependents_of_node
dependents ns cur = concat (map (dependents_of_node cur) ns)

-- `_downstream_closure`
unfoldable pub downstream_closure : Nodes → List Name → List Name
unfolding dependents walk
downstream_closure ns start =
    (walk (dependents ns) (length (start ++ names ns))
      (record { seen = start; stack = start })).seen

-- `set(nodes[n].deps)` of `deps_map`
unfoldable pub deps_map : Nodes → Name → List Name
unfolding find set_of
deps_map ns k = elim (find k ns) [ none ↦ [] | some n ↦ set_of n.deps ]

-- `rev_map` of `_selected_subgraph_names`: a set of dependents for each node.
unfoldable pub rev_map : Nodes → Name → List Name
rev_map ns cur = map (λ n. n.name) (filter (λ n. member cur n.deps) ns)

-- The names that `--exclude` takes out: the excluded nodes and what depends on them. The code keeps
-- `downstream` and `excluded` apart and tests both; here they are one list.
unfoldable pub removed_names : Nodes → List Name → List Name
unfolding rev_map walk
removed_names ns excluded =
    (walk (rev_map ns) (length (names ns)) (record { seen = excluded; stack = excluded })).seen

-- The last loop of `_selected_subgraph_names`.
pub record Climb : Type 0 where
  pub result : List Name
  pub pending : List Name

module _ (ns : Nodes) (remaining : List Name) where
  unfoldable pub climb_visit : Climb → Name → List Name → Climb
  unfolding deps_map
  climb_visit c cur rest =
      if member cur c.result || not (member cur remaining)
      then record { result = c.result; pending = rest }
      else record {
        result = cur ∷ c.result;
        pending = filter (λ d. member d remaining) (deps_map ns cur) ++ rest;
      }

  unfoldable pub climb : ℕ → Climb → Climb
  unfolding climb_visit
  climb zero c = c
  climb (suc fuel) c = elim c.pending [ [] ↦ c | cur ∷ rest ↦ climb fuel (climb_visit c cur rest) ]

-- Each edge and each seed goes on the stack once at most.
unfoldable pub edge_count : Nodes → ℕ
edge_count [] = 0
edge_count (n ∷ ns) = length n.deps + edge_count ns

unfoldable pub matching : (Node → Bool) → Nodes → List Name
matching test ns = map (λ n. n.name) (filter test ns)

-- The seeds, before the exclusion: the given names that are nodes, or the nodes that match.
unfoldable pub seeds_of : Nodes → Option (List Name) → (Node → Bool) → List Name
unfolding matching
seeds_of ns (some given) select = filter (λ k. member k (names ns)) given
seeds_of ns none select = matching select ns

-- `_selected_subgraph_names`, with the predicates that the tokens stand for: `select` is always true
-- without tokens, and `exclude` always false. The early returns of the code are for empty sets, where
-- the loops below return the empty set too.
unfoldable pub selected_subgraph_names :
    Nodes → (Node → Bool) → (Node → Bool) → Option (List Name) → List Name
unfolding seeds_of matching removed_names climb edge_count
selected_subgraph_names ns select exclude given =
    let removed = removed_names ns (matching exclude ns) in
    let remaining = filter (λ k. not (member k removed)) (names ns) in
    let seeds = filter (λ k. not (member k removed)) (seeds_of ns given select) in
    (climb ns remaining (length seeds + edge_count ns)
      (record { result = []; pending = seeds })).result
