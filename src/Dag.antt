-- ===== src/Dag.antt =====
-- dag.py: `topo_sort` and `levels`. A `dict[str, int]` that is read at its keys only is a function, and
-- so is the `defaultdict` of dependents. `indeg[v] -= 1; if indeg[v] == 0` is written with the test
-- before the subtraction: a degree of 1 is the one that becomes 0.
pub mod Samples
pub mod Edges
mod Degrees
mod Relax
pub mod Round
pub mod Invariant
pub mod Ends
pub mod Levels
pub mod Topo
use fast_flow_transform.Prelude.{
  ℕ, zero, suc, ◌+◌, ◌-◌, ◌*◌, ◌/◌, ◌%◌, ◌^◌, ◌≤◌, ◌<◌, min, max, String, ◌≡◌, refl, sym, ap, ◌∙◌,
  ◌≢◌, ◌↔◌, ◌⊎◌, inl, inr, Bool, true, false, not, ◌&&◌, ◌||◌, Option, none, some, List, [], ◌∷◌,
  ◌++◌, map, foldl, arith, ltb, leb, ◌==◌, if◌then◌else◌, Bool-cases, ltb→lt, lt→ltb, length,
  length-append, is_empty, filter, concat, Option-cases, all, any, All,
}
use fast_flow_transform.Prelude.Names.{
  Name, same, same_iff, same_lem, same_refl, member, add, set_of, IsNodup, member-add, add-IsNodup,
  member-set_of, set_of-IsNodup, member-append, member-filter, filter-IsNodup, IsSubset, update,
}
use fast_flow_transform.Prelude.Sorting.{insert, name_leb, sorted}
use fast_flow_transform.Registry.{Kind, Node, Nodes, names, MissingMap}

-- What the functions return, or raise: `DependencyNotFoundError`, `ModelCycleError`.
pub data DagResult {ℓ} (A : Type ℓ) : Type ℓ where
  ordered : A → DagResult A
  missing_deps : MissingMap → DagResult A
  cycle : List Name → DagResult A

missing_deps_of : List Name → Node → List Name
missing_deps_of known n = sorted (set_of (filter (λ d. not (member d known)) n.deps))

-- The dict comprehension `missing`.
unfoldable pub missing_map : List Name → Nodes → MissingMap
unfolding missing_deps_of
missing_map known [] = []
missing_map known (n ∷ ns) =
    let rest = missing_map known ns in
    if any (λ d. not (member d known)) n.deps
    then (n.name, missing_deps_of known n) ∷ rest
    else rest

-- The dicts `indeg` and `out`.
pub record Graph : Type 0 where
  pub indeg : Name → ℕ
  pub out : Name → List Name

abbrev pub add_edge : Name → Graph → Name → Graph
add_edge name g d = record {
  indeg = update g.indeg name (g.indeg name + 1);
  out = update g.out d (add name (g.out d));
}

pub add_edges : Graph → Node → Graph
add_edges g n = foldl (add_edge n.name) g (set_of n.deps)

pub empty_graph : Graph
empty_graph = record { indeg = λ _. 0; out = λ _. [] }

unfoldable pub build_graph : Nodes → Graph
unfolding add_edges empty_graph update add set_of
build_graph ns = foldl add_edges empty_graph ns

-- The degrees during the search, and the names whose degree has become 0: the set `next_zero` or
-- the heap.
pub record Search : Type 0 where
  pub indeg : Name → ℕ
  pub zero_names : List Name

-- The body of the loop over the dependents of a finished node.
abbrev pub relax : (Name → List Name → List Name) → Search → Name → Search
relax push s v = record {
  indeg = update s.indeg v (s.indeg v - 1);
  zero_names = if s.indeg v == 1 then push v s.zero_names else s.zero_names;
}

module _ (push : Name → List Name → List Name) (out : Name → List Name) where
  pub visit : Search → Name → Search
  visit s u = foldl (relax push) s (sorted (out u))

  pub visit_all : Search → List Name → Search
  unfolding visit
  visit_all s us = foldl visit s us

-- `[k for k in indeg if positive]`, in the order of the dict's keys
abbrev pub with_degree : (ℕ → Bool) → (Name → ℕ) → Nodes → List Name
with_degree test indeg ns = filter (λ k. test (indeg k)) (names ns)

abbrev pub positive : ℕ → Bool
positive n = ltb 0 n

pub record LevelState : Type 0 where
  pub lvls : List (List Name)
  pub indeg : Name → ℕ
  pub current : List Name
  pub seen_count : ℕ

-- One round of the loop of `levels`.
unfoldable pub level_round : (Name → List Name) → LevelState → LevelState
unfolding visit_all sorted add update
level_round out s =
    let after = visit_all add out (record { indeg = s.indeg; zero_names = [] }) s.current in
    record {
      lvls = s.lvls ++ s.current ∷ [];
      indeg = after.indeg;
      current = sorted after.zero_names;
      seen_count = s.seen_count + length s.current;
    }

-- `while current`. The fuel is a bound on the rounds: each takes a node that none took before.
unfoldable pub level_loop : (Name → List Name) → ℕ → LevelState → LevelState
unfolding level_round
level_loop out zero s = s
level_loop out (suc fuel) s = elim s.current [
  | [] ↦ s
  | u ∷ us ↦ level_loop out fuel (level_round out s)
]

unfoldable pub level_start : Nodes → LevelState
unfolding build_graph sorted
level_start ns =
    let g = build_graph ns in
    record {
      lvls = [];
      indeg = g.indeg;
      current = sorted (with_degree (λ deg. deg == 0) g.indeg ns);
      seen_count = 0;
    }

unfoldable pub level_end : Nodes → LevelState
unfolding level_start level_loop build_graph
level_end ns = level_loop (build_graph ns).out (length ns) (level_start ns)

unfoldable pub levels : Nodes → DagResult (List (List Name))
unfolding missing_map level_end sorted
levels ns = elim (missing_map (names ns) ns) [
  | m ∷ ms ↦ missing_deps (m ∷ ms)
  | [] ↦
      let s = level_end ns in
      if s.seen_count == length ns
      then ordered s.lvls
      else cycle (sorted (with_degree positive s.indeg ns))
]

-- The heap of `topo_sort` is the list of its names in the order in which `heappop` returns them.
pub record TopoState : Type 0 where
  pub order : List Name
  pub indeg : Name → ℕ
  pub heap : List Name

abbrev pub heappush : Name → List Name → List Name
heappush = insert name_leb

-- One round of the loop of `topo_sort`, after `u` was popped and `rest` left in the heap.
unfoldable pub topo_round : (Name → List Name) → TopoState → Name → List Name → TopoState
unfolding visit_all sorted insert name_leb update
topo_round out s u rest =
    let after = visit_all heappush out (record { indeg = s.indeg; zero_names = rest }) (u ∷ []) in
    record { order = s.order ++ u ∷ []; indeg = after.indeg; heap = after.zero_names }

-- `while heap`
unfoldable pub topo_loop : (Name → List Name) → ℕ → TopoState → TopoState
unfolding topo_round
topo_loop out zero s = s
topo_loop out (suc fuel) s = elim s.heap [
  | [] ↦ s
  | u ∷ rest ↦ topo_loop out fuel (topo_round out s u rest)
]

unfoldable pub topo_start : Nodes → TopoState
unfolding build_graph sorted
topo_start ns =
    let g = build_graph ns in
    record { order = []; indeg = g.indeg; heap = sorted (with_degree (λ deg. deg == 0) g.indeg ns) }

unfoldable pub topo_end : Nodes → TopoState
unfolding topo_start topo_loop build_graph
topo_end ns = topo_loop (build_graph ns).out (length ns) (topo_start ns)

unfoldable pub topo_sort : Nodes → DagResult (List Name)
unfolding missing_map topo_end sorted
topo_sort ns = elim (missing_map (names ns) ns) [
  | m ∷ ms ↦ missing_deps (m ∷ ms)
  | [] ↦
      let s = topo_end ns in
      if length s.order == length ns
      then ordered s.order
      else cycle (sorted (with_degree positive s.indeg ns))
]
