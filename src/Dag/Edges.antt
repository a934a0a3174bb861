-- ===== src/Dag/Edges.antt =====
-- What the dicts `indeg` and `out` hold once they are built.
use fast_flow_transform.Prelude.{
  ◌+◌, ◌≡◌, refl, ap, inl, inr, true, false, ◌&&◌, ◌||◌, none, some, List, [], ◌∷◌, foldl, arith,
  if◌then◌else◌, Bool-cases, length,
}
use fast_flow_transform.Prelude.Names.{
  Name, same, same_iff, same_lem, member, add, set_of, IsNodup, update-same, update-other,
  member-add, add-IsNodup, member-set_of, update,
}
use fast_flow_transform.Registry.{Node, Nodes, names, find}
use fast_flow_transform.Dag.{build_graph, empty_graph, Graph, add_edge, add_edges}

-- The dependencies of a name; a name that is no node has none.
unfoldable pub deps_of : Nodes → Name → List Name
unfolding find
deps_of ns k = elim (find k ns) [ none ↦ [] | some n ↦ n.deps ]

deps_of-absent : (ns : Nodes) (k : Name) → member k (names ns) ≡ false → deps_of ns k ≡ []
unfolding deps_of
deps_of-absent [] k h = refl
deps_of-absent (n ∷ ns) k h =
    ground (arith, deps_of-absent ns k, same_iff k n.name, same_iff n.name k)

pub deps_of-nonempty :
    (ns : Nodes) (k d : Name) → member d (deps_of ns k) ≡ true → member k (names ns) ≡ true
deps_of-nonempty ns k d h = elim (Bool-cases (member k (names ns))) [
  | inl e ↦ e
  | inr e ↦ ground (arith, deps_of-absent ns k e, ap (member d) (deps_of-absent ns k e))
]

-- The effect of the edges of one node.
module _ (m : Name) where
  edges_indeg :
      (ds : List Name) (g : Graph) (k : Name)
      → (foldl (add_edge m) g ds).indeg k ≡ g.indeg k + (if same m k then length ds else 0)
  unfolding update
  edges_indeg [] g k = ground arith
  edges_indeg (d ∷ ds) g k = ground (arith, edges_indeg ds (add_edge m g d) k, same_iff m k)

  edges_out :
      (ds : List Name) (g : Graph) (k u : Name)
      → member k ((foldl (add_edge m) g ds).out u)
        ≡ (member k (g.out u) || (same m k && member u ds))
  unfolding update
  edges_out [] g k u = ground arith
  edges_out (d ∷ ds) g k u = ground (
    arith,
    edges_out ds (add_edge m g d) k u,
    member-add k m (g.out d),
    same_iff d u,
    same_iff u d,
    same_iff m k,
    same_iff k m,
  )

  edges_out-IsNodup :
      (ds : List Name) (g : Graph)
      → ((u : Name) → IsNodup (g.out u))
      → (u : Name) → IsNodup ((foldl (add_edge m) g ds).out u)
  edges_out-IsNodup [] g h u = h u
  edges_out-IsNodup (d ∷ ds) g h u = edges_out-IsNodup ds (add_edge m g d) (λ v. step v) u
    where
      step : (v : Name) → IsNodup ((add_edge m g d).out v)
      step v = elim (Bool-cases (same d v)) [
        | inl e ↦ rw (update-same g.out d (add m (g.out d)) v e) (add-IsNodup m (g.out d) (h d))
        | inr e ↦ rw (update-other g.out d (add m (g.out d)) v e) (h v)
      ]

pub deps_of-here :
    (n : Node) (ns : Nodes) (k : Name) → same n.name k ≡ true → deps_of (n ∷ ns) k ≡ n.deps
unfolding deps_of
deps_of-here n ns k e = ground arith

pub deps_of-there :
    (n : Node) (ns : Nodes) (k : Name) → same n.name k ≡ false → deps_of (n ∷ ns) k ≡ deps_of ns k
unfolding deps_of
deps_of-there n ns k e = ground arith

absent-here :
    (n : Node) (ns : Nodes) (k : Name)
    → member n.name (names ns) ≡ false
    → same n.name k ≡ true
    → deps_of ns k ≡ []
absent-here n ns k h e = deps_of-absent ns k (rw (same_lem n.name k e) at h)

nodes_indeg :
    (ns : Nodes) (g : Graph) (k : Name)
    → IsNodup (names ns)
    → (foldl add_edges g ns).indeg k ≡ g.indeg k + length (set_of (deps_of ns k))
unfolding add_edges set_of
nodes_indeg [] g k h = unfold deps_of in omega arith
nodes_indeg (n ∷ ns) g k h =
    let rest = nodes_indeg ns (add_edges g n) k h.1 in
    let this = edges_indeg n.name (set_of n.deps) g k in
    elim (Bool-cases (same n.name k)) [
      | inl e ↦
          rw (deps_of-here n ns k e)
            (ground (arith, rest, this, ap (λ l. length (set_of l)) (absent-here n ns k h.0 e)))
      | inr e ↦ rw (deps_of-there n ns k e) (ground (arith, rest, this))
    ]

nodes_out :
    (ns : Nodes) (g : Graph) (k u : Name)
    → IsNodup (names ns)
    → member k ((foldl add_edges g ns).out u) ≡ (member k (g.out u) || member u (deps_of ns k))
unfolding add_edges
nodes_out [] g k u h = unfold deps_of in ground arith
nodes_out (n ∷ ns) g k u h =
    let rest = nodes_out ns (add_edges g n) k u h.1 in
    let this = edges_out n.name (set_of n.deps) g k u in
    elim (Bool-cases (same n.name k)) [
      | inl e ↦ rw (deps_of-here n ns k e) (
          ground (
            arith,
            rest,
            this,
            absent-here n ns k h.0 e,
            ap (member u) (absent-here n ns k h.0 e),
            member-set_of u n.deps,
          ))
      | inr e ↦ rw (deps_of-there n ns k e) (ground (arith, rest, this, member-set_of u n.deps))
    ]

nodes_out-IsNodup :
    (ns : Nodes) (g : Graph)
    → ((u : Name) → IsNodup (g.out u))
    → (u : Name) → IsNodup ((foldl add_edges g ns).out u)
unfolding add_edges
nodes_out-IsNodup [] g h u = h u
nodes_out-IsNodup (n ∷ ns) g h u =
    nodes_out-IsNodup ns (add_edges g n) (edges_out-IsNodup n.name (set_of n.deps) g h) u

module _ (ns : Nodes) (distinct : IsNodup (names ns)) where
  pub build_graph_indeg : (k : Name) → (build_graph ns).indeg k ≡ length (set_of (deps_of ns k))
  unfolding build_graph
  build_graph_indeg k = ground (arith, nodes_indeg ns empty_graph k distinct)

  pub build_graph_out : (k u : Name) → member k ((build_graph ns).out u) ≡ member u (deps_of ns k)
  unfolding build_graph
  build_graph_out k u = nodes_out ns empty_graph k u distinct

pub build_graph_out-IsNodup : (ns : Nodes) (u : Name) → IsNodup ((build_graph ns).out u)
unfolding build_graph
build_graph_out-IsNodup ns u = nodes_out-IsNodup ns empty_graph (λ _. tt) u
