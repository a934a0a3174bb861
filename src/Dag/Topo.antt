-- ===== src/Dag/Topo.antt =====
-- `topo_sort` returns the nodes one after the other, or the nodes of a cycle.
use fast_flow_transform.Prelude.{
  ℕ, zero, suc, ◌+◌, ◌≤◌, ◌≡◌, refl, ap, ◌≢◌, inl, inr, true, false, List, [], ◌∷◌, ◌++◌, arith,
  length, length-append, concat, List-cases,
}
use fast_flow_transform.Prelude.Names.{Name, same_lem, same_refl, member, IsNodup}
use fast_flow_transform.Prelude.Sorting.{sorted}
use fast_flow_transform.Registry.{Nodes, names, MissingMap}
use fast_flow_transform.Dag.{
  DagResult, ordered, missing_deps, cycle, build_graph, with_degree, positive, missing_map,
  TopoState, topo_round, topo_loop, topo_start, topo_end, topo_sort,
}
use fast_flow_transform.Dag.Edges.{deps_of}
use fast_flow_transform.Dag.Relax.{heappush-IsPush}
use fast_flow_transform.Dag.Round.{IsLayered}
use fast_flow_transform.Dag.Invariant.{Inv, round-Inv, start_Inv, length-done-le}
use fast_flow_transform.Dag.Ends.{
  IsComplete, IsBlocked, IsRanking, missing_map-IsComplete, IsComplete-missing_map, length-names,
  not-IsBlocked, done-names, left-IsBlocked,
}

-- An order as levels of one name each.
abbrev singles : List Name → List (List Name)
singles [] = []
singles (x ∷ xs) = (x ∷ []) ∷ singles xs

concat-singles : (xs : List Name) → concat (singles xs) ≡ xs
concat-singles [] = refl
concat-singles (x ∷ xs) = ap (λ l. x ∷ l) (concat-singles xs)

singles-snoc : (xs : List Name) (u : Name) → singles (xs ++ u ∷ []) ≡ singles xs ++ (u ∷ []) ∷ []
singles-snoc [] u = refl
singles-snoc (x ∷ xs) u = ap (λ l. (x ∷ []) ∷ l) (singles-snoc xs u)

abbrev TopoInv : Nodes → TopoState → Type 0
TopoInv ns s = Inv ns (singles s.order) s.indeg s.heap

-- Every dependency of a name stands before it.
abbrev pub IsTopological : Nodes → List Name → List Name → Type 0
IsTopological ns before [] = Unit
IsTopological ns before (k ∷ ks) =
    ((d : Name) → member d (deps_of ns k) ≡ true → member d before ≡ true)
    × IsTopological ns (before ++ k ∷ []) ks

singles-IsTopological :
    (ns : Nodes) (before ks : List Name)
    → IsLayered ns before (singles ks)
    → IsTopological ns before ks
singles-IsTopological ns before [] h = tt
singles-IsTopological ns before (k ∷ ks) h = (
  λ d m. h.0 k d (ground (arith, same_refl k)) m,
  singles-IsTopological ns (before ++ k ∷ []) ks h.1,
)

module _ (ns : Nodes) (distinct : IsNodup (names ns)) where
  round-TopoInv :
      (s : TopoState) (u : Name) (rest : List Name)
      → s.heap ≡ u ∷ rest
      → TopoInv ns s
      → TopoInv ns (topo_round (build_graph ns).out s u rest)
  unfolding topo_round
  round-TopoInv s u rest e i =
      let heap_distinct : IsNodup (u ∷ rest) = rw e at (i.ready_distinct) in
      rw (singles-snoc s.order u) (
        round-Inv ns distinct heappush-IsPush (singles s.order) s.indeg s.heap (u ∷ []) rest i
          (λ k. ground (arith, ap (member k) e)) (λ k m. apart k m heap_distinct.0) (refl, tt)
          heap_distinct.1)
    where
      apart : (k : Name) → member k (u ∷ []) ≡ true → member u rest ≡ false → member k rest ≡ false
      apart k m f = let p : k ≡ u = same_lem k u (ground arith) in rw p f

  topo_loop-TopoInv :
      (fuel : ℕ) (s : TopoState)
      → length (names ns) ≤ fuel + length s.order
      → TopoInv ns s
      → TopoInv ns (topo_loop (build_graph ns).out fuel s)
        × ((topo_loop (build_graph ns).out fuel s).heap ≡ [])
  unfolding topo_loop
  topo_loop-TopoInv zero s h i = (i, emptied)
    where
      emptied : s.heap ≡ []
      emptied = elim (List-cases s.heap) [
        | inl e ↦ e
        | inr (u, us, e) ↦ absurd (
            omega (
              arith,
              length-done-le ns (singles s.order) s.indeg s.heap i,
              ap length e,
              ap length (concat-singles s.order),
            ))
      ]
  topo_loop-TopoInv (suc fuel) s h i = elim (List-cases s.heap) [
    | inl e ↦ rw (e, topo_loop) (i, e)
    | inr (u, us, e) ↦
        rw (e, topo_loop)
          (topo_loop-TopoInv fuel (topo_round (build_graph ns).out s u us) (len u us)
            (round-TopoInv s u us e i))
  ]
    where
      len :
          (u : Name) (us : List Name)
          → length (names ns) ≤ fuel + length (topo_round (build_graph ns).out s u us).order
      len u us = unfold topo_round in omega (arith, length-append s.order (u ∷ []))

  topo_end-TopoInv : TopoInv ns (topo_end ns) × ((topo_end ns).heap ≡ [])
  unfolding topo_end topo_start
  topo_end-TopoInv =
      topo_loop-TopoInv (length ns) (topo_start ns) (omega (arith, length-names ns))
        (start_Inv ns distinct)

  end_Inv : Inv ns (singles (topo_end ns).order) (topo_end ns).indeg []
  end_Inv = rw topo_end-TopoInv.1 at (topo_end-TopoInv.0)

  -- The loop of `topo_sort` ends by its test, with an empty heap, after as many rounds as there are
  -- nodes at most.
  pub topo_end_done : (topo_end ns).heap ≡ []
  topo_end_done = topo_end-TopoInv.1

-- What `topo_sort` returns holds each node once, behind all of its dependencies.
pub record IsTopoOrder (ns : Nodes) (order : List Name) : Type 0 where
  pub topological : IsTopological ns [] order
  pub all_nodes : (k : Name) → member k order ≡ member k (names ns)
  pub once : IsNodup order

module _ (ns : Nodes) (distinct : IsNodup (names ns)) where
  -- When `topo_sort` returns an order, it holds each node exactly once, behind all of its
  -- dependencies.
  -- The names of the nodes are distinct.
  pub topo_sort-IsTopoOrder :
      (order : List Name) → topo_sort ns ≡ ordered order → IsTopoOrder ns order
  unfolding topo_sort
  topo_sort-IsTopoOrder order h =
      let same_order : (topo_end ns).order ≡ order = ground arith in
      let full : length (topo_end ns).order ≡ length ns = ground arith in
      let flat = concat-singles (topo_end ns).order in
      rw (← same_order) (record {
        topological = singles-IsTopological ns [] (topo_end ns).order (end_Inv ns distinct).layered;
        all_nodes = λ k. ground (
          arith,
          ap (member k) flat,
          done-names ns (singles (topo_end ns).order) (topo_end ns).indeg (end_Inv ns distinct)
              (omega (arith, ap length flat, length-names ns)) k,
        );
        once = rw flat at ((end_Inv ns distinct).done_distinct);
      })

  -- When `topo_sort` raises the cycle error, the names in it are nodes, there is one at least, and
  -- each depends on another of them.
  -- The names of the nodes are distinct.
  topo_sort-IsBlocked : (bad : List Name) → topo_sort ns ≡ cycle bad → IsBlocked ns bad
  unfolding topo_sort
  topo_sort-IsBlocked bad h =
      let known : missing_map (names ns) ns ≡ [] = ground arith in
      let same_bad : sorted (with_degree positive (topo_end ns).indeg ns) ≡ bad = ground arith in
      let fewer : length (topo_end ns).order ≢ length ns = ground arith in
      rw (← same_bad) (
        left-IsBlocked ns (singles (topo_end ns).order) (topo_end ns).indeg (end_Inv ns distinct)
          (missing_map-IsComplete ns known) distinct
          (omega (arith, ap length (concat-singles (topo_end ns).order), length-names ns)))

  topo_sort_missing : (m : MissingMap) → topo_sort ns ≡ missing_deps m → ¬ IsComplete ns
  unfolding topo_sort
  topo_sort_missing m h complete =
      let found : missing_map (names ns) ns ≢ [] = ground arith in
      found (IsComplete-missing_map ns distinct complete)

  -- `topo_sort` returns an order for every graph without a cycle whose dependencies are all nodes.
  -- The names of the nodes are distinct.
  topo_sort_acyclic :
      (rank : Name → ℕ)
      → IsComplete ns
      → IsRanking ns rank
      → (order : List Name) × (topo_sort ns ≡ ordered order)
  topo_sort_acyclic rank complete ranking = by_result (topo_sort ns) refl
    where
      by_result :
          (r : DagResult (List Name))
          → topo_sort ns ≡ r
          → (order : List Name) × (topo_sort ns ≡ ordered order)
      by_result (ordered order) e = (order, e)
      by_result (cycle bad) e =
          absurd (not-IsBlocked ns rank bad ranking (topo_sort-IsBlocked bad e))
      by_result (missing_deps m) e = absurd (topo_sort_missing m e complete)
