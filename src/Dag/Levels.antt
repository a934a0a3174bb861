-- ===== src/Dag/Levels.antt =====
-- `levels` returns the nodes in rounds, or the nodes of a cycle.
use fast_flow_transform.Prelude.{
  ℕ, zero, suc, ◌+◌, ◌≤◌, ◌≡◌, refl, ap, ◌≢◌, inl, inr, List, [], ◌∷◌, ◌++◌, arith, ◌==◌, length,
  length-append, List-cases, concat, All,
}
use fast_flow_transform.Prelude.Names.{Name, member, add, IsNodup}
use fast_flow_transform.Prelude.Sorting.{sorted, IsSorted, name_leb, sort-IsSorted, name_leb_total}
use fast_flow_transform.Registry.{Nodes, names, MissingMap}
use fast_flow_transform.Dag.{
  DagResult, ordered, missing_deps, cycle, build_graph, with_degree, positive, missing_map,
  LevelState, level_round, visit_all, level_loop, level_start, level_end, levels,
}
use fast_flow_transform.Dag.Relax.{add-IsPush}
use fast_flow_transform.Dag.Round.{IsLayered, concat-snoc}
use fast_flow_transform.Dag.Invariant.{Inv, round-Inv, sorted-Inv, start_Inv, length-done-le}
use fast_flow_transform.Dag.Ends.{
  IsComplete, IsBlocked, IsRanking, missing_map-IsComplete, IsComplete-missing_map, length-names,
  not-IsBlocked, done-names, left-IsBlocked,
}

-- A level is neither empty nor out of order.
abbrev pub IsLevel : List Name → Type 0
IsLevel l = (l ≢ []) × IsSorted name_leb l

record LevelInv (ns : Nodes) (s : LevelState) : Type 0 where
  search : Inv ns s.lvls s.indeg s.current
  counted : s.seen_count ≡ length (concat s.lvls)
  current_sorted : IsSorted name_leb s.current
  all_levels : All IsLevel s.lvls

sorted-IsSorted : (xs : List Name) → IsSorted name_leb (sorted xs)
unfolding sorted
sorted-IsSorted = sort-IsSorted name_leb name_leb_total

All-snoc :
    (ls : List (List Name)) (l : List Name)
    → All IsLevel ls
    → IsLevel l
    → All IsLevel (ls ++ l ∷ [])
All-snoc [] l h p = (p, tt)
All-snoc (x ∷ ls) l h p = (h.0, All-snoc ls l h.1 p)

module _ (ns : Nodes) (distinct : IsNodup (names ns)) where
  round-LevelInv :
      (s : LevelState)
      → s.current ≢ []
      → LevelInv ns s
      → LevelInv ns (level_round (build_graph ns).out s)
  unfolding level_round
  round-LevelInv s more i = record {
    search = sorted-Inv ns _ _ _ (
        round-Inv ns distinct add-IsPush s.lvls s.indeg s.current s.current [] i.search
          (λ k. ground arith) (λ k m. refl) i.search.ready_distinct tt);
    counted = ground (
      arith,
      i.counted,
      ap length (concat-snoc s.lvls s.current),
      length-append (concat s.lvls) s.current,
    );
    current_sorted =
        sorted-IsSorted
          (visit_all add (build_graph ns).out (record { indeg = s.indeg; zero_names = [] })
            s.current).zero_names;
    all_levels = All-snoc s.lvls s.current i.all_levels (more, i.current_sorted);
  }

  level_loop-LevelInv :
      (fuel : ℕ) (s : LevelState)
      → length (names ns) ≤ fuel + length (concat s.lvls)
      → LevelInv ns s
      → LevelInv ns (level_loop (build_graph ns).out fuel s)
        × ((level_loop (build_graph ns).out fuel s).current ≡ [])
  unfolding level_loop
  level_loop-LevelInv zero s h i = (i, emptied)
    where
      emptied : s.current ≡ []
      emptied = elim (List-cases s.current) [
        | inl e ↦ e
        | inr (u, us, e) ↦
            absurd (omega (arith, length-done-le ns s.lvls s.indeg s.current i.search, ap length e))
      ]
  level_loop-LevelInv (suc fuel) s h i = elim (List-cases s.current) [
    | inl e ↦ rw (e, level_loop) (i, e)
    | inr (u, us, e) ↦
        rw (e, level_loop)
          (level_loop-LevelInv fuel (level_round (build_graph ns).out s)
            (omega (
              arith,
              ap length (concat-snoc s.lvls s.current),
              length-append (concat s.lvls) s.current,
              ap length e,
            ))
            (round-LevelInv s (λ none_left. cc) i))
  ]

  level_end-LevelInv : LevelInv ns (level_end ns) × ((level_end ns).current ≡ [])
  unfolding level_end level_start
  level_end-LevelInv =
      level_loop-LevelInv (length ns) (level_start ns) (omega (arith, length-names ns)) (record {
        search = start_Inv ns distinct;
        counted = refl;
        current_sorted = sorted-IsSorted (with_degree (λ deg. deg == 0) (build_graph ns).indeg ns);
        all_levels = tt;
      })

-- The loop of `levels` ends by its test, with no name left to process, after as many rounds as there
-- are nodes at most.
-- The names of the nodes are distinct.
level_end_done : (ns : Nodes) → IsNodup (names ns) → (level_end ns).current ≡ []
level_end_done ns distinct = (level_end-LevelInv ns distinct).1

-- What `levels` returns holds each node once, every dependency of a node in an earlier level, and no
-- level that is empty or out of order.
pub record IsLevelOrder (ns : Nodes) (lvls : List (List Name)) : Type 0 where
  pub layered : IsLayered ns [] lvls
  pub all_nodes : (k : Name) → member k (concat lvls) ≡ member k (names ns)
  pub once : IsNodup (concat lvls)
  pub level_shape : All IsLevel lvls

module _ (ns : Nodes) (distinct : IsNodup (names ns)) where
  end_Inv : Inv ns (level_end ns).lvls (level_end ns).indeg []
  end_Inv = rw (level_end-LevelInv ns distinct).1 at ((level_end-LevelInv ns distinct).0.search)

  end_counted : (level_end ns).seen_count ≡ length (concat (level_end ns).lvls)
  end_counted = (level_end-LevelInv ns distinct).0.counted

  -- When `levels` returns levels, they hold each node exactly once, every dependency of a node stands
  -- in an earlier level, and each level is sorted and not empty.
  -- The names of the nodes are distinct.
  pub levels-IsLevelOrder :
      (lvls : List (List Name)) → levels ns ≡ ordered lvls → IsLevelOrder ns lvls
  unfolding levels
  levels-IsLevelOrder lvls h =
      let same_levels : (level_end ns).lvls ≡ lvls = ground arith in
      let full : (level_end ns).seen_count ≡ length ns = ground arith in
      rw (← same_levels) (record {
        layered = end_Inv.layered;
        all_nodes =
            done-names ns (level_end ns).lvls (level_end ns).indeg end_Inv
              (omega (arith, end_counted, length-names ns));
        once = end_Inv.done_distinct;
        level_shape = (level_end-LevelInv ns distinct).0.all_levels;
      })

  -- When `levels` raises the cycle error, the names in it are nodes, there is one at least, and each
  -- depends on one of them, which may be itself.
  -- The names of the nodes are distinct.
  pub levels-IsBlocked : (bad : List Name) → levels ns ≡ cycle bad → IsBlocked ns bad
  unfolding levels
  levels-IsBlocked bad h =
      let known : missing_map (names ns) ns ≡ [] = ground arith in
      let same_bad : sorted (with_degree positive (level_end ns).indeg ns) ≡ bad = ground arith in
      let fewer : (level_end ns).seen_count ≢ length ns = ground arith in
      rw (← same_bad) (
        left-IsBlocked ns (level_end ns).lvls (level_end ns).indeg end_Inv
          (missing_map-IsComplete ns known) distinct (omega (arith, end_counted, length-names ns)))

  levels_missing : (m : MissingMap) → levels ns ≡ missing_deps m → ¬ IsComplete ns
  unfolding levels
  levels_missing m h complete =
      let found : missing_map (names ns) ns ≢ [] = ground arith in
      found (IsComplete-missing_map ns distinct complete)

  -- `levels` returns levels for every graph without a cycle whose dependencies are all nodes.
  -- The names of the nodes are distinct.
  pub levels_acyclic :
      (rank : Name → ℕ)
      → IsComplete ns
      → IsRanking ns rank
      → (lvls : List (List Name)) × (levels ns ≡ ordered lvls)
  levels_acyclic rank complete ranking = by_result (levels ns) refl
    where
      by_result :
          (r : DagResult (List (List Name)))
          → levels ns ≡ r
          → (lvls : List (List Name)) × (levels ns ≡ ordered lvls)
      by_result (ordered lvls) e = (lvls, e)
      by_result (cycle bad) e = absurd (not-IsBlocked ns rank bad ranking (levels-IsBlocked bad e))
      by_result (missing_deps m) e = absurd (levels_missing m e complete)
