-- ===== src/RunPlan/Complete.antt =====
-- A selection can be ordered.
use fast_flow_transform.Prelude.{ℕ, ◌≡◌, ◌∙◌, inl, inr, true, some, List, [], arith, Option-cases}
use fast_flow_transform.Prelude.Names.{Name, member, IsNodup, member-set_of}
use fast_flow_transform.Registry.{Nodes, names, find}
use fast_flow_transform.Dag.{ordered}
use fast_flow_transform.Dag.Edges.{deps_of}
use fast_flow_transform.Dag.Ends.{IsComplete, IsRanking}
use fast_flow_transform.Dag.Levels.{IsLevelOrder, levels-IsLevelOrder, levels_acyclic}
use fast_flow_transform.Selection.{deps_map}
use fast_flow_transform.Selection.Subgraph.{selected_subgraph_names-IsSelection}
use fast_flow_transform.Selection.Tokens.{TokenText}
use fast_flow_transform.RunPlan.{
  Options, Outside, sub_nodes, levels_for_run, raw_selected, select_pred, exclude_pred,
  wanted_names,
}
use fast_flow_transform.RunPlan.Filtered.{
  sub_nodes-IsNodup, sub_nodes-IsComplete, sub_nodes-IsRanking,
}

deps_map-deps_of : (ns : Nodes) (k d : Name) → member d (deps_map ns k) ≡ member d (deps_of ns k)
unfolding deps_map deps_of
deps_map-deps_of ns k d = elim (Option-cases (find k ns)) [
  | inl e ↦ ground arith
  | inr (n, e) ↦ ground (arith, member-set_of d n.deps)
]

module _ (text : TokenText) (ns : Nodes) (distinct : IsNodup (names ns)) (complete : IsComplete ns)
    (rank : Name → ℕ) (ranking : IsRanking ns rank) (out : Outside) (o : Options) where
  wanted_closed :
      (k d : Name)
      → member k (wanted_names text ns out o) ≡ true
      → member d (deps_of ns k) ≡ true
      → member d (wanted_names text ns out o) ≡ true
  unfolding wanted_names
  wanted_closed k d w m =
      (selected_subgraph_names-IsSelection ns distinct (select_pred text ns out o)
          (exclude_pred text ns out o) (some (raw_selected text ns out o))).closed
        k d w (deps_map-deps_of ns k d ∙ m) (complete k d m)

  -- Whatever the selectors are, the wanted nodes of a registry without cycles or missing dependencies can be
  -- ordered: their levels hold each wanted node exactly once, all of its dependencies in earlier levels.
  -- The names of the nodes are distinct.
  pub wanted_levels :
      (lvls : List (List Name)) × (levels_for_run ns [] (wanted_names text ns out o) ≡ ordered lvls)
      × IsLevelOrder (sub_nodes ns (wanted_names text ns out o)) lvls
  unfolding levels_for_run
  wanted_levels =
      let wanted = wanted_names text ns out o in
      let (lvls, e) =
        levels_acyclic (sub_nodes ns wanted) (sub_nodes-IsNodup ns wanted distinct) rank
          (sub_nodes-IsComplete ns wanted complete wanted_closed)
          (sub_nodes-IsRanking ns wanted rank ranking) in
      (
        lvls,
        e,
        levels-IsLevelOrder (sub_nodes ns wanted) (sub_nodes-IsNodup ns wanted distinct) lvls e,
      )
