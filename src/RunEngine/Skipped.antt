-- ===== src/RunEngine/Skipped.antt =====
-- What a run of a node does to the database, and when it does nothing.
use fast_flow_transform.Prelude.{
  ◌≡◌, refl, ap, ◌∙◌, ◌≢◌, ◌↔◌, ◌⊎◌, inl, inr, Bool, true, not, ◌&&◌, Option, none, some, List, [],
  ◌∷◌, ◌++◌, arith, if◌then◌else◌, Bool-cases, Option-cases,
}
use fast_flow_transform.Prelude.Names.{Name, member}
use mathlib.Core.List.{append_assoc}
use fast_flow_transform.Registry.{Node, find, relation_for}
use fast_flow_transform.Cache.{get}
use fast_flow_transform.Cache.Skip.{can_skip_node_iff}
use fast_flow_transform.RunEngine.{
  Action, node_built, EngineState, Setup, capture_stats, set_snapshot, run_model_with_hooks,
  candidate, record_skip, finalize_node_run, should_skip_node, run_node_force_rebuild,
  run_node_normal, run_found, run_node, truthy, reads_cache, materialized_of,
}
use fast_flow_transform.RunEngine.Recorded.{
  executed, noted, candidate_after, run_model_with_hooks-trace,
}

-- What is executed, and the note of what was built, if there is a fingerprint.
abbrev pub actions : Name → Option Name → List Action
actions name none = executed name
actions name (some fp) = executed name ++ node_built name fp ∷ []

capture_stats-trace : (s : EngineState) (name : Name) → (capture_stats s name).trace ≡ s.trace
unfolding capture_stats
capture_stats-trace s name = ground arith

set_snapshot-trace :
    (s : EngineState) (name : Name) (snap : Option Name)
    → (set_snapshot s name snap).trace ≡ s.trace
set_snapshot-trace s name none = refl
set_snapshot-trace s name (some v) = refl

module _ {E : Type 0} (c : Setup E) where
  finalize_node_run_order :
      (s : EngineState) (n : Node) (fp : Option Name) (before : List Action)
      → s.trace ≡ before ++ actions n.name none
      → (finalize_node_run c s n fp).trace ≡ before ++ actions n.name fp
  unfolding finalize_node_run capture_stats
  finalize_node_run_order s n none before h =
      capture_stats-trace _ n.name ∙ set_snapshot-trace _ n.name _ ∙ h
  finalize_node_run_order s n (some fp) before h =
      capture_stats-trace _ n.name
      ∙ set_snapshot-trace _ n.name _
      ∙ ap (λ t. t ++ node_built n.name fp ∷ []) h
      ∙ append_assoc before (actions n.name none) (node_built n.name fp ∷ [])

  run_node_normal_order :
      (s : EngineState) (n : Node) (fp : Option Name)
      → (run_node_normal c s n fp).1 ≡ none
      → (run_node_normal c s n fp).0.trace ≡ s.trace ++ actions n.name fp
  unfolding run_node_normal
  run_node_normal_order s n fp ok = elim (Option-cases (run_model_with_hooks c s n).1) [
    | inl e ↦
        rw (e, run_node_normal)
          (finalize_node_run_order (run_model_with_hooks c s n).0 n fp s.trace
            (run_model_with_hooks-trace c s n e))
    | inr (x, e) ↦ absurd (ground arith)
  ]

  run_node_force_rebuild_order :
      (s : EngineState) (n : Node)
      → (run_node_force_rebuild c s n).1 ≡ none
      → (run_node_force_rebuild c s n).0.trace
        ≡ s.trace
          ++ actions n.name
              (truthy (candidate c (record s { trace = s.trace ++ executed n.name }) n))
  unfolding run_node_force_rebuild
  run_node_force_rebuild_order s n ok =
      let s' = (run_model_with_hooks c s n).0 in
      elim (Option-cases (run_model_with_hooks c s n).1) [
        | inl e ↦
            rw (e, run_node_force_rebuild)
              (finalize_node_run_order s' n (truthy (candidate c s' n)) s.trace
                  (run_model_with_hooks-trace c s n e)
                ∙ ap (λ fp. s.trace ++ actions n.name (truthy fp)) (candidate_after c s n e))
        | inr (x, e) ↦ absurd (ground arith)
      ]

  -- Whether `run_node` takes the path that executes nothing.
  abbrev pub skips : EngineState → Node → Bool
  skips s n = not (member n.name c.force_rebuild) && should_skip_node c n (candidate c s n)

  run_found_order :
      (s : EngineState) (n : Node)
      → (run_found c s n).1 ≡ none
      → (run_found c s n).0.trace
        ≡ (if skips s n then s.trace else s.trace ++ actions n.name (noted c s n))
  unfolding run_found record_skip
  run_found_order s n ok = elim (Bool-cases (member n.name c.force_rebuild)) [
    | inl forced ↦
        let r = run_node_force_rebuild_order s n (ground arith) in rw (run_found, forced) r
    | inr unforced ↦ elim (Bool-cases (should_skip_node c n (candidate c s n))) [
      | inl skipped ↦ rw (run_found, unforced, skipped) refl
      | inr wanted ↦
          rw (run_found, unforced, wanted)
            (run_node_normal_order s n (candidate c s n) (ground arith))
    ]
  ]

  -- A run of a node that raises nothing either does nothing to the database or runs the hooks before it,
  -- the model and the hooks after it once each, in this order, and then notes what was built, if the node has
  -- a fingerprint: a rebuild takes it after its hooks and its model, and an empty one is none; every other run
  -- takes it before. It does nothing exactly when the node is not to be rebuilt and may be skipped.
  pub run_node_order :
      (s : EngineState) (n : Node)
      → find n.name c.nodes ≡ some n
      → (run_node c s n.name).1 ≡ none
      → let start : EngineState = record s { buffer = [] } in
        (run_node c s n.name).0.trace
        ≡ (if skips start n then s.trace else s.trace ++ actions n.name (noted c start n))
  unfolding run_node
  run_node_order s n known ok =
      let start : EngineState = record s { buffer = [] } in
      let fine : (run_found c start n).1 ≡ none = elim (Option-cases (run_found c start n).1) [
        | inl q ↦ q
        | inr (x, q) ↦ absurd (ground arith)
      ] in
      rw (run_node, known) (run_found_order start n fine)

  -- A node is skipped only where the cache is read, its fingerprint is the saved one, and its relation
  -- exists or it is ephemeral.
  pub should_skip_node_iff :
      (n : Node) (fp : Option Name)
      → (should_skip_node c n fp ≡ true) ↔ (
          (reads_cache c.cache_mode ≡ true)
          × (fp ≢ none)
          × (get c.cache n.name ≡ fp)
          × ((materialized_of n ≡ "ephemeral") ⊎ (c.relation_exists (relation_for n.name) ≡ true)))
  unfolding should_skip_node
  should_skip_node_iff n none = (λ h. absurd (ground arith), λ (r, f, g, k). absurd (f refl))
  should_skip_node_iff n (some fp) =
      let (there, back) =
        can_skip_node_iff c.relation_exists c.cache n.name fp (materialized_of n) in
      (
        λ h.
            let (saved, kept) = there (ground arith) in
            (ground arith, λ e. ground arith, saved, kept),
        λ (r, f, saved, kept). let t = back (saved, kept) in ground (arith, r),
      )
