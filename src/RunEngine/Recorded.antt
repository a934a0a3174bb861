-- ===== src/RunEngine/Recorded.antt =====
-- The fingerprints that a run records.
use fast_flow_transform.Prelude.{
  ◌≡◌, refl, sym, ap, ◌∙◌, inl, inr, Bool, true, false, Option, none, some, List, [], ◌∷◌, ◌++◌,
  arith, if◌then◌else◌, Bool-cases, Option-cases,
}
use fast_flow_transform.Prelude.Names.{Name, same, member, IsNodup}
use mathlib.Core.Path.{ap₂}
use mathlib.Core.List.{append_assoc}
use fast_flow_transform.Registry.{Node, find}
use fast_flow_transform.Cache.{Fingerprints, get, set, get-set, keys, get-update_many}
use fast_flow_transform.RunEngine.{
  Action, before_model, model, after_model, EngineState, Setup, RunError, capture_stats,
  set_snapshot, run_after_hooks, run_model_then, run_model_with_hooks, candidate, finalize_node_run,
  should_skip_node, run_node_force_rebuild, run_node_normal, run_found, run_node, truthy,
  persist_on_success, writes_cache,
}

capture_stats-fps :
    (s : EngineState) (name : Name) → (capture_stats s name).computed_fps ≡ s.computed_fps
unfolding capture_stats
capture_stats-fps s name = ground arith

set_snapshot-fps :
    (s : EngineState) (name : Name) (snap : Option Name)
    → (set_snapshot s name snap).computed_fps ≡ s.computed_fps
set_snapshot-fps s name none = refl
set_snapshot-fps s name (some v) = refl

-- The dict with the fingerprint of a node, if there is one.
abbrev pub with_fp : Fingerprints → Name → Option Name → Fingerprints
with_fp fps name none = fps
with_fp fps name (some fp) = set fps name fp

-- What a run of a node that is not skipped executes: the hooks and the model, in order.
abbrev pub executed : Name → List Action
executed name = before_model name ∷ model name ∷ after_model name ∷ []

module _ {E : Type 0} (c : Setup E) where
  pub run_model_with_hooks-fps :
      (s : EngineState) (n : Node) → (run_model_with_hooks c s n).0.computed_fps ≡ s.computed_fps
  unfolding run_model_with_hooks run_model_then run_after_hooks capture_stats
  run_model_with_hooks-fps s n = ground arith

  finalize_node_run-fps :
      (s : EngineState) (n : Node) (fp : Option Name)
      → (finalize_node_run c s n fp).computed_fps ≡ with_fp s.computed_fps n.name fp
  unfolding finalize_node_run
  finalize_node_run-fps s n none = capture_stats-fps _ n.name ∙ set_snapshot-fps _ n.name _
  finalize_node_run-fps s n (some fp) = capture_stats-fps _ n.name ∙ set_snapshot-fps _ n.name _

  -- `candidate` reads nothing of the state but the fingerprints and what was done to the database.
  pub candidate-same :
      (s s' : EngineState) (n : Node)
      → s.computed_fps ≡ s'.computed_fps
      → s.trace ≡ s'.trace
      → candidate c s n ≡ candidate c s' n
  unfolding candidate
  candidate-same s s' n e t =
      ap₂ (λ fps trace. candidate c (record s { computed_fps = fps; trace = trace }) n) e t

  pub run_model_with_hooks-trace :
      (s : EngineState) (n : Node)
      → (run_model_with_hooks c s n).1 ≡ none
      → (run_model_with_hooks c s n).0.trace ≡ s.trace ++ executed n.name
  unfolding run_model_with_hooks run_model_then run_after_hooks capture_stats
  run_model_with_hooks-trace s n ok = ground (
    arith,
    append_assoc s.trace (before_model n.name ∷ []) (model n.name ∷ []),
    append_assoc s.trace (before_model n.name ∷ model n.name ∷ []) (after_model n.name ∷ []),
  )

  -- The fingerprint that a run of a node without an error comes to: a rebuild takes it after its hooks and
  -- its model, and an empty one is none; every other run takes it before.
  abbrev by_mode : EngineState → Node → Bool → Option Name
  by_mode s n forced =
      if forced
      then truthy (candidate c (record s { trace = s.trace ++ executed n.name }) n)
      else candidate c s n

  abbrev pub noted : EngineState → Node → Option Name
  noted s n = by_mode s n (member n.name c.force_rebuild)

  pub candidate_after :
      (s : EngineState) (n : Node)
      → (run_model_with_hooks c s n).1 ≡ none
      → candidate c (run_model_with_hooks c s n).0 n
        ≡ candidate c (record s { trace = s.trace ++ executed n.name }) n
  candidate_after s n ok =
      candidate-same (run_model_with_hooks c s n).0
        (record s { trace = s.trace ++ executed n.name }) n (run_model_with_hooks-fps s n)
        (run_model_with_hooks-trace s n ok)

  run_node_normal-fps :
      (s : EngineState) (n : Node) (fp : Option Name)
      → (run_node_normal c s n fp).1 ≡ none
      → (run_node_normal c s n fp).0.computed_fps ≡ with_fp s.computed_fps n.name fp
  unfolding run_node_normal
  run_node_normal-fps s n fp ok =
      let kept = run_model_with_hooks-fps s n in
      let final = finalize_node_run-fps (run_model_with_hooks c s n).0 n fp in
      elim (Option-cases (run_model_with_hooks c s n).1) [
        | inl e ↦ rw (e, run_node_normal) (final ∙ ap (λ fps. with_fp fps n.name fp) kept)
        | inr (x, e) ↦ absurd (ground arith)
      ]

  run_node_force_rebuild-fps :
      (s : EngineState) (n : Node)
      → (run_node_force_rebuild c s n).1 ≡ none
      → (run_node_force_rebuild c s n).0.computed_fps
        ≡ with_fp s.computed_fps n.name
            (truthy (candidate c (record s { trace = s.trace ++ executed n.name }) n))
  unfolding run_node_force_rebuild
  run_node_force_rebuild-fps s n ok =
      let s' = (run_model_with_hooks c s n).0 in
      let kept = run_model_with_hooks-fps s n in
      let final = finalize_node_run-fps s' n (truthy (candidate c s' n)) in
      elim (Option-cases (run_model_with_hooks c s n).1) [
        | inl e ↦
            rw (e, run_node_force_rebuild)
              (final
                ∙ ap (λ fps. with_fp fps n.name (truthy (candidate c s' n))) kept
                ∙ ap (λ fp. with_fp s.computed_fps n.name (truthy fp)) (candidate_after s n e))
        | inr (x, e) ↦ absurd (ground arith)
      ]

  run_found-fps :
      (s : EngineState) (n : Node) (fp : Name)
      → (run_found c s n).1 ≡ none
      → noted s n ≡ some fp
      → (run_found c s n).0.computed_fps ≡ set s.computed_fps n.name fp
  unfolding run_found
  run_found-fps s n fp ok e = elim (Bool-cases (member n.name c.force_rebuild)) [
    | inl forced ↦
        let r = run_node_force_rebuild-fps s n (ground arith) in
        rw (run_found, forced) (r ∙ ap (with_fp s.computed_fps n.name) (taken true forced ∙ e))
    | inr unforced ↦ elim (Bool-cases (should_skip_node c n (candidate c s n))) [
      | inl skipped ↦ rw (run_found, unforced, skipped, taken false unforced ∙ e) refl
      | inr wanted ↦
          let r = run_node_normal-fps s n (candidate c s n) (ground arith) in
          rw (run_found, unforced, wanted)
            (r ∙ ap (with_fp s.computed_fps n.name) (taken false unforced ∙ e))
    ]
  ]
    where
      taken : (b : Bool) → member n.name c.force_rebuild ≡ b → by_mode s n b ≡ noted s n
      taken b q = ap (by_mode s n) (sym q)

  run_found-failed :
      (s : EngineState) (n : Node) (e : E)
      → (run_found c s n).1 ≡ some e
      → (run_found c s n).0.computed_fps ≡ s.computed_fps
  unfolding run_found run_node_force_rebuild run_node_normal
  run_found-failed s n e h = ground (arith, run_model_with_hooks-fps s n)

  -- A run of a node that raises nothing records the fingerprint that the node has, when it has one, and
  -- changes no other. A rebuild takes the fingerprint after its hooks and its model, and an empty one is none;
  -- every other run takes it before.
  pub run_node_recorded :
      (s : EngineState) (n : Node) (fp : Name)
      → find n.name c.nodes ≡ some n
      → noted (record s { buffer = [] }) n ≡ some fp
      → (run_node c s n.name).1 ≡ none
      → (k : Name)
      → get (run_node c s n.name).0.computed_fps k
        ≡ (if same n.name k then some fp else get s.computed_fps k)
  unfolding run_node
  run_node_recorded s n fp known e ok k =
      let start : EngineState = record s { buffer = [] } in
      let fine : (run_found c start n).1 ≡ none = elim (Option-cases (run_found c start n).1) [
        | inl q ↦ q
        | inr (x, q) ↦ absurd (ground arith)
      ] in
      let r : (run_node c s n.name).0.computed_fps ≡ set s.computed_fps n.name fp =
        rw (run_node, known) (run_found-fps start n fp fine e) in
      rw r (get-set s.computed_fps n.name fp k)

  -- A run of a node that raises leaves all fingerprints as they were.
  pub run_node_failed :
      (s : EngineState) (name : Name) (e : RunError E)
      → (run_node c s name).1 ≡ some e
      → (run_node c s name).0.computed_fps ≡ s.computed_fps
  unfolding run_node
  run_node_failed s name e h = elim (Option-cases (find name c.nodes)) [
    | inl q ↦ rw (run_node, q) refl
    | inr (n, q) ↦
        let start : EngineState = record s { buffer = [] } in
        elim (Option-cases (run_found c start n).1) [
          | inl ok ↦ absurd (ground arith)
          | inr (x, bad) ↦ rw (run_node, q) (run_found-failed start n x bad)
        ]
  ]

  -- After a run without failures, in a mode that writes, the cache reads the recorded fingerprint of a
  -- node that has one and the old one elsewhere; with a failure, or in another mode, it is unchanged.
  pub get-persist_on_success :
      (s : EngineState) (k : Name)
      → IsNodup (keys s.computed_fps)
      → (get (persist_on_success c false s) k ≡ (
          if writes_cache c.cache_mode
          then elim (get s.computed_fps k) [ some v ↦ some v | none ↦ get c.cache k ]
          else get c.cache k))
        × (persist_on_success c true s ≡ c.cache)
  unfolding persist_on_success
  get-persist_on_success s k h = elim (Bool-cases (writes_cache c.cache_mode)) [
    | inl e ↦ (rw (persist_on_success, e) (get-update_many c.cache s.computed_fps k h), refl)
    | inr e ↦ (rw (persist_on_success, e) refl, refl)
  ]
