-- ===== src/RunPlan.antt =====
-- cli/run.py: from the options of `fft run` to the levels that are scheduled. What git and the cache
-- answer is an argument: the changed models of `--changed-since`, and the modified ones.
pub mod Filtered
pub mod Complete
pub mod Changed
pub mod Samples
use mathlib.Core.Option
use fast_flow_transform.Prelude.{
  ℕ, zero, suc, ◌+◌, ◌-◌, ◌*◌, ◌/◌, ◌%◌, ◌^◌, ◌≤◌, ◌<◌, min, max, String, ◌≡◌, refl, sym, ap, ◌∙◌,
  ◌≢◌, ◌↔◌, ◌⊎◌, inl, inr, Bool, true, false, not, ◌&&◌, ◌||◌, Option, none, some, List, [], ◌∷◌,
  ◌++◌, map, foldl, arith, ltb, leb, ◌==◌, if◌then◌else◌, Bool-cases, ltb→lt, lt→ltb, length,
  length-append, is_empty, filter, concat, Option-cases, List-cases, all, any, All,
}
use fast_flow_transform.Prelude.Names.{
  Name, same, same_iff, same_lem, same_refl, member, add, set_of, IsNodup, member-add, add-IsNodup,
  member-set_of, set_of-IsNodup, member-append, member-filter, filter-IsNodup, IsSubset,
  length-subset, update, update-same, update-other,
}
use fast_flow_transform.Registry.{Node, Nodes, names, get_node}
use fast_flow_transform.Dag.{DagResult, ordered, missing_deps, cycle, levels}
use fast_flow_transform.Selection.{selected_subgraph_names}
use fast_flow_transform.Selection.State.{is_state, augment_with_state_modified}
use fast_flow_transform.Selection.Tokens.{TokenText, RunRow, parse_select, compile_selector}
use fast_flow_transform.ChangedSince.{compute_affected_models}

-- The options that choose the models.
pub record Options : Type 0 where
  pub select : Option (List Name)
  pub exclude : Option (List Name)
  pub rebuild : Bool
  pub rebuild_only : Option (List Name)

-- The answers from outside: the rows of the last run, the set of modified models, and the changed ones
-- where `--changed-since` is given.
pub record Outside : Type 0 where
  pub rows : List RunRow
  pub modified : List Name
  pub changed : Option (List Name)

-- `Exit(0)` with nothing to run; or the set of nodes to rebuild, and the levels or their error.
pub data Plan : Type 0 where
  nothing_to_run : Plan
  planned : (force_rebuild : List Name) → DagResult (List (List Name)) → Plan

-- `wanted & affected` and the like.
abbrev pub both : List Name → List Name → List Name
both xs ys = filter (λ k. member k ys) xs

-- An option that is given and not empty.
abbrev pub is_given : Option (List Name) → Bool
is_given none = false
is_given (some xs) = not (is_empty xs)

-- `{k: v for k, v in REGISTRY.nodes.items() if k in wanted}`
unfoldable pub sub_nodes : Nodes → List Name → Nodes
sub_nodes ns wanted = filter (λ n. member n.name wanted) ns

-- `_explicit_targets` without its warnings, from the names that `--rebuild-only` normalises to.
unfoldable pub explicit_targets : Nodes → List Name → Options → List Name → List Name
explicit_targets ns rebuild_only_names o raw_selected =
    if not (is_empty rebuild_only_names)
    then filter (λ k. member k (names ns)) (Option.get_or o.rebuild_only [])
    else if o.rebuild && is_given o.select
    then raw_selected
    else []

-- `_compute_force_rebuild`
unfoldable pub compute_force_rebuild : List Name → Bool → List Name → List Name
unfolding set_of
compute_force_rebuild targets rebuild wanted =
    if not (is_empty targets) then set_of targets else if rebuild then wanted else []

-- `_levels_for_run`
unfoldable pub levels_for_run : Nodes → List Name → List Name → DagResult (List (List Name))
unfolding sub_nodes levels
levels_for_run ns targets wanted =
    if not (is_empty targets) then ordered (targets ∷ []) else levels (sub_nodes ns wanted)

-- `_apply_changed_since_filter`
unfoldable pub apply_changed_since_filter :
    Nodes → Option (List Name) → Options → List Name → List Name
unfolding compute_affected_models
apply_changed_since_filter ns none o wanted = wanted
apply_changed_since_filter ns (some changed) o wanted =
    let affected = compute_affected_models changed ns in
    if is_empty affected
    then []
    else if is_given o.select || is_given o.exclude
    then both wanted affected
    else affected

module _ (text : TokenText) (ns : Nodes) where
  -- `_is_snapshot_model`
  unfoldable pub is_snapshot_model : Node → Bool
  is_snapshot_model n = same (text.lower (Option.get_or n.meta.materialized "")) "snapshot"

  -- The loop of `_normalize_node_names_or_warn`.
  unfoldable pub normalize_names : List Name → List Name
  unfolding get_node is_snapshot_model add
  normalize_names [] = []
  normalize_names (tok ∷ tokens) = elim (get_node tok ns) [
    | none ↦ normalize_names tokens
    | some n ↦
        let rest = normalize_names tokens in if is_snapshot_model n then rest else add n.name rest
  ]

  -- The predicate of `_select_predicate_and_raw`.
  unfoldable pub select_pred : Outside → Options → Node → Bool
  unfolding parse_select compile_selector augment_with_state_modified
  select_pred out o =
      let tokens = parse_select text (Option.get_or o.select []) in
      let base_pred =
        (compile_selector text out.rows (some (filter (λ t. not (is_state t)) tokens))).1 in
      if any is_state tokens
      then augment_with_state_modified ns tokens base_pred out.modified
      else base_pred

  -- `raw_selected`
  unfoldable pub raw_selected : Outside → Options → List Name
  unfolding select_pred is_snapshot_model
  raw_selected out o =
      map (λ n. n.name) (filter (λ n. select_pred out o n && not (is_snapshot_model n)) ns)

  -- The predicate of `--exclude`, which an empty option does not ask for.
  unfoldable pub exclude_pred : Outside → Options → Node → Bool
  unfolding compile_selector
  exclude_pred out o n = is_given o.exclude && (compile_selector text out.rows o.exclude).1 n

  -- `_wanted_names`. The given seeds make the predicate of `--select` idle there.
  unfoldable pub wanted_names : Outside → Options → List Name
  unfolding selected_subgraph_names exclude_pred raw_selected
  wanted_names out o =
      selected_subgraph_names ns (select_pred out o) (exclude_pred out o)
        (some (raw_selected out o))

  -- The names of `--rebuild-only` that count, by which `_explicit_targets` decides.
  unfoldable pub rebuild_only_names : Options → List Name
  unfolding parse_select normalize_names
  rebuild_only_names o = normalize_names (parse_select text (Option.get_or o.rebuild_only []))

  -- The part of `run` between the hooks at its start and the schedule.
  unfoldable pub plan : Outside → Options → Plan
  unfolding wanted_names apply_changed_since_filter explicit_targets rebuild_only_names raw_selected
      compute_force_rebuild levels_for_run
  plan out o =
      let wanted = apply_changed_since_filter ns out.changed o (wanted_names out o) in
      let targets = explicit_targets ns (rebuild_only_names o) o (raw_selected out o) in
      if is_empty wanted && is_empty targets
      then nothing_to_run
      else planned (compute_force_rebuild targets o.rebuild wanted)
          (levels_for_run ns targets wanted)
