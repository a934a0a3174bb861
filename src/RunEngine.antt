-- ===== src/RunEngine.antt =====
-- cli/run.py: how `_RunEngine` runs one node, with the fingerprints of fingerprint.py and the query
-- statistics of executors/base.py. Locks are not modelled: a node is run in one thread, and the steps
-- below are those between which another thread may come.
mod Stats
mod Fingerprint
pub mod Recorded
pub mod Skipped
mod Samples
unfoldable pub use Stats.*
unfoldable pub use Fingerprint.*
use Stats.{QueryStats, NodeStats, zero_stats, get_node_stats}
use Fingerprint.{Payload, Fingerprinting, maybe_fingerprint}
use fast_flow_transform.Prelude.{
  ℕ, zero, suc, ◌+◌, ◌-◌, ◌*◌, ◌/◌, ◌%◌, ◌^◌, ◌≤◌, ◌<◌, min, max, String, ◌≡◌, refl, sym, ap, ◌∙◌,
  ◌≢◌, ◌↔◌, ◌⊎◌, inl, inr, Bool, true, false, not, ◌&&◌, ◌||◌, Option, none, some, List, [], ◌∷◌,
  ◌++◌, map, foldl, arith, ltb, leb, ◌==◌, if◌then◌else◌, Bool-cases, ltb→lt, lt→ltb, length,
  length-append, is_empty, filter, concat, Option-cases, List-cases, all, any, All,
}
use fast_flow_transform.Prelude.Names.{
  Name, same, same_iff, same_lem, same_refl, member, add, set_of, IsNodup, member-add, add-IsNodup,
  member-set_of, set_of-IsNodup, member-append, member-filter, filter-IsNodup, IsSubset,
  length-subset, update, update-same, update-other,
}
use mathlib.Core.Option
use fast_flow_transform.Registry.{Kind, sql, python, Node, Nodes, names, find}
use fast_flow_transform.Cache.{Fingerprints, get, set, update_many, can_skip_node}

pub data CacheMode : Type 0 where
  cache_rw cache_ro cache_wo cache_off : CacheMode

-- What the run of a node does to the database, in order: hooks, the model, and the note of what was
-- built.
pub data Action : Type 0 where
  before_model model after_model : Name → Action
  node_built : Name → Name → Action

-- A run of hooks or of a model: the statistics of its queries, and what it raises.
abbrev pub Outcome : Type 0 → Type 0
Outcome E = List QueryStats × Option E

-- Hooks, models and the snapshot of HTTP calls in `node.meta`. The hooks after a model see its statistics.
pub record Effects (E : Type 0) : Type 0 where
  pub before_hooks : Node → Outcome E
  pub run_model : Node → Outcome E
  pub after_hooks : Node → Option NodeStats → Outcome E
  pub http_snapshot : Node → Option Name

pub data RunError (E : Type 0) : Type 0 where
  key_error : RunError E
  raised : E → RunError E

-- The state of the engine that the run of a node changes, with the buffer of its executor.
pub record EngineState : Type 0 where
  pub computed_fps : Fingerprints
  pub query_stats : List (Name × NodeStats)
  pub http_snaps : List (Name × Name)
  pub buffer : List QueryStats
  pub trace : List Action

-- What stays the same during a run. The database is known to the rendering by what was done to it.
pub record Setup (E : Type 0) : Type 0 where
  pub nodes : Nodes
  pub effects : Effects E
  pub fingerprints : Fingerprinting (List Action)
  pub cache : Fingerprints
  pub cache_mode : CacheMode
  pub force_rebuild : List Name
  pub relation_exists : Name → Bool

-- A dict assignment.
unfoldable pub set_stats : List (Name × NodeStats) → Name → NodeStats → List (Name × NodeStats)
set_stats [] k v = (k, v) ∷ []
set_stats ((j, w) ∷ es) k v = if same j k then (j, v) ∷ es else (j, w) ∷ set_stats es k v

-- Queries that run record their statistics in the buffer.
abbrev pub after_queries : EngineState → Action → List QueryStats → EngineState
after_queries s action stats = record s {
  buffer = s.buffer ++ stats;
  trace = s.trace ++ action ∷ [];
}

-- `_collect_model_stats_for_hooks` and `_capture_final_stats`: both drain the buffer.
unfoldable pub capture_stats : EngineState → Name → EngineState
unfolding set_stats get_node_stats
capture_stats s name = elim (get_node_stats s.buffer) [
  | none ↦ record s { buffer = [] }
  | some stats ↦ record s { buffer = []; query_stats = set_stats s.query_stats name stats }
]

abbrev pub store_fingerprint : EngineState → Name → Name → EngineState
store_fingerprint s name fp = record s { computed_fps = set s.computed_fps name fp }

abbrev pub notify_built : EngineState → Name → Name → EngineState
notify_built s name fp = record s { trace = s.trace ++ node_built name fp ∷ [] }

abbrev pub set_snapshot : EngineState → Name → Option Name → EngineState
set_snapshot s name none = s
set_snapshot s name (some snap) = record s { http_snaps = set s.http_snaps name snap }

abbrev pub reads_cache : CacheMode → Bool
reads_cache cache_rw = true
reads_cache cache_ro = true
reads_cache cache_wo = false
reads_cache cache_off = false

abbrev pub writes_cache : CacheMode → Bool
writes_cache cache_rw = true
writes_cache cache_wo = true
writes_cache cache_ro = false
writes_cache cache_off = false

abbrev pub materialized_of : Node → Name
materialized_of n = Option.get_or n.meta.materialized "table"

-- `if cand_fp:` of the rebuild: an empty text counts as none.
abbrev pub truthy : Option Name → Option Name
truthy none = none
truthy (some fp) = if same fp "" then none else some fp

module _ {E : Type 0} (c : Setup E) where
  -- `_run_model_with_hooks`, in three parts: the hooks after the model, the model and those, all.
  unfoldable pub run_after_hooks : EngineState → Node → EngineState × Option E
  unfolding capture_stats get_node_stats
  run_after_hooks s n =
      let (stats, error) = c.effects.after_hooks n (get_node_stats s.buffer) in
      (after_queries (capture_stats s n.name) (after_model n.name) stats, error)

  unfoldable pub run_model_then : EngineState → Node → EngineState × Option E
  unfolding run_after_hooks
  run_model_then s n =
      let (stats, error) = c.effects.run_model n in
      let s' = after_queries s (model n.name) stats in
      elim error [ some e ↦ (s', some e) | none ↦ run_after_hooks s' n ]

  unfoldable pub run_model_with_hooks : EngineState → Node → EngineState × Option E
  unfolding run_model_then
  run_model_with_hooks s n =
      let (stats, error) = c.effects.before_hooks n in
      let s' = after_queries s (before_model n.name) stats in
      elim error [ some e ↦ (s', some e) | none ↦ run_model_then s' n ]

  -- `_maybe_fingerprint` in a state.
  unfoldable pub candidate : EngineState → Node → Option Name
  unfolding maybe_fingerprint
  candidate s n = maybe_fingerprint c.fingerprints s.trace s.computed_fps c.cache n

  -- `_finalize_node_run`
  unfoldable pub finalize_node_run : EngineState → Node → Option Name → EngineState
  unfolding capture_stats set
  finalize_node_run s n none =
      capture_stats (set_snapshot s n.name (c.effects.http_snapshot n)) n.name
  finalize_node_run s n (some fp) =
      capture_stats
        (set_snapshot (notify_built (store_fingerprint s n.name fp) n.name fp) n.name
          (c.effects.http_snapshot n))
        n.name

  -- The tests of `_should_skip_node`.
  unfoldable pub should_skip_node : Node → Option Name → Bool
  unfolding can_skip_node
  should_skip_node n none = false
  should_skip_node n (some fp) =
      reads_cache c.cache_mode
      && can_skip_node c.relation_exists c.cache n.name fp (materialized_of n)

  -- What `_should_skip_node` records when it skips.
  unfoldable pub record_skip : EngineState → Node → Name → EngineState
  unfolding set set_stats
  record_skip s n fp = record s {
    computed_fps = set s.computed_fps n.name fp;
    query_stats = set_stats s.query_stats n.name (record zero_stats { cached = true });
  }

  -- `_run_node_force_rebuild`
  unfoldable pub run_node_force_rebuild : EngineState → Node → EngineState × Option E
  unfolding run_model_with_hooks candidate finalize_node_run
  run_node_force_rebuild s n =
      let (s', error) = run_model_with_hooks s n in
      elim error [
        | some e ↦ (s', some e)
        | none ↦ (finalize_node_run s' n (truthy (candidate s' n)), none)
      ]

  -- The normal run of `run_node`.
  unfoldable pub run_node_normal : EngineState → Node → Option Name → EngineState × Option E
  unfolding run_model_with_hooks finalize_node_run
  run_node_normal s n fp =
      let (s', error) = run_model_with_hooks s n in
      elim error [ some e ↦ (s', some e) | none ↦ (finalize_node_run s' n fp, none) ]

  -- `run_node` after the lookup and the reset of the buffer.
  unfoldable pub run_found : EngineState → Node → EngineState × Option E
  unfolding run_node_force_rebuild run_node_normal candidate should_skip_node record_skip
  run_found s n =
      let fp = candidate s n in
      if member n.name c.force_rebuild
      then run_node_force_rebuild s n
      else if should_skip_node n fp
      then (record_skip s n (Option.get_or fp ""), none)
      else run_node_normal s n fp

  -- `run_node`
  unfoldable pub run_node : EngineState → Name → EngineState × Option (RunError E)
  unfolding run_found find
  run_node s name = elim (find name c.nodes) [
    | none ↦ (s, some key_error)
    | some n ↦
        let (s', error) = run_found (record s { buffer = [] }) n in
        (s', Option.map (λ e. raised e) error)
  ]

  -- `persist_on_success`: the entries of the cache after the run.
  unfoldable pub persist_on_success : Bool → EngineState → Fingerprints
  unfolding update_many
  persist_on_success any_failed s =
      if not any_failed && writes_cache c.cache_mode
      then update_many c.cache s.computed_fps
      else c.cache
