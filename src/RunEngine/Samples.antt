-- ===== src/RunEngine/Samples.antt =====
-- Single nodes, run with and without a saved fingerprint.
use fast_flow_transform.Prelude.{
  ℕ, ◌≡◌, refl, ◌≢◌, ◌↔◌, ◌⊎◌, true, false, Option, none, some, [], ◌∷◌, if◌then◌else◌,
}
use fast_flow_transform.Prelude.Names.{Name, same}
use Prim.Native.String as Str
use fast_flow_transform.Registry.{find}
use fast_flow_transform.Dag.Samples.{model as node_of}
use fast_flow_transform.Cache.{Fingerprints, get}
use fast_flow_transform.RunEngine.{
  QueryStats, cache_rw, Effects, EngineState, Setup, raised, candidate, run_node,
  persist_on_success, should_skip_node, reads_cache, materialized_of, writes_cache,
}
use fast_flow_transform.RunEngine.Recorded.{
  noted, run_node_recorded, run_node_failed, get-persist_on_success,
}
use fast_flow_transform.RunEngine.Skipped.{actions, skips, run_node_order, should_skip_node_iff}

abbrev rows_read : ℕ → QueryStats
rows_read n = record { bytes_processed = none; rows = some n; duration_ms = none }

-- The model "bad" raises; each model reads 7 rows and each hook after it 1.
abbrev effects : Effects Name
effects = record {
  before_hooks = λ n. ([], none);
  run_model = λ n. (rows_read 7 ∷ [], if same n.name "bad" then some "no table" else none);
  after_hooks = λ n stats. (rows_read 1 ∷ [], none);
  http_snapshot = λ n. none;
}

abbrev setup : Fingerprints → Setup Name
setup cache = record {
  nodes = node_of "a" [] ∷ node_of "bad" ("a" ∷ []) ∷ [];
  effects = effects;
  fingerprints = record {
    supports_sql_fp = true;
    rendered_sql = λ done n. some "select";
    func_src = λ n. none;
    env_ctx = "env";
    hash_hex = λ p. Str.◌++◌ p.node p.text;
  };
  cache = cache;
  cache_mode = cache_rw;
  force_rebuild = [];
  relation_exists = λ r. true;
}

abbrev idle : EngineState
idle = record { computed_fps = []; query_stats = []; http_snaps = []; buffer = []; trace = [] }

-- The hook after the model recorded a query: its statistics replace those of the model.
stats-a :
    (run_node (setup []) idle "a").0.query_stats
    ≡ ("a", record { bytes_scanned = 0; rows = 1; query_duration_ms = 0; cached = false }) ∷ []
unfolding run_node
stats-a = refl

ran-a : (run_node (setup []) idle "a").1 ≡ none
unfolding run_node
ran-a = refl

ran-bad : (run_node (setup []) idle "bad").1 ≡ some (raised "no table")
unfolding run_node
ran-bad = refl

skipped-a : (run_node (setup (("a", "aselect") ∷ [])) idle "a").0.trace ≡ []
unfolding run_node
skipped-a = refl

found-a : find "a" (setup []).nodes ≡ some (node_of "a" [])
unfolding find
found-a = refl

candidate-a : candidate (setup []) (record idle { buffer = [] }) (node_of "a" []) ≡ some "aselect"
unfolding candidate
candidate-a = refl

run_node_recorded_example :
    get (run_node (setup []) idle "a").0.computed_fps "a"
    ≡ (if same "a" "a" then some "aselect" else get idle.computed_fps "a")
run_node_recorded_example =
    run_node_recorded (setup []) idle (node_of "a" []) "aselect" found-a candidate-a ran-a "a"

run_node_failed_example : (run_node (setup []) idle "bad").0.computed_fps ≡ []
run_node_failed_example = run_node_failed (setup []) idle "bad" (raised "no table") ran-bad

abbrev ended : EngineState
ended = record idle { computed_fps = ("a", "aselect") ∷ [] }

get-persist_on_success_example :
    (get (persist_on_success (setup []) false ended) "a" ≡ (
      if writes_cache cache_rw
      then elim (get ended.computed_fps "a") [ some v ↦ some v | none ↦ get [] "a" ]
      else get [] "a"))
    × (persist_on_success (setup []) true ended ≡ [])
get-persist_on_success_example = get-persist_on_success (setup []) ended "a" (refl, tt)

run_node_order_example : (run_node (setup []) idle "a").0.trace ≡ (
    if skips (setup []) idle (node_of "a" [])
    then []
    else actions "a" (noted (setup []) idle (node_of "a" [])))
run_node_order_example = run_node_order (setup []) idle (node_of "a" []) found-a ran-a

abbrev aselect : Option Name
aselect = some "aselect"

should_skip_node_iff_example :
    (should_skip_node (setup (("a", "aselect") ∷ [])) (node_of "a" []) (some "aselect") ≡ true) ↔ (
      (reads_cache cache_rw ≡ true)
      × (aselect ≢ none)
      × (get (("a", "aselect") ∷ []) "a" ≡ some "aselect")
      × ((materialized_of (node_of "a" []) ≡ "ephemeral") ⊎ (true ≡ true)))
should_skip_node_iff_example =
    should_skip_node_iff (setup (("a", "aselect") ∷ [])) (node_of "a" []) (some "aselect")
