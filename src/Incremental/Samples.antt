-- ===== src/Incremental/Samples.antt =====
-- An executor of one table, whose rows are the queries that were written to it.
use fast_flow_transform.Prelude.{
  ◌≡◌, refl, Bool, true, false, Option, none, some, List, [], ◌∷◌, ◌++◌,
}
use fast_flow_transform.Prelude.Names.{Name}
use fast_flow_transform.Incremental.{
  raised, model_execution_error, MetaText, IncrementalMeta, no_config, one_key, no_key, rendered,
  render_error, Executor, run_or_dispatch,
}
use fast_flow_transform.Incremental.Written.{Written}
use fast_flow_transform.Incremental.Failures.{RunFailure, run_or_dispatch-RunFailure}

-- No table, or its rows.
abbrev Rows : Type 0
Rows = Option (List Name)

abbrev exists_in : Rows → Bool
exists_in none = false
exists_in (some rows) = true

abbrev add_rows : Rows → Name → Rows
add_rows none sql = some (sql ∷ [])
add_rows (some rows) sql = some (rows ++ sql ∷ [])

-- Merging is not supported.
abbrev no_merge : Executor Rows Unit
no_merge = record {
  exists_relation = λ s relation. some (exists_in s);
  render_resolved = λ env. rendered "select 1";
  render_plain = λ env. render_error (raised "unreachable");
  full_refresh_table = none;
  qualify = none;
  create_table_as = λ relation sql s. (some (sql ∷ []), none);
  execute_sql = λ sql s. (s, some (raised "syntax error"));
  alter_table_sync_schema = none;
  incremental_merge = λ relation sql keys s. (s, some (raised "merge into is not supported"));
  incremental_insert = λ relation sql s. (add_rows s sql, none);
  runtime = none;
  contracts = λ k. none;
  has_project_contracts = false;
  format_relation = none;
}

abbrev plain : MetaText
plain = record {
  strip = λ t. t;
  lower = λ t. t;
  str = λ e. elim e [ raised message ↦ message | model_execution_error cause sql ↦ sql ];
}

abbrev by_id : IncrementalMeta
by_id = record {
  materialized = some "incremental";
  incremental = no_config;
  delta_sql = some "select 2";
  unique_key = one_key "id";
  schema_sync = none;
  on_schema_change = none;
}

abbrev without_key : IncrementalMeta
without_key = record by_id { unique_key = no_key }

abbrev old : Rows
old = some ("select 0" ∷ [])

appended :
    run_or_dispatch no_merge plain without_key "m.ff" old
    ≡ (some ("select 0" ∷ "select 2" ∷ []), none)
unfolding run_or_dispatch
appended = refl

-- The same executor, where nothing can be inserted or created.
abbrev broken : Executor Rows Unit
broken = record no_merge {
  create_table_as = λ relation sql s. (s, some (raised "disk full"));
  incremental_insert = λ relation sql s. (s, some (raised "disk full"));
}

broken_run :
    run_or_dispatch broken plain without_key "m.ff" old
    ≡ (old, some (model_execution_error (raised "syntax error") "select 1"))
unfolding run_or_dispatch
broken_run = refl

run_or_dispatch-RunFailure_example :
    RunFailure broken plain without_key "m.ff" old
      (model_execution_error (raised "syntax error") "select 1")
run_or_dispatch-RunFailure_example =
    run_or_dispatch-RunFailure broken plain without_key "m.ff" old old
      (model_execution_error (raised "syntax error") "select 1") broken_run
