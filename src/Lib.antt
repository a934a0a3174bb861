-- ===== src/Lib.antt =====
-- FastFlowTransform runs a project of SQL and Python models: it loads the models into a registry,
-- orders them by their dependencies, selects the ones that a run wants, decides which of them are
-- unchanged, and runs the rest level by level in a pool of threads.
--
-- Paths below are from the repository's root.
--
--   Registry      src/fastflowtransform/core.py: Node, Registry._add_node_or_fail, Registry.get_node,
--                 Registry._validate_dependencies, relation_for
--   Dag           src/fastflowtransform/dag.py: topo_sort and levels, each with its loop
--                 (topo_round, topo_loop; level_round, level_loop)
--   Walk          the worklist loop that cli/selectors.py and ci/changed_since.py share
--   Selection     src/fastflowtransform/cli/selectors.py: _downstream_closure,
--                 _selected_subgraph_names, augment_with_state_modified (Selection/State),
--                 _parse_select, _build_predicates, _compile_selector (Selection/Tokens)
--   ChangedSince  src/fastflowtransform/ci/changed_since.py: compute_affected_models
--   Cache         src/fastflowtransform/cache.py: the entries of FingerprintCache, compute_current,
--                 modified_set, can_skip_node
--   RunEngine     src/fastflowtransform/cli/run.py: _RunEngine.run_node with _maybe_fingerprint,
--                 _should_skip_node, _run_model_with_hooks, _run_node_force_rebuild,
--                 _finalize_node_run, and persist_on_success; the statistics of
--                 src/fastflowtransform/executors/base.py and the payloads of
--                 src/fastflowtransform/fingerprint.py
--   RunPlan       src/fastflowtransform/cli/run.py: run from its options to the levels, with
--                 _select_predicate_and_raw, _wanted_names, _apply_changed_since_filter,
--                 _explicit_targets, _compute_force_rebuild, _levels_for_run
--   Hooks         src/fastflowtransform/cli/run.py: _RunEngine._run_hooks and what it calls, with
--                 _model_hooks_for_when; src/fastflowtransform/hooks/registry.py (Hooks/Registered)
--   Incremental   src/fastflowtransform/incremental.py: run_or_dispatch and what it calls, with the
--                 choices of the meta data in Incremental/Keys
--   Budgets       src/fastflowtransform/cli/run.py: _evaluate_budgets and what it calls, with the
--                 records of src/fastflowtransform/config/budgets.py
--   RunExecutor   src/fastflowtransform/run_executor.py: _resolve_jobs and _partition_groups
--                 (RunExecutor/Batches), _group_task, _run_level and schedule
--   LogQueue      src/fastflowtransform/log_queue.py: LogQueue.put and LogQueue.drain
--   Packages      src/fastflowtransform/packages.py: parse_version, compare_versions, _expand_caret,
--                 _expand_tilde, _parse_constraints, version_satisfies,
--                 _validate_package_dependencies, LockFile (Packages/Lock) and
--                 resolve_packages (Packages/Resolve)
--   Http          src/fastflowtransform/api/http.py: get, get_json, _collect_pages and
--                 _request_with_cache, with the cache (Http/Cache) and the statistics of
--                 src/fastflowtransform/api/context.py (Http/Stats)
--   Utest         src/fastflowtransform/utest.py: run_unit_specs and what it calls, with the
--                 specifications (Utest/Spec) and assert_rows_equal (Utest/Compare)
--   QueryBudget   src/fastflowtransform/executors/budget/: BudgetGuard and BaseBudgetRuntime.run_sql,
--                 with _apply_budget_guard of src/fastflowtransform/executors/base.py
--   Prelude       lists, names and sorting
--
-- The parts meet in RunExecutor/Whole: `schedule` gets the levels that `levels` made, divides each
-- with `_partition_groups`. RunPlan joins Registry, Selection, ChangedSince and Dag: it turns the
-- options of a run into those levels.
--
-- Names are texts, compared as Python compares them. A set of names is a list without duplicates,
-- a dict of nodes the list of its values in insertion order, each under its own name. Loops over a
-- heap, a queue or a stack recur on fuel: the number of nodes for `topo_sort`, `levels` and the
-- worklists, seeds and edges for the climb to the dependencies. Each round of the first three
-- takes a name that no round took before, and each round of the climb a seed or an edge. The
-- attempts of an HTTP request recur on the retries that are left, and the pages of a paginator on
-- any number of turns: a paginator need not end, and Http/Pages says when it does. A number is
-- printed with itself as fuel, which is at least the count of its digits. Worker threads are a
-- state for each future and a list of events, one for each move of a worker and one for each
-- result that the main thread takes; an event that cannot happen changes nothing.
--
-- `run_node` changes the fingerprints, the statistics, the snapshots, the buffer of the executor
-- and a trace of what reaches the database; the rendered SQL may depend on that trace; hooks and
-- models are arguments that return the statistics of their queries and what they raise. For
-- Incremental an executor is a record of its operations, each with the new state and what it
-- raised; what a statement does to a database, when it succeeds or when it fails, is left open.
-- The hash, the rendered SQL and the sources of functions are arguments too.
--
-- For Http the answers of the network and the clock go by the number of requests sent so far. For
-- Utest a database is any type with the operations of the executor, and a frame is the list of its
-- rows in the order of the columns; a cell is the text of a value, a date or a missing one, so
-- that differences of the column types of pandas do not show. A sort of pandas may raise: the
-- error ends the whole run, which then has no state.
--
-- Durations are a type with addition and comparison, since the code uses floats; the classes of
-- characters, some methods of str and the number of processors are arguments. Not modelled:
-- databases and their executors, files, Jinja, the texts of logs, the times that are measured, and
-- the callbacks, which change no part of the modelled state.
pub mod Prelude
pub mod Registry
pub mod Dag
pub mod Walk
pub mod Selection
pub mod ChangedSince
pub mod RunExecutor
pub mod Cache
pub mod RunPlan
pub mod RunEngine
pub mod LogQueue
pub mod Hooks
pub mod Incremental
pub mod Budgets
pub mod Packages
pub mod Http
pub mod Utest
pub mod QueryBudget
