-- ===== src/Hooks/Samples.antt =====
-- Hooks of a small project.
use fast_flow_transform.Prelude.{◌≡◌, refl, none, some, List, [], ◌∷◌, ◌++◌}
use fast_flow_transform.Prelude.Names.{Name}
use fast_flow_transform.Prelude.Results.{returns}
use fast_flow_transform.Dag.Samples.{model}
use fast_flow_transform.RunPlan.Samples.{plain}
use fast_flow_transform.Hooks.{
  after_model, Hook, hook_raised, hook_failed, fft_hook, HookSpec, sql_hook, python_hook, HookWorld,
  file_of, run_model_hooks,
}
use fast_flow_transform.Hooks.Applied.{Ran, run_model_hooks-Ran}

-- The state is the list of the statements that ran.
abbrev Statements : Type 0
Statements = List Name

abbrev audit : Hook Statements Name
audit when n s = (s ++ "audit" ∷ [], none)

abbrev broken : Hook Statements Name
broken when n s = (s, some "no access")

abbrev start : HookWorld Statements Name
start = record {
  engine_name = "duckdb";
  env_name = "dev";
  text = plain;
  strip = λ t. t;
  lstrip = λ t. t;
  split_lines = λ t. t ∷ [];
  rows = [];
  hook_files = some (("grant", "grant all") ∷ []);
  render = λ when n t. returns t;
  execute_hook_sql = λ t s. (s ++ t ∷ [], none);
  python_hooks = (("*", "audit"), audit) ∷ (("after_model", "broken"), broken) ∷ [];
}

abbrev hook_named : Name → HookSpec
hook_named k = record {
  name = some k;
  kind = python_hook;
  sql = none;
  select = none;
  engines = [];
  envs = [];
}

abbrev specs : List HookSpec
specs =
    hook_named "audit"
    ∷ record (hook_named "broken") { engines = "postgres" ∷ [] }
    ∷ record (hook_named "grant") { kind = sql_hook; select = some "x" }
    ∷ record (hook_named "broken") { envs = "dev" ∷ [] }
    ∷ hook_named "audit"
    ∷ []

-- The hook of another engine is passed over; the third that applies raises.
stopped :
    run_model_hooks start after_model (model "x" []) specs []
    ≡ ("audit" ∷ "grant all" ∷ [], some (hook_failed 3 (hook_raised "no access")))
unfolding run_model_hooks
stopped = refl

-- Of two files with one stem, the later one is read.
last_file : file_of (("a", "first") ∷ ("a", "second") ∷ []) "a" ≡ some "second"
unfolding file_of
last_file = refl

run_model_hooks-Ran_example :
    Ran start
      (model "x" [])
      after_model
      1
      specs
      []
      (run_model_hooks start after_model (model "x" []) specs []).0
      (run_model_hooks start after_model (model "x" []) specs []).1
run_model_hooks-Ran_example = run_model_hooks-Ran start (model "x" []) after_model specs []

registered :
    fft_hook (some "audit") (some "before_model") "f" broken start.python_hooks
    ≡ returns (start.python_hooks ++ (("before_model", "audit"), broken) ∷ [])
unfolding fft_hook
registered = refl
