-- ===== src/QueryBudget/Samples.antt =====
-- Sample queries, and the theorem at one.
use fast_flow_transform.Prelude.{ℕ, suc, ◌*◌, ◌≡◌, refl, true, false, none, some, [], if◌then◌else◌}
use fast_flow_transform.Prelude.Names.{Name, same}
use fast_flow_transform.Prelude.Results.{returns, raises}
use fast_flow_transform.QueryBudget.{
  BudgetText, parse_max_bytes_env, over_budget, BudgetWorld, BudgetState, run_sql,
}
use fast_flow_transform.QueryBudget.Guarded.{Guarded}

abbrev text : BudgetText
text = record {
  plain = λ raw. raw;
  strip = λ raw. raw;
  scaled = λ number factor. if same number "10" then some (10 * factor) else none;
}

-- The longest unit is taken, and what is no number is no limit.
parse_sample :
    (parse_max_bytes_env text (some "10kb") ≡ some 10240)
    × (parse_max_bytes_env text (some "10") ≡ some 10)
    × (parse_max_bytes_env text (some "tenkb") ≡ none)
unfolding parse_max_bytes_env
parse_sample = (refl, refl, refl)

-- A database that counts its queries; every query is estimated at 20000 bytes.
abbrev world : Name → BudgetWorld ℕ Name Name
world limit = record {
  text = text;
  has_guard = true;
  env_var = some "FF_MAX_BYTES";
  getenv = λ name. some limit;
  guard_estimator = some (λ sql db. some (some 20000));
  estimator = none;
  exec = λ sql db. (suc db, returns "ok");
  duration_ms = 1;
  rowcount = λ result. none;
  post_estimate = λ result. none;
  extra_stats = λ result. none;
}

abbrev initial : BudgetState ℕ
initial = record {
  db = 0;
  env_limit = none;
  env_limit_populated = false;
  configured = some 100;
  last_estimate = none;
  active = false;
  buffer = [];
}

-- The limit of the variable goes before the configured one.
run_sample :
    ((run_sql (world "10kb") true "q" initial).1 ≡ raises (over_budget 20000 10240))
    × ((run_sql (world "10kb") true "q" initial).0.db ≡ 0)
    × ((run_sql (world "10mb") true "q" initial).1 ≡ returns "ok")
    × ((run_sql (world "10mb") true "q" initial).0.db ≡ 1)
    × ((run_sql (world "") true "q" initial).1 ≡ raises (over_budget 20000 100))
unfolding run_sql
run_sample = (refl, refl, refl, refl, refl)
