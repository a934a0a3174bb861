-- ===== src/QueryBudget.antt =====
-- executors/budget/core.py, executors/budget/runtime/base.py and the budget of executors/base.py: a query is
-- estimated before it is executed. A number that is not positive is 0; `D` is the type of databases and `R`
-- of results.
pub mod Limits
pub mod Guarded
mod Samples
use mathlib.Core.Option
use fast_flow_transform.Prelude.{
  ℕ, zero, suc, ◌+◌, ◌-◌, ◌*◌, ◌/◌, ◌%◌, ◌^◌, ◌≤◌, ◌<◌, min, max, String, ◌≡◌, refl, sym, ap, ◌∙◌,
  ◌≢◌, ◌↔◌, ◌⊎◌, inl, inr, Bool, true, false, not, ◌&&◌, ◌||◌, Option, none, some, List, [], ◌∷◌,
  ◌++◌, map, foldl, arith, ltb, leb, ◌==◌, if◌then◌else◌, Bool-cases, ltb→lt, lt→ltb, length,
  length-append, is_empty, filter, concat, Option-cases, List-cases, all, any, All,
}
use fast_flow_transform.Prelude.Names.{
  Name, same, same_iff, same_lem, same_refl, member, add, set_of, IsNodup, member-add, add-IsNodup,
  member-set_of, set_of-IsNodup, member-append, member-filter, filter-IsNodup, IsSubset,
  length-subset, update, update-same, update-other,
}
use fast_flow_transform.Prelude.Results.{Result, returns, raises}
use fast_flow_transform.Registry.{strip_suffix}
use fast_flow_transform.RunEngine.{QueryStats}

-- `text.strip().lower()` without "_" and ",", `text.strip()`, and `int(float(text) * factor)`, which is
-- `none` for the `ValueError` of `float`.
pub record BudgetText : Type 0 where
  pub plain : Name → Name
  pub strip : Name → Name
  pub scaled : Name → ℕ → Option ℕ

abbrev pub suffixes : List (Name × ℕ)
suffixes =
    ("tb", 1024 ^ 4)
    ∷ ("t", 1024 ^ 4)
    ∷ ("gb", 1024 ^ 3)
    ∷ ("g", 1024 ^ 3)
    ∷ ("mb", 1024 ^ 2)
    ∷ ("m", 1024 ^ 2)
    ∷ ("kb", 1024)
    ∷ ("k", 1024)
    ∷ []

-- The loop over the suffixes: the number and its unit.
unfoldable pub split_unit : BudgetText → List (Name × ℕ) → Name → Name × ℕ
unfolding strip_suffix
split_unit t [] text = (text, 1)
split_unit t ((suffix, factor) ∷ units) text =
    let rest = split_unit t units text in
    elim (strip_suffix suffix text) [ none ↦ rest | some number ↦ (t.strip number, factor) ]

abbrev pub positive : Option ℕ → Option ℕ
positive none = none
positive (some zero) = none
positive (some (suc n)) = some (suc n)

-- `parse_max_bytes_env`, of the value of the variable.
unfoldable pub parse_max_bytes_env : BudgetText → Option Name → Option ℕ
unfolding split_unit
parse_max_bytes_env t none = none
parse_max_bytes_env t (some raw) =
    if same raw "" || same (t.plain raw) ""
    then none
    else let (number, factor) = split_unit t suffixes (t.plain raw) in
      positive (t.scaled number factor)

-- An estimate of a query, which may raise (`none`) and may be unknown (`some none`).
abbrev pub Estimator : Type 0 → Type 0
Estimator D = Option (Name → D → Option (Option ℕ))

pub data BudgetError (E : Type 0) : Type 0 where
  over_budget : (value limit : ℕ) → BudgetError E
  query_failed : E → BudgetError E

-- `has_guard` and `env_var` are the guard's, `guard_estimator` is the method that it names, and `estimator`
-- the `estimate_query_bytes` of the runtime. The last three read a result; an exception is `none`.
pub record BudgetWorld (D R E : Type 0) : Type 0 where
  pub text : BudgetText
  pub has_guard : Bool
  pub env_var : Option Name
  pub getenv : Name → Option Name
  pub guard_estimator : Estimator D
  pub estimator : Estimator D
  pub exec : Name → D → D × Result E R
  pub duration_ms : ℕ
  pub rowcount : R → Option ℕ
  pub post_estimate : R → Option ℕ
  pub extra_stats : R → Option QueryStats

pub record BudgetState (D : Type 0) : Type 0 where
  pub db : D
  pub env_limit : Option ℕ
  pub env_limit_populated : Bool
  pub configured : Option ℕ
  pub last_estimate : Option ℕ
  pub active : Bool
  pub buffer : List QueryStats

module _ {D R E : Type 0} (w : BudgetWorld D R E) where
  -- `configure_query_budget_limit`
  unfoldable pub configure_query_budget_limit : Option ℕ → BudgetState D → BudgetState D
  configure_query_budget_limit limit s = record s { configured = positive limit }

  -- `_env_limit_value`: the variable is read once.
  unfoldable pub read_env : BudgetState D → BudgetState D
  unfolding parse_max_bytes_env
  read_env s = elim w.env_var [
    | none ↦ s
    | some name ↦ if s.env_limit_populated then s else record s {
      env_limit = parse_max_bytes_env w.text (w.getenv name);
      env_limit_populated = true;
    }
  ]

  abbrev pub env_limit_value : BudgetState D → Option ℕ
  env_limit_value s = elim w.env_var [ none ↦ none | some _ ↦ s.env_limit ]

  -- `resolve_limit` in a state in which the variable was read: the variable, or else the configured limit.
  unfoldable pub resolve_limit : BudgetState D → Option ℕ
  resolve_limit s = elim (positive (env_limit_value s)) [
    | some limit ↦ some limit
    | none ↦ positive s.configured
  ]

  -- What `enforce` compares with the limit: nothing without an estimator, when it raises, and for an
  -- estimate that is unknown or not positive.
  unfoldable pub guard_estimate : Name → D → Option ℕ
  guard_estimate sql db = elim w.guard_estimator [
    | none ↦ none
    | some estimate ↦ elim (estimate sql db) [ none ↦ none | some value ↦ positive value ]
  ]

  -- `enforce`
  unfoldable pub enforce : ℕ → Option ℕ → Result (BudgetError E) (Option ℕ)
  enforce limit none = returns none
  enforce limit (some value) =
      if ltb limit value then raises (over_budget value limit) else returns (some value)

  -- `_set_query_budget_estimate`, where `enforce` returned.
  abbrev pub set_estimate : BudgetState D → Result (BudgetError E) (Option ℕ) → BudgetState D
  set_estimate s (raises e) = s
  set_estimate s (returns estimate) = record s { last_estimate = estimate }

  -- `_apply_budget_guard`, by the limit.
  unfoldable pub apply_limit :
      Name → BudgetState D → Option ℕ → BudgetState D × Result (BudgetError E) (Option ℕ)
  unfolding guard_estimate enforce
  apply_limit sql s none = (record s { last_estimate = none; active = false }, returns none)
  apply_limit sql s (some limit) =
      let estimate = enforce limit (guard_estimate sql s.db) in
      (set_estimate (record s { active = true }) estimate, estimate)

  unfoldable pub apply_budget_guard :
      Name → BudgetState D → BudgetState D × Result (BudgetError E) (Option ℕ)
  unfolding read_env resolve_limit apply_limit
  apply_budget_guard sql s =
      if w.has_guard
      then apply_limit sql (read_env s) (resolve_limit (read_env s))
      else (record s { last_estimate = none; active = false }, returns none)

  -- The estimate for the statistics, when no guard was active.
  unfoldable pub stats_estimate : Name → BudgetState D → Option ℕ → Option ℕ
  stats_estimate sql s (some n) = some n
  stats_estimate sql s none =
      if s.active
      then none
      else elim w.estimator [ none ↦ none | some estimate ↦ Option.get_or (estimate sql s.db) none ]

  abbrev or_option : Option ℕ → Option ℕ → Option ℕ
  or_option none b = b
  or_option (some a) b = some a

  -- `RowcountStatsAdapter.collect`
  unfoldable pub collect_stats : R → Option ℕ → QueryStats
  collect_stats result estimated =
      let bytes = or_option estimated (w.post_estimate result) in
      elim (w.extra_stats result) [
        | none ↦ record {
          bytes_processed = bytes;
          rows = w.rowcount result;
          duration_ms = some w.duration_ms;
        }
        | some extra ↦ record {
          bytes_processed = or_option extra.bytes_processed bytes;
          rows = or_option extra.rows (w.rowcount result);
          duration_ms = or_option extra.duration_ms (some w.duration_ms);
        }
      ]

  -- The end of `run_sql`, by what the query gave.
  abbrev pub record_result :
      Bool → BudgetState D → Option ℕ → D × Result E R → BudgetState D × Result (BudgetError E) R
  record_result record_stats s estimated (db, raises e) =
      (record s { db = db }, raises (query_failed e))
  record_result record_stats s estimated (db, returns result) = (
    record s {
      db = db;
      buffer = if record_stats then s.buffer ++ collect_stats result estimated ∷ [] else s.buffer;
    },
    returns result,
  )

  -- `run_sql`
  unfoldable pub run_sql : Bool → Name → BudgetState D → BudgetState D × Result (BudgetError E) R
  unfolding apply_budget_guard stats_estimate collect_stats
  run_sql record_stats sql s =
      let (s', guarded) = apply_budget_guard sql s in
      elim guarded [
        | raises e ↦ (s', raises e)
        | returns estimate ↦
            record_result record_stats s' (stats_estimate sql s' estimate) (w.exec sql s.db)
      ]
