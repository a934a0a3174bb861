-- ===== src/QueryBudget/Guarded.antt =====
-- What the guard lets through.
use fast_flow_transform.Prelude.{
  ℕ, ◌<◌, ◌≡◌, Bool, false, Option, none, some, [], ◌∷◌, ◌++◌, if◌then◌else◌,
}
use fast_flow_transform.Prelude.Names.{Name}
use fast_flow_transform.Prelude.Results.{Result, returns, raises}
use fast_flow_transform.RunEngine.{QueryStats}
use fast_flow_transform.QueryBudget.Limits.{InForce}
use fast_flow_transform.QueryBudget.{
  BudgetError, over_budget, query_failed, BudgetWorld, BudgetState, read_env, resolve_limit,
  guard_estimate, apply_limit, stats_estimate, record_result,
}

module _ {D R E : Type 0} (w : BudgetWorld D R E) where
  abbrev pub Exceeds : Name → BudgetState D → ℕ → ℕ → Type 0
  Exceeds sql s limit value =
      InForce w s limit × (guard_estimate w sql s.db ≡ some value) × (limit < value)

  -- The extra statistics of a result tell no bytes.
  abbrev pub GivesNoBytes : R → Type 0
  GivesNoBytes result = (q : QueryStats) → w.extra_stats result ≡ some q → q.bytes_processed ≡ none

  -- The outcomes of a guarded query.
  pub data Guarded (record_stats : Bool) (sql : Name) (s s' : BudgetState D)
      (r : Result (BudgetError E) R) : Type 0 where
    refused :
        (limit value : ℕ)
        → Exceeds sql s limit value
        → r ≡ raises (over_budget value limit)
        → (s'.db ≡ s.db) × (s'.buffer ≡ s.buffer) × (s'.last_estimate ≡ s.last_estimate)
        → Guarded record_stats sql s s' r
    broke :
        (e : E)
        → ((limit value : ℕ) → ¬ Exceeds sql s limit value)
        → (w.exec sql s.db).1 ≡ raises e
        → r ≡ raises (query_failed e)
        → (s'.db ≡ (w.exec sql s.db).0) × (s'.buffer ≡ s.buffer)
        → Guarded record_stats sql s s' r
    ran :
        (result : R) (entry : QueryStats)
        → ((limit value : ℕ) → ¬ Exceeds sql s limit value)
        → (w.exec sql s.db).1 ≡ returns result
        → r ≡ returns result
        → (s'.db ≡ (w.exec sql s.db).0)
          × (s'.buffer ≡ (if record_stats then s.buffer ++ entry ∷ [] else s.buffer))
        → ((limit value : ℕ)
            → InForce w s limit
            → guard_estimate w sql s.db ≡ some value
            → GivesNoBytes result
            → entry.bytes_processed ≡ some value)
        → Guarded record_stats sql s s' r

  -- A state after the guard, with what is the same as before it.
  abbrev Same : BudgetState D → BudgetState D → Type 0
  Same s s' = (s'.db ≡ s.db) × (s'.buffer ≡ s.buffer)

  -- What the guard decides.
  data Passed (sql : Name) (s s1 : BudgetState D) (r : Result (BudgetError E) (Option ℕ))
      : Type 0 where
    blocked :
        (limit value : ℕ)
        → Exceeds sql s limit value
        → r ≡ raises (over_budget value limit)
        → Same s s1 × (s1.last_estimate ≡ s.last_estimate)
        → Passed sql s s1 r
    passed :
        (estimate : Option ℕ)
        → r ≡ returns estimate
        → Same s s1
        → ((limit value : ℕ) → ¬ Exceeds sql s limit value)
        → ((limit value : ℕ)
            → InForce w s limit
            → guard_estimate w sql s.db ≡ some value
            → estimate ≡ some value)
        → Passed sql s s1 r

  abbrev outcome : Name → BudgetState D → Bool → BudgetState D × Result (BudgetError E) (Option ℕ)
  outcome sql s b =
      if b
      then apply_limit w sql (read_env w s) (resolve_limit w (read_env w s))
      else (record s { last_estimate = none; active = false }, returns none)

  abbrev after_guard :
      Bool
      → Name
      → BudgetState D
      → BudgetState D
      → Result (BudgetError E) (Option ℕ)
      → BudgetState D × Result (BudgetError E) R
  after_guard record_stats sql s s1 guarded = elim guarded [
    | raises e ↦ (s1, raises e)
    | returns estimate ↦
        record_result w record_stats s1 (stats_estimate w sql s1 estimate) (w.exec sql s.db)
  ]
