-- ===== src/Budgets/Metrics.antt =====
-- One metric against its limits.
use fast_flow_transform.Prelude.{
  ℕ, zero, suc, ◌<◌, ◌≡◌, refl, sym, ap, ◌∙◌, ◌↔◌, inl, inr, true, false, Option, none, some, arith,
  Bool-cases, Option-cases,
}
use mathlib.Core.Option
use fast_flow_transform.RunEngine.{NodeStats}
use fast_flow_transform.Budgets.{
  Metric, bytes_scanned, rows, query_duration_ms, ok, warn, error, BudgetLimit, BudgetMetrics,
  metric_of, limits_of, all_metrics, is_set, exceeds, eval_metric, check_metric_limits, is_error,
  metric_round, metric_loop,
}

-- A limit is given, it is not 0, and the value is above it.
abbrev pub IsOver : Option ℕ → ℕ → Type 0
IsOver limit value = (n : ℕ) × (limit ≡ some n) × (0 < n) × (n < value)

exceeds_iff : (limit : Option ℕ) (value : ℕ) → (exceeds limit value ≡ true) ↔ IsOver limit value
exceeds_iff none value = (λ h. absurd (ground arith), λ h. absurd (ground (arith, h.1)))
exceeds_iff (some zero) value = (λ h. absurd (ground arith), λ h. absurd (ground (arith, h.1, h.2)))
exceeds_iff (some (suc n)) value =
    (λ h. (suc n, refl, omega arith, ground arith), λ h. ground (arith, h.1, h.3))

exceeds-is_set : (limit : Option ℕ) (value : ℕ) → exceeds limit value ≡ true → is_set limit ≡ true
exceeds-is_set none value h = absurd (ground arith)
exceeds-is_set (some zero) value h = absurd (ground arith)
exceeds-is_set (some (suc n)) value h = refl

exceeds-zero : (limit : Option ℕ) → exceeds limit 0 ≡ false
exceeds-zero none = refl
exceeds-zero (some zero) = refl
exceeds-zero (some (suc n)) = ground arith

-- `_eval_metric` gives an error exactly when an error limit is set and the value is above it.
pub eval_metric_iff :
    (value : ℕ) (l : BudgetLimit)
    → (is_error (eval_metric value l) ≡ true) ↔ IsOver l.error_at value
unfolding eval_metric is_error
eval_metric_iff value l =
    let (over, back) = exceeds_iff l.error_at value in
    (
      λ h. over (ground arith),
      λ h.
          let e = back h in
          ground (
            arith,
            exceeds-is_set l.error_at value,
            exceeds-zero l.error_at,
            ap (exceeds l.error_at),
          ),
    )

-- The two evaluations of a metric agree: `_check_metric_limits` triggers the warning or the error that
-- `_eval_metric` returns.
check_metric_limits-eval_metric :
    (value : ℕ) (l : BudgetLimit)
    → check_metric_limits value l ≡ (elim (eval_metric value l) [
      | ok ↦ (false, false)
      | warn ↦ (true, false)
      | error ↦ (false, true)
    ])
unfolding check_metric_limits eval_metric
check_metric_limits-eval_metric value l =
    ground (arith, exceeds-is_set l.error_at value, exceeds-is_set l.warn_at value)

-- One of the metrics is over its error limit.
abbrev pub Breach : BudgetMetrics → (Metric → ℕ) → Type 0
Breach metrics value =
    (m : Metric) × (l : BudgetLimit) × (limits_of metrics m ≡ some l) × IsOver l.error_at (value m)

metric_round_iff :
    (metrics : BudgetMetrics) (s : NodeStats) (m : Metric)
    → ((metric_round metrics s m).1 ≡ true)
      ↔ ((l : BudgetLimit) × (limits_of metrics m ≡ some l) × IsOver l.error_at (metric_of m s))
unfolding metric_round
metric_round_iff metrics s m = elim (Option-cases (limits_of metrics m)) [
  | inl e ↦ (λ h. absurd (ground arith), λ h. absurd (ground (arith, e, h.1)))
  | inr (l, e) ↦
      let (over, back) = eval_metric_iff (metric_of m s) l in
      (
        λ h. (l, e, over (ground arith)),
        λ (l', q, o).
            let same_l : l' ≡ l = ap (λ x. Option.get_or x l) (sym q ∙ e) in
            let o' : IsOver l.error_at (metric_of m s) = rw (← same_l) o in
            let bad = back o' in ground (arith, e),
      )
]

-- The loop over all metrics reports an error exactly when one of them is over its error limit.
pub metric_loop_iff :
    (metrics : BudgetMetrics) (s : NodeStats)
    → ((metric_loop metrics s all_metrics).1 ≡ true) ↔ Breach metrics (λ m. metric_of m s)
unfolding metric_loop
metric_loop_iff metrics s =
    let (b, b') = metric_round_iff metrics s bytes_scanned in
    let (r, r') = metric_round_iff metrics s rows in
    let (d, d') = metric_round_iff metrics s query_duration_ms in
    (
      λ h. elim (Bool-cases (metric_round metrics s bytes_scanned).1) [
        | inl e ↦ let (l, q, o) = b e in (bytes_scanned, l, q, o)
        | inr e ↦ elim (Bool-cases (metric_round metrics s rows).1) [
          | inl f ↦ let (l, q, o) = r f in (rows, l, q, o)
          | inr f ↦ let (l, q, o) = d (ground arith) in (query_duration_ms, l, q, o)
        ]
      ],
      by_metric b' r' d',
    )
  where
    by_metric :
        (((l : BudgetLimit) × (limits_of metrics bytes_scanned ≡ some l)
            × IsOver l.error_at (metric_of bytes_scanned s))
          → (metric_round metrics s bytes_scanned).1 ≡ true)
        → (((l : BudgetLimit) × (limits_of metrics rows ≡ some l)
              × IsOver l.error_at (metric_of rows s))
            → (metric_round metrics s rows).1 ≡ true)
        → (((l : BudgetLimit) × (limits_of metrics query_duration_ms ≡ some l)
              × IsOver l.error_at (metric_of query_duration_ms s))
            → (metric_round metrics s query_duration_ms).1 ≡ true)
        → Breach metrics (λ m. metric_of m s)
        → (metric_loop metrics s all_metrics).1 ≡ true
    by_metric b r d (bytes_scanned, l, q, o) = let x = b (l, q, o) in ground arith
    by_metric b r d (rows, l, q, o) = let x = r (l, q, o) in ground arith
    by_metric b r d (query_duration_ms, l, q, o) = let x = d (l, q, o) in ground arith
