-- ===== src/Budgets/Breaches.antt =====
-- When the evaluation of the budgets reports an error.
use fast_flow_transform.Prelude.{
  ℕ, zero, ◌≡◌, refl, sym, ap, ◌∙◌, ◌↔◌, ◌⊎◌, inl, inr, true, ◌||◌, Option, none, some, List, [],
  ◌∷◌, map, arith, Bool-cases, Option-cases,
}
use fast_flow_transform.Prelude.Names.{Name, same_refl, member}
use mathlib.Core.Option
use fast_flow_transform.Registry.{Nodes}
use fast_flow_transform.RunEngine.{NodeStats, zero_stats}
use fast_flow_transform.Budgets.{
  Metric, BudgetMetrics, BudgetsConfig, StatsByModel, metric_of, all_metrics, metric_loop,
  aggregate_totals, evaluate_total_budgets, find_stats, section_loop, aggregate_tag_totals,
  evaluate_budgets,
}
use fast_flow_transform.Budgets.Metrics.{Breach, metric_loop_iff}
use fast_flow_transform.Budgets.Sums.{
  sum_of, metric_of-zero_stats, aggregate_totals-sum_of, tagged_sum,
  aggregate_tag_totals-tagged_sum,
}

-- A budget of the section is breached, by the values that `value` gives to its name, if there are any.
pub data SectionBreach (value : Name → Option (Metric → ℕ))
    : List (Name × BudgetMetrics) → Type 0 where
  here :
      {k : Name} {metrics : BudgetMetrics} {rest : List (Name × BudgetMetrics)} (v : Metric → ℕ)
      → value k ≡ some v
      → Breach metrics v
      → SectionBreach value ((k, metrics) ∷ rest)
  there :
      {e : Name × BudgetMetrics} {rest : List (Name × BudgetMetrics)}
      → SectionBreach value rest
      → SectionBreach value (e ∷ rest)

-- The values of a model, which are in the statistics if it ran, and those of a tag.
abbrev pub model_value : StatsByModel → Name → Option (Metric → ℕ)
model_value stats k = Option.map (λ s m. metric_of m s) (find_stats stats k)

abbrev pub tag_value : Nodes → StatsByModel → Name → Option (Metric → ℕ)
tag_value ns stats tag = some (λ m. tagged_sum ns tag m stats)

-- What an error means: the sums over all models, a model or the sums of a tag are over an error limit.
pub data BudgetError (cfg : BudgetsConfig) (ns : Nodes) (stats : StatsByModel) : Type 0 where
  of_total :
      (metrics : BudgetMetrics)
      → cfg.total ≡ some metrics
      → Breach metrics (λ m. sum_of m stats)
      → BudgetError cfg ns stats
  of_model : SectionBreach (model_value stats) cfg.models → BudgetError cfg ns stats
  of_tag : SectionBreach (tag_value ns stats) cfg.tags → BudgetError cfg ns stats

Breach-same :
    (metrics : BudgetMetrics) (v w : Metric → ℕ)
    → ((m : Metric) → v m ≡ w m)
    → Breach metrics v
    → Breach metrics w
Breach-same metrics v w e (m, l, q, (n, a, b, c)) = (m, l, q, (n, a, b, omega (arith, e m)))

-- The statistics give each name of a section the values that `value` gives it.
abbrev Fits : StatsByModel → (Name → Option (Metric → ℕ)) → List (Name × BudgetMetrics) → Type 0
Fits stats value section =
    (k : Name)
    → member k (map (λ e. e.0) section) ≡ true
    → ((find_stats stats k ≡ none) × (value k ≡ none))
      ⊎ ((s : NodeStats) × (v : Metric → ℕ) × (find_stats stats k ≡ some s)
          × (value k ≡ some v)
          × ((m : Metric) → metric_of m s ≡ v m))

section_loop_sound :
    (stats : StatsByModel) (value : Name → Option (Metric → ℕ))
    (section : List (Name × BudgetMetrics))
    → Fits stats value section
    → (section_loop section stats).1 ≡ true
    → SectionBreach value section
unfolding section_loop
section_loop_sound stats value [] f h = absurd (ground arith)
section_loop_sound stats value ((k, metrics) ∷ rest) f h =
    let later = section_loop_sound stats value rest (λ j m. f j (ground arith)) in
    elim (f k (ground (arith, same_refl k))) [
      | inl (e, _) ↦ there (later (ground arith))
      | inr (s, v, e, q, fits) ↦ elim (Bool-cases (metric_loop metrics s all_metrics).1) [
        | inl bad ↦
            here v q
              (Breach-same metrics (λ m. metric_of m s) v fits ((metric_loop_iff metrics s).0 bad))
        | inr fine ↦ there (later (ground arith))
      ]
    ]

section_loop_complete :
    (stats : StatsByModel) (value : Name → Option (Metric → ℕ))
    (section : List (Name × BudgetMetrics))
    → Fits stats value section
    → SectionBreach value section
    → (section_loop section stats).1 ≡ true
unfolding section_loop
section_loop_complete stats value [] f b = elim b [ ]
section_loop_complete stats value ((k, metrics) ∷ rest) f (here v q b) =
    elim (f k (ground (arith, same_refl k))) [
      | inl (_, a) ↦ absurd (ground (arith, sym a ∙ q))
      | inr (s, w, e, a, fits) ↦
          let same_v : w ≡ v = ap (λ o. Option.get_or o v) (sym a ∙ q) in
          let bad = (metric_loop_iff metrics s).1 (
            Breach-same metrics v (λ m. metric_of m s) (λ m. sym (fits m ∙ ap (λ g. g m) same_v))
              b) in
          ground arith
    ]
section_loop_complete stats value ((k, metrics) ∷ rest) f (there b) =
    let later = section_loop_complete stats value rest (λ j m. f j (ground arith)) b in
    elim (Option-cases (find_stats stats k)) [ inl e ↦ ground arith | inr (s, e) ↦ ground arith ]

model_value-Fits :
    (stats : StatsByModel) (section : List (Name × BudgetMetrics))
    → Fits stats (model_value stats) section
model_value-Fits stats section k m = elim (Option-cases (find_stats stats k)) [
  | inl e ↦ inl (e, rw e refl)
  | inr (s, e) ↦ inr (s, λ m. metric_of m s, e, rw e refl, λ m. refl)
]

module _ (cfg : BudgetsConfig) (ns : Nodes) (stats : StatsByModel) where
  tag_value-Fits : Fits (aggregate_tag_totals cfg ns stats) (tag_value ns stats) cfg.tags
  tag_value-Fits k m =
      let (s, e, sums) = aggregate_tag_totals-tagged_sum cfg ns stats k m in
      inr (s, λ m. tagged_sum ns k m stats, e, refl, sums)

  total_iff : ((evaluate_total_budgets cfg (aggregate_totals zero_stats stats)).1 ≡ true) ↔ (
      (metrics : BudgetMetrics) × (cfg.total ≡ some metrics) × Breach metrics (λ m. sum_of m stats))
  unfolding evaluate_total_budgets
  total_iff = elim (Option-cases cfg.total) [
    | inl e ↦ (λ h. absurd (ground arith), λ (metrics, q, b). absurd (ground (arith, sym e ∙ q)))
    | inr (metrics, e) ↦
        let totals = aggregate_totals zero_stats stats in
        let sums : (m : Metric) → metric_of m totals ≡ sum_of m stats = (λ m.
          omega (arith, aggregate_totals-sum_of m zero_stats stats, metric_of-zero_stats m)) in
        let (over, back) = metric_loop_iff metrics totals in
        (
          λ h. (
            metrics,
            e,
            Breach-same metrics (λ m. metric_of m totals) (λ m. sum_of m stats) sums
                (over (ground arith)),
          ),
          λ (metrics', q, b).
              let same_metrics : metrics' ≡ metrics =
                ap (λ o. Option.get_or o metrics) (sym q ∙ e) in
              let b' : Breach metrics (λ m. sum_of m stats) = rw (← same_metrics) b in
              let bad = back (
                Breach-same metrics (λ m. sum_of m stats) (λ m. metric_of m totals)
                  (λ m. sym (sums m)) b') in
              ground arith,
        )
  ]

  sections_iff :
      ((evaluate_total_budgets cfg (aggregate_totals zero_stats stats)).1
          || ((section_loop cfg.models stats).1
              || (section_loop cfg.tags (aggregate_tag_totals cfg ns stats)).1)
        ≡ true)
      ↔ BudgetError cfg ns stats
  sections_iff = (
    λ h. elim (Bool-cases (evaluate_total_budgets cfg (aggregate_totals zero_stats stats)).1) [
      | inl e ↦ let (metrics, q, b) = total_iff.0 e in of_total metrics q b
      | inr e ↦ elim (Bool-cases (section_loop cfg.models stats).1) [
        | inl f ↦ of_model (
            section_loop_sound stats (model_value stats) cfg.models
              (model_value-Fits stats cfg.models) f)
        | inr f ↦ of_tag (
            section_loop_sound (aggregate_tag_totals cfg ns stats) (tag_value ns stats) cfg.tags
              tag_value-Fits (ground arith))
      ]
    ],
    λ e. elim e [
      | of_total metrics q b ↦ let bad = total_iff.1 (metrics, q, b) in ground arith
      | of_model b ↦
          let bad =
            section_loop_complete stats (model_value stats) cfg.models
              (model_value-Fits stats cfg.models) b in
          ground arith
      | of_tag b ↦
          let bad =
            section_loop_complete (aggregate_tag_totals cfg ns stats) (tag_value ns stats) cfg.tags
              tag_value-Fits b in
          ground arith
    ],
  )

no_zero-Breach : (metrics : BudgetMetrics) → ¬ Breach metrics (λ m. 0)
no_zero-Breach metrics (m, l, q, (n, a, b, c)) = omega arith

no_model-Breach : (section : List (Name × BudgetMetrics)) → ¬ SectionBreach (model_value []) section
unfolding find_stats
no_model-Breach ((k, metrics) ∷ rest) (here v q b) = absurd (ground arith)
no_model-Breach ((k, metrics) ∷ rest) (there b) = no_model-Breach rest b
no_model-Breach [] b = elim b [ ]

no_tag-Breach :
    (ns : Nodes) (section : List (Name × BudgetMetrics)) → ¬ SectionBreach (tag_value ns []) section
no_tag-Breach ns ((k, metrics) ∷ rest) (here v q b) =
    let zero_v : (λ (m : Metric). zero) ≡ v = ap (λ o. Option.get_or o v) q in
    no_zero-Breach metrics (Breach-same metrics v (λ m. 0) (λ m. ap (λ g. g m) (sym zero_v)) b)
no_tag-Breach ns ((k, metrics) ∷ rest) (there b) = no_tag-Breach ns rest b
no_tag-Breach ns [] b = elim b [ ]

-- The evaluation reports an error exactly when an error limit is set and exceeded: by the sums over all
-- models, by a model that ran, or by the sums over the models by their tags, where a model counts as often as
-- the tag stands in its list of tags.
pub evaluate_budgets_iff :
    (cfg : BudgetsConfig) (ns : Nodes) (stats : StatsByModel)
    → ((evaluate_budgets (some cfg) ns stats).0 ≡ true) ↔ BudgetError cfg ns stats
unfolding evaluate_budgets
evaluate_budgets_iff cfg ns [] = (
  λ h. absurd (ground arith),
  λ e. elim e [
    | of_total metrics q b ↦ absurd (no_zero-Breach metrics b)
    | of_model b ↦ absurd (no_model-Breach cfg.models b)
    | of_tag b ↦ absurd (no_tag-Breach ns cfg.tags b)
  ],
)
evaluate_budgets_iff cfg ns (s ∷ rest) = sections_iff cfg ns (s ∷ rest)
