-- ===== src/Budgets/Sums.antt =====
-- The totals are sums over the models.
use fast_flow_transform.Prelude.{
  ℕ, ◌+◌, ◌*◌, ◌≡◌, refl, ◌∙◌, inl, inr, Bool, true, false, ◌&&◌, none, some, List, [], ◌∷◌, map,
  arith, if◌then◌else◌, Bool-cases, Option-cases,
}
use fast_flow_transform.Prelude.Names.{Name, same, same_iff, member}
use fast_flow_transform.Registry.{Nodes, get_node}
use fast_flow_transform.RunEngine.{NodeStats, zero_stats}
use fast_flow_transform.Budgets.{
  Metric, bytes_scanned, rows, query_duration_ms, BudgetMetrics, BudgetsConfig, StatsByModel,
  metric_of, add_stats, aggregate_totals, find_stats, tags_str, add_to_tag, add_to_tags, tag_loop,
  aggregate_tag_totals,
}

metric_of-add_stats :
    (m : Metric) (t s : NodeStats) → metric_of m (add_stats t s) ≡ metric_of m t + metric_of m s
metric_of-add_stats bytes_scanned t s = refl
metric_of-add_stats rows t s = refl
metric_of-add_stats query_duration_ms t s = refl

pub metric_of-zero_stats : (m : Metric) → metric_of m zero_stats ≡ 0
unfolding zero_stats
metric_of-zero_stats bytes_scanned = refl
metric_of-zero_stats rows = refl
metric_of-zero_stats query_duration_ms = refl

-- The sum of a metric over the models.
abbrev pub sum_of : Metric → StatsByModel → ℕ
sum_of m [] = 0
sum_of m ((k, s) ∷ rest) = metric_of m s + sum_of m rest

pub aggregate_totals-sum_of :
    (m : Metric) (t : NodeStats) (stats : StatsByModel)
    → metric_of m (aggregate_totals t stats) ≡ metric_of m t + sum_of m stats
unfolding aggregate_totals
aggregate_totals-sum_of m t [] = omega arith
aggregate_totals-sum_of m t ((k, s) ∷ rest) =
    omega (arith, aggregate_totals-sum_of m (add_stats t s) rest, metric_of-add_stats m t s)

-- How often a name stands in a list.
abbrev pub occurrences : Name → List Name → ℕ
occurrences k [] = 0
occurrences k (x ∷ xs) = (if same x k then 1 else 0) + occurrences k xs

-- The tags of the model that a name of the statistics finds.
pub tags_of : Nodes → Name → List Name
tags_of ns k = elim (get_node k ns) [ none ↦ [] | some n ↦ tags_str n.meta.tags ]

-- The sum of a metric over the models, each as often as it has the tag.
abbrev pub tagged_sum : Nodes → Name → Metric → StatsByModel → ℕ
tagged_sum ns tag m [] = 0
tagged_sum ns tag m ((k, s) ∷ rest) =
    occurrences tag (tags_of ns k) * metric_of m s + tagged_sum ns tag m rest

-- The total of a tag, 0 where it has none.
abbrev pub total_of : Metric → StatsByModel → Name → ℕ
total_of m totals tag = elim (find_stats totals tag) [ none ↦ 0 | some s ↦ metric_of m s ]

abbrev pub has_total : StatsByModel → Name → Bool
has_total totals tag = elim (find_stats totals tag) [ none ↦ false | some s ↦ true ]

add_to_tag-total :
    (m : Metric) (totals : StatsByModel) (tag : Name) (s : NodeStats) (j : Name)
    → (has_total (add_to_tag totals tag s) j ≡ has_total totals j)
      × (total_of m (add_to_tag totals tag s) j
          ≡ total_of m totals j + (if has_total totals j && same tag j then metric_of m s else 0))
unfolding add_to_tag find_stats
add_to_tag-total m [] tag s j = (refl, refl)
add_to_tag-total m ((i, t) ∷ rest) tag s j =
    let ih = add_to_tag-total m rest tag s j in
    ground
      (arith, ih.0, ih.1, metric_of-add_stats m t s, same_iff i tag, same_iff i j, same_iff tag j)

add_to_tags-total :
    (m : Metric) (totals : StatsByModel) (tags : List Name) (s : NodeStats) (j : Name)
    → has_total totals j ≡ true
    → (has_total (add_to_tags totals tags s) j ≡ true)
      × (total_of m (add_to_tags totals tags s) j
          ≡ total_of m totals j + occurrences j tags * metric_of m s)
unfolding add_to_tags
add_to_tags-total m totals [] s j h = (h, omega arith)
add_to_tags-total m totals (tag ∷ tags) s j h =
    let (kept, grown) = add_to_tag-total m totals tag s j in
    let (kept', grown') = add_to_tags-total m (add_to_tag totals tag s) tags s j (kept ∙ h) in
    (
      kept',
      elim (Bool-cases (same tag j)) [
        | inl e ↦ rw e (grind (arith, grown, grown', h, e))
        | inr e ↦ rw e (grind (arith, grown, grown', h, e))
      ],
    )

tag_loop-total :
    (m : Metric) (ns : Nodes) (totals stats : StatsByModel) (j : Name)
    → has_total totals j ≡ true
    → (has_total (tag_loop ns totals stats) j ≡ true)
      × (total_of m (tag_loop ns totals stats) j ≡ total_of m totals j + tagged_sum ns j m stats)
unfolding tag_loop tags_of
tag_loop-total m ns totals [] j h = (h, omega arith)
tag_loop-total m ns totals ((k, s) ∷ rest) j h = elim (Option-cases (get_node k ns)) [
  | inl e ↦
      let (kept, grown) = tag_loop-total m ns totals rest j h in
      rw (e, tag_loop, tags_of) (kept, omega (arith, grown))
  | inr (n, e) ↦
      let (kept, grown) = add_to_tags-total m totals (tags_str n.meta.tags) s j h in
      let (kept', grown') =
        tag_loop-total m ns (add_to_tags totals (tags_str n.meta.tags) s) rest j kept in
      rw (e, tag_loop, tags_of) (kept', omega (arith, grown, grown'))
]

start_total :
    (m : Metric) (tags : List (Name × BudgetMetrics)) (j : Name)
    → (has_total (map (λ e. (e.0, zero_stats)) tags) j ≡ member j (map (λ e. e.0) tags))
      × (total_of m (map (λ e. (e.0, zero_stats)) tags) j ≡ 0)
unfolding find_stats
start_total m [] j = (refl, refl)
start_total m ((k, b) ∷ tags) j =
    let ih = start_total m tags j in
    ground (arith, ih.0, ih.1, metric_of-zero_stats m, same_iff k j, same_iff j k)

-- The totals of a tag that has a budget are the sums over the models that have the tag.
pub aggregate_tag_totals-tagged_sum :
    (cfg : BudgetsConfig) (ns : Nodes) (stats : StatsByModel) (tag : Name)
    → member tag (map (λ e. e.0) cfg.tags) ≡ true
    → (s : NodeStats) × (find_stats (aggregate_tag_totals cfg ns stats) tag ≡ some s)
      × ((m : Metric) → metric_of m s ≡ tagged_sum ns tag m stats)
unfolding aggregate_tag_totals
aggregate_tag_totals-tagged_sum cfg ns stats tag h =
    let start = map (λ e. (e.0, zero_stats)) cfg.tags in
    let there : (m : Metric) → has_total start tag ≡ true =
      (λ m. (start_total m cfg.tags tag).0 ∙ h) in
    let kept = (tag_loop-total rows ns start stats tag (there rows)).0 in
    elim (Option-cases (find_stats (tag_loop ns start stats) tag)) [
      | inl e ↦ absurd (ground (arith, kept, e))
      | inr (s, e) ↦ (
        s,
        e,
        λ m.
            let grown = (tag_loop-total m ns start stats tag (there m)).1 in
            let zero_start = (start_total m cfg.tags tag).1 in
            let total : total_of m (tag_loop ns start stats) tag ≡ metric_of m s =
              rw (total_of, e) refl in
            omega (arith, grown, zero_start, total),
      )
    ]
