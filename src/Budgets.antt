-- ===== src/Budgets.antt =====
-- cli/run.py: budgets.yml against the statistics of a run. Messages are not modelled; an integer that the
-- statistics hold is not negative.
mod Sums
mod Metrics
pub mod Breaches
mod Samples
use Prim.Native.Char.{Char}
use fast_flow_transform.Prelude.{
  ℕ, zero, suc, ◌+◌, ◌-◌, ◌*◌, ◌/◌, ◌%◌, ◌^◌, ◌≤◌, ◌<◌, min, max, String, ◌≡◌, refl, sym, ap, ◌∙◌,
  ◌≢◌, ◌↔◌, ◌⊎◌, inl, inr, Bool, true, false, not, ◌&&◌, ◌||◌, Option, none, some, List, [], ◌∷◌,
  ◌++◌, map, foldl, arith, ltb, leb, ◌==◌, if◌then◌else◌, Bool-cases, ltb→lt, lt→ltb, length,
  length-append, is_empty, filter, concat, Option-cases, List-cases, all, any, All,
}
use fast_flow_transform.Prelude.Names.{
  Name, same, same_iff, same_lem, same_refl, member, add, set_of, IsNodup, member-add, add-IsNodup,
  member-set_of, set_of-IsNodup, member-append, member-filter, filter-IsNodup, IsSubset,
  length-subset, update, update-same, update-other,
}
use fast_flow_transform.Registry.{Tags, no_tags, one_tag, tag_list, Node, Nodes, get_node}
use fast_flow_transform.RunEngine.{NodeStats, zero_stats}

pub data Metric : Type 0 where
  bytes_scanned rows query_duration_ms : Metric

pub data Status : Type 0 where
  ok warn error : Status

-- `BudgetLimit`, `BudgetMetrics` and `BudgetsConfig`.
pub record BudgetLimit : Type 0 where
  pub warn_at : Option ℕ
  pub error_at : Option ℕ

pub record BudgetMetrics : Type 0 where
  pub of_bytes : Option BudgetLimit
  pub of_rows : Option BudgetLimit
  pub of_duration : Option BudgetLimit

pub record BudgetsConfig : Type 0 where
  pub total : Option BudgetMetrics
  pub models : List (Name × BudgetMetrics)
  pub tags : List (Name × BudgetMetrics)

-- The statistics of the models, and sums of them.
abbrev pub StatsByModel : Type 0
StatsByModel = List (Name × NodeStats)

-- An entry of the summary.
pub record Entry : Type 0 where
  pub metric : Metric
  pub value : ℕ
  pub limits : BudgetLimit
  pub status : Status

pub record Summary : Type 0 where
  pub total_entries : List Entry
  pub model_entries : List (Name × List Entry)
  pub tag_entries : List (Name × List Entry)

abbrev pub metric_of : Metric → NodeStats → ℕ
metric_of bytes_scanned s = s.bytes_scanned
metric_of rows s = s.rows
metric_of query_duration_ms s = s.query_duration_ms

-- `getattr(metrics, metric_name)`
abbrev pub limits_of : BudgetMetrics → Metric → Option BudgetLimit
limits_of m bytes_scanned = m.of_bytes
limits_of m rows = m.of_rows
limits_of m query_duration_ms = m.of_duration

abbrev pub all_metrics : List Metric
all_metrics = bytes_scanned ∷ rows ∷ query_duration_ms ∷ []

-- A limit that is `None` or 0 counts as absent.
abbrev pub is_set : Option ℕ → Bool
is_set none = false
is_set (some zero) = false
is_set (some (suc n)) = true

-- `limit and value > limit`
abbrev pub exceeds : Option ℕ → ℕ → Bool
exceeds none value = false
exceeds (some zero) value = false
exceeds (some (suc n)) value = ltb (suc n) value

-- `_eval_metric`
unfoldable pub eval_metric : ℕ → BudgetLimit → Status
eval_metric value l =
    if value == 0
    then ok
    else if not (is_set l.warn_at) && not (is_set l.error_at)
    then ok
    else if exceeds l.error_at value
    then error
    else if exceeds l.warn_at value
    then warn
    else ok

-- `_check_metric_limits`: whether a warning and whether an error is triggered.
unfoldable pub check_metric_limits : ℕ → BudgetLimit → Bool × Bool
check_metric_limits value l =
    if value == 0
    then (false, false)
    else if exceeds l.error_at value
    then (false, true)
    else if exceeds l.warn_at value
    then (true, false)
    else (false, false)

pub is_error : Status → Bool
is_error error = true
is_error _ = false

pub is_ok : Status → Bool
is_ok ok = true
is_ok _ = false

-- One round of the loop over the metrics: the entry that is written, and the error.
unfoldable pub metric_round : BudgetMetrics → NodeStats → Metric → List Entry × Bool
unfolding eval_metric is_error is_ok
metric_round metrics s m = elim (limits_of metrics m) [
  | none ↦ ([], false)
  | some l ↦
      let status = eval_metric (metric_of m s) l in
      let entry : Entry = record {
        metric = m;
        value = metric_of m s;
        limits = l;
        status = status;
      } in
      (
        if not (is_ok status) || (is_set l.warn_at || is_set l.error_at) then entry ∷ [] else [],
        is_error status,
      )
]

-- The loop that the three functions below share.
unfoldable pub metric_loop : BudgetMetrics → NodeStats → List Metric → List Entry × Bool
unfolding metric_round
metric_loop metrics s [] = ([], false)
metric_loop metrics s (m ∷ ms) =
    let (entries, bad) = metric_round metrics s m in
    let (more, worse) = metric_loop metrics s ms in (entries ++ more, bad || worse)

abbrev pub add_stats : NodeStats → NodeStats → NodeStats
add_stats t s = record t {
  bytes_scanned = t.bytes_scanned + s.bytes_scanned;
  rows = t.rows + s.rows;
  query_duration_ms = t.query_duration_ms + s.query_duration_ms;
}

-- `_aggregate_totals`
unfoldable pub aggregate_totals : NodeStats → StatsByModel → NodeStats
aggregate_totals t [] = t
aggregate_totals t ((k, s) ∷ rest) = aggregate_totals (add_stats t s) rest

-- `_evaluate_total_budgets`
unfoldable pub evaluate_total_budgets : BudgetsConfig → NodeStats → List Entry × Bool
unfolding metric_loop
evaluate_total_budgets cfg totals = elim cfg.total [
  | none ↦ ([], false)
  | some metrics ↦ metric_loop metrics totals all_metrics
]

unfoldable pub find_stats : StatsByModel → Name → Option NodeStats
find_stats [] k = none
find_stats ((j, s) ∷ rest) k = if same j k then some s else find_stats rest k

abbrev pub with_entries : Name → List Entry → List (Name × List Entry) → List (Name × List Entry)
with_entries k [] more = more
with_entries k (e ∷ es) more = (k, e ∷ es) ∷ more

-- The loop of `_evaluate_model_budgets` and of `_evaluate_tag_budgets`, over the items of the
-- configuration: what has no statistics is passed over.
unfoldable pub section_loop :
    List (Name × BudgetMetrics) → StatsByModel → List (Name × List Entry) × Bool
unfolding metric_loop find_stats
section_loop [] stats = ([], false)
section_loop ((k, metrics) ∷ rest) stats =
    let (more, worse) = section_loop rest stats in
    elim (find_stats stats k) [
      | none ↦ (more, worse)
      | some s ↦
          let (entries, bad) = metric_loop metrics s all_metrics in
          (with_entries k entries more, bad || worse)
    ]

-- `[str(t) for t in tags]`: a text is taken apart into its characters.
unfoldable pub characters : Name → List Name
characters String.[] = []
characters (String.◌∷◌ c s) = String.◌∷◌ c String.[] ∷ characters s

unfoldable pub tags_str : Tags → List Name
unfolding characters
tags_str no_tags = []
tags_str (one_tag t) = characters t
tags_str (tag_list ts) = ts

-- `aggr[...] += ...` where the tag has a budget.
unfoldable pub add_to_tag : StatsByModel → Name → NodeStats → StatsByModel
add_to_tag [] tag s = []
add_to_tag ((j, t) ∷ rest) tag s =
    if same j tag then (j, add_stats t s) ∷ rest else (j, t) ∷ add_to_tag rest tag s

unfoldable pub add_to_tags : StatsByModel → List Name → NodeStats → StatsByModel
unfolding add_to_tag
add_to_tags totals [] s = totals
add_to_tags totals (tag ∷ tags) s = add_to_tags (add_to_tag totals tag s) tags s

-- The loop of `_aggregate_tag_totals` over the statistics.
unfoldable pub tag_loop : Nodes → StatsByModel → StatsByModel → StatsByModel
unfolding get_node add_to_tags tags_str
tag_loop ns totals [] = totals
tag_loop ns totals ((k, s) ∷ rest) = elim (get_node k ns) [
  | none ↦ tag_loop ns totals rest
  | some n ↦ tag_loop ns (add_to_tags totals (tags_str n.meta.tags) s) rest
]

-- `_aggregate_tag_totals`
unfoldable pub aggregate_tag_totals : BudgetsConfig → Nodes → StatsByModel → StatsByModel
unfolding tag_loop zero_stats
aggregate_tag_totals cfg ns stats = tag_loop ns (map (λ e. (e.0, zero_stats)) cfg.tags) stats

abbrev pub nonempty_summary : Summary → Option Summary
nonempty_summary s =
    if is_empty s.total_entries && (is_empty s.model_entries && is_empty s.tag_entries)
    then none
    else some s

-- `_evaluate_budgets`, from the configuration that was read, if there is one.
unfoldable pub evaluate_budgets :
    Option BudgetsConfig → Nodes → StatsByModel → Bool × Option Summary
unfolding aggregate_totals evaluate_total_budgets section_loop aggregate_tag_totals zero_stats
evaluate_budgets none ns stats = (false, none)
evaluate_budgets (some cfg) ns [] = (false, none)
evaluate_budgets (some cfg) ns (s ∷ rest) =
    let stats = s ∷ rest in
    let (total, bad) = evaluate_total_budgets cfg (aggregate_totals zero_stats stats) in
    let (models, worse) = section_loop cfg.models stats in
    let (tags, worst) = section_loop cfg.tags (aggregate_tag_totals cfg ns stats) in
    (
      bad || (worse || worst),
      nonempty_summary
          (record { total_entries = total; model_entries = models; tag_entries = tags }),
    )
