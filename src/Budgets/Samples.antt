-- ===== src/Budgets/Samples.antt =====
-- Budgets of small runs.
use fast_flow_transform.Prelude.{ℕ, ◌≡◌, refl, ◌↔◌, true, false, none, some, [], ◌∷◌}
use fast_flow_transform.Prelude.Names.{Name}
use fast_flow_transform.Registry.{Tags, one_tag, tag_list, Node, Nodes}
use fast_flow_transform.RunEngine.{NodeStats}
use fast_flow_transform.Dag.Samples.{model}
use fast_flow_transform.Budgets.{
  BudgetLimit, BudgetMetrics, BudgetsConfig, StatsByModel, tags_str, evaluate_budgets,
}
use fast_flow_transform.Budgets.Breaches.{BudgetError, evaluate_budgets_iff}

abbrev tagged : Name → Tags → Node
tagged k t = record (model k []) { meta = record (model k []).meta { tags = t } }

abbrev two_models : Nodes
two_models = tagged "x" (tag_list ("heavy" ∷ "raw" ∷ [])) ∷ tagged "y" (one_tag "heavy") ∷ []

abbrev many_rows : ℕ → NodeStats
many_rows n = record { bytes_scanned = 0; rows = n; query_duration_ms = 0; cached = false }

abbrev stats : StatsByModel
stats = ("x", many_rows 70) ∷ ("y", many_rows 40) ∷ []

abbrev up_to_100 : BudgetLimit
up_to_100 = record { warn_at = some 50; error_at = some 100 }

abbrev row_budget : BudgetMetrics
row_budget = record { of_bytes = none; of_rows = some up_to_100; of_duration = none }

abbrev all_rows : BudgetsConfig
all_rows = record {
  total = some row_budget;
  models = ("x", row_budget) ∷ [];
  tags = ("heavy", row_budget) ∷ [];
}

abbrev heavy_only : BudgetsConfig
heavy_only = record all_rows { total = none }

total_over : (evaluate_budgets (some all_rows) two_models stats).0 ≡ true
unfolding evaluate_budgets
total_over = refl

-- The 40 rows of "y" do not count for its tag, which is a text.
tag_under : (evaluate_budgets (some heavy_only) two_models stats).0 ≡ false
unfolding evaluate_budgets
tag_under = refl

text_taken_apart : tags_str (one_tag "raw") ≡ "r" ∷ "a" ∷ "w" ∷ []
unfolding tags_str
text_taken_apart = refl

evaluate_budgets_iff_example :
    ((evaluate_budgets (some all_rows) two_models stats).0 ≡ true)
    ↔ BudgetError all_rows two_models stats
evaluate_budgets_iff_example = evaluate_budgets_iff all_rows two_models stats
