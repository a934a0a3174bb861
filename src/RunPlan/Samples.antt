-- ===== src/RunPlan/Samples.antt =====
-- Plans of small projects.
use fast_flow_transform.Prelude.{
  ℕ, String, ◌≡◌, refl, ◌↔◌, true, false, none, some, List, [], ◌∷◌, arith, if◌then◌else◌, All,
}
use fast_flow_transform.Prelude.Names.{Name, same, same_iff}
use fast_flow_transform.Registry.{Nodes}
use fast_flow_transform.Dag.{ordered, missing_deps}
use fast_flow_transform.Dag.Edges.{deps_of}
use fast_flow_transform.Dag.Ends.{IsComplete, IsRanking}
use fast_flow_transform.Dag.Levels.{IsLevelOrder}
use fast_flow_transform.Dag.Samples.{model}
use fast_flow_transform.Selection.Tokens.{TokenText, parse_select, compile_selector}
use fast_flow_transform.Selection.Tokens.Accepts.{Accepts, compile_selector_iff}
use fast_flow_transform.RunPlan.{
  Options, Outside, planned, sub_nodes, levels_for_run, wanted_names, plan,
}
use fast_flow_transform.RunPlan.Complete.{wanted_levels}

-- Words are parted by blanks, and a glob matches itself.
abbrev pub plain : TokenText
plain = record {
  is_space = λ c. same (String.◌∷◌ c String.[]) " ";
  lower = λ t. t;
  fnmatch = λ name pat. same name pat;
}

-- "z" joins "x" and "y".
abbrev join : Nodes
join = model "z" ("x" ∷ "y" ∷ []) ∷ model "x" [] ∷ model "y" [] ∷ []

abbrev no_options : Options
no_options = record { select = none; exclude = none; rebuild = false; rebuild_only = none }

abbrev only_x : Options
only_x = record no_options { select = some ("x tag:none" ∷ []) }

abbrev on_x : Outside
on_x = record { rows = []; modified = []; changed = some ("x" ∷ []) }

abbrev calm : Outside
calm = record { rows = []; modified = []; changed = none }

parsed : parse_select plain ("x tag:none" ∷ "  y" ∷ []) ≡ "x" ∷ "tag:none" ∷ "y" ∷ []
unfolding parse_select
parsed = refl

plan-all :
    plan plain join calm no_options ≡ planned [] (ordered (("x" ∷ "y" ∷ []) ∷ ("z" ∷ []) ∷ []))
unfolding plan
plan-all = refl

plan-changed : plan plain join on_x no_options ≡ planned [] (missing_deps (("z", "y" ∷ []) ∷ []))
unfolding plan
plan-changed = refl

compile_selector_iff_example :
    ((compile_selector plain [] only_x.select).1 (model "x" []) ≡ true)
    ↔ All (Accepts plain [] (model "x" [])) (parse_select plain ("x tag:none" ∷ []))
compile_selector_iff_example = compile_selector_iff plain [] (model "x" []) only_x.select

join-IsComplete : IsComplete join
unfolding deps_of
join-IsComplete k d m = ground arith

abbrev height : Name → ℕ
height k = if same k "z" then 1 else 0

join-IsRanking : IsRanking join height
unfolding deps_of
join-IsRanking k d m = ground (
  arith,
  same_iff k "z",
  same_iff "z" k,
  same_iff d "x",
  same_iff d "y",
  same_iff d "z",
  same_iff "x" "z",
  same_iff "y" "z",
)

wanted_levels_example :
    (lvls : List (List Name)) × (levels_for_run join [] (wanted_names plain join calm no_options)
      ≡ ordered lvls)
    × IsLevelOrder (sub_nodes join (wanted_names plain join calm no_options)) lvls
wanted_levels_example =
    wanted_levels plain join (ground arith) join-IsComplete height join-IsRanking calm no_options
