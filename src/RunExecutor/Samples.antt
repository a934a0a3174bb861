-- ===== src/RunExecutor/Samples.antt =====
-- Small runs.
use mathlib.Core.List.{Perm}
use fast_flow_transform.Prelude.{
  ℕ, zero, suc, ◌+◌, ◌≤◌, ◌<◌, max, ◌≡◌, refl, true, none, some, List, [], ◌∷◌, foldl, leb,
  if◌then◌else◌, length, concat,
}
use fast_flow_transform.Prelude.Names.{Name, same, member}
use fast_flow_transform.Prelude.Int.{pos}
use fast_flow_transform.Dag.Samples.{shop, levels-shop, shop-IsNodup}
use fast_flow_transform.RunExecutor.{
  fail_fast, keep_going, World, node, raised, Event, run, collect, complete, step, ScheduleResult,
  schedule, run_level, level_groups, Duration, TextMethods, number, words, partition_groups,
  resolve_jobs,
}
use fast_flow_transform.RunExecutor.Batches.Sizes.{partition_groups-perm, resolve_jobs_bounds}
use fast_flow_transform.RunExecutor.Schedule.{IsSafe}
use fast_flow_transform.RunExecutor.Progress.{run_level_completes}
use fast_flow_transform.RunExecutor.Whole.{run_dependencies, run_all_nodes}

-- Seconds as whole numbers.
abbrev clock : Duration
clock = record { Seconds = ℕ; zero_seconds = 0; plus = ◌+◌; at_most = leb }

abbrev plain_text : TextMethods
plain_text = record {
  strip_lower = λ t. t;
  read_int = λ t. if same t "3" then some (pos 3) else none;
}

abbrev no_durations : List (Name × ℕ)
no_durations = []

partition_round_robin :
    partition_groups clock ("a" ∷ "b" ∷ "c" ∷ []) 2 no_durations
    ≡ ("a" ∷ "c" ∷ []) ∷ ("b" ∷ []) ∷ []
unfolding partition_groups
partition_round_robin = refl

partition_greedy :
    partition_groups clock ("a" ∷ "b" ∷ "c" ∷ []) 2 (("c", 9) ∷ ("a", 4) ∷ ("b", 3) ∷ [])
    ≡ ("c" ∷ []) ∷ ("a" ∷ "b" ∷ []) ∷ []
unfolding partition_groups
partition_greedy = refl

partition_groups-perm_example :
    Perm
      (concat (partition_groups clock ("a" ∷ "b" ∷ "c" ∷ []) 2 no_durations))
      ("a" ∷ "b" ∷ "c" ∷ [])
    × (length (partition_groups clock ("a" ∷ "b" ∷ "c" ∷ []) 2 no_durations) ≤ max 1 2)
    × (length (partition_groups clock ("a" ∷ "b" ∷ "c" ∷ []) 2 no_durations)
        ≤ length {A = Name} ("a" ∷ "b" ∷ "c" ∷ []))
partition_groups-perm_example = partition_groups-perm clock ("a" ∷ "b" ∷ "c" ∷ []) 2 no_durations

resolve_jobs_bounds_example :
    (resolve_jobs plain_text (some 8) (words "auto") 2 "DUCK" ≤ 2)
    × (0 < 2 → 0 < resolve_jobs plain_text (some 8) (words "auto") 2 "DUCK")
resolve_jobs_bounds_example = resolve_jobs_bounds plain_text (some 8) (words "auto") 2 "DUCK"

abbrev quiet : World Name
quiet k = none

abbrev broken : World Name
broken k = if same k "users" then some "no such table" else none

-- one worker runs its whole group, and its result is taken
abbrev alone : ℕ → List Event
alone zero = run 0 ∷ run 0 ∷ collect 0 ∷ []
alone (suc n) = run 0 ∷ alone n

abbrev groups_of : List Name → List (List Name)
groups_of = level_groups clock plain_text none (number (pos 1)) "DUCK" no_durations

abbrev lvls : List (List Name)
lvls = ("audit" ∷ "users" ∷ []) ∷ ("orders" ∷ []) ∷ ("mart" ∷ []) ∷ []

abbrev all_done : ScheduleResult Name
all_done = record { per_node = "audit" ∷ "users" ∷ "orders" ∷ "mart" ∷ []; failures = [] }

schedule-quiet :
    schedule quiet keep_going groups_of 1 lvls (alone 2 ∷ alone 1 ∷ alone 1 ∷ []) ≡ some all_done
unfolding schedule level_groups
schedule-quiet = refl

schedule-broken :
    schedule broken keep_going groups_of 1 lvls (alone 2 ∷ [])
    ≡ some (record {
      per_node = "audit" ∷ "users" ∷ [];
      failures = (node "users", raised "no such table") ∷ [];
    })
unfolding schedule level_groups
schedule-broken = refl

run_dependencies_example : IsSafe shop quiet [] ("audit" ∷ "users" ∷ "orders" ∷ "mart" ∷ [])
run_dependencies_example =
    run_dependencies clock plain_text none (number (pos 1)) "DUCK" no_durations shop shop-IsNodup
      quiet keep_going lvls (alone 2 ∷ alone 1 ∷ alone 1 ∷ []) all_done levels-shop schedule-quiet

run_all_nodes_example : (member "mart" all_done.per_node ≡ true) × (quiet "mart" ≡ none)
run_all_nodes_example =
    run_all_nodes clock plain_text none (number (pos 1)) "DUCK" no_durations shop shop-IsNodup quiet
      keep_going lvls (alone 2 ∷ alone 1 ∷ alone 1 ∷ []) all_done levels-shop schedule-quiet refl
      "mart" refl

run_level_completes_example :
    (events : List Event) × (complete (
        foldl
          (step broken fail_fast 1)
          (run_level broken fail_fast 1 (("a" ∷ []) ∷ []) (run 0 ∷ []))
          events)
      ≡ true)
run_level_completes_example = run_level_completes broken fail_fast 1 (("a" ∷ []) ∷ []) (run 0 ∷ [])
