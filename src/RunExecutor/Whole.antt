-- ===== src/RunExecutor/Whole.antt =====
-- A whole run: the levels of `dag.levels`, the batches of `_partition_groups` and the workers together.
use mathlib.Core.Logic.{∥∥₁_elim}
use mathlib.Core.List.{Perm, Permᴰ}
use native.Mathlib.Nat.{ℕ_set}
use fast_flow_transform.Prelude.{
  ℕ, ◌≤◌, ◌≡◌, refl, ap, ◌∙◌, true, Option, none, some, List, [], arith, length,
}
use fast_flow_transform.Prelude.Names.{Name, same, member, IsNodup}
use fast_flow_transform.Registry.{Nodes, names}
use fast_flow_transform.Dag.{ordered, levels}
use fast_flow_transform.Dag.Levels.{levels-IsLevelOrder}
use fast_flow_transform.RunExecutor.{
  FailPolicy, World, Event, ScheduleResult, schedule, run_level, level_groups, Duration,
  TextMethods, Jobs, resolve_jobs,
}
use fast_flow_transform.RunExecutor.Batches.Sizes.{partition_groups-perm}
use fast_flow_transform.RunExecutor.Workers.{times}
use fast_flow_transform.RunExecutor.Level.{run_level_once}
use fast_flow_transform.RunExecutor.Schedule.{KeepsNames, IsSafe, schedule-IsSafe, schedule_all}

Permᴰ-times : (x : Name) {xs ys : List Name} → Permᴰ xs ys → times x xs ≡ times x ys
unfolding times
Permᴰ-times x Permᴰ.nil = refl
Permᴰ-times x (Permᴰ.cons {a = a} {b = b} e p) =
    ground (arith, Permᴰ-times x p, ap (λ y. same x y) e)
Permᴰ-times x (Permᴰ.swap {a = a} {b = b} e f) =
    ground (arith, ap (λ y. same x y) e, ap (λ y. same x y) f)
Permᴰ-times x (Permᴰ.trans p q) = Permᴰ-times x p ∙ Permᴰ-times x q

Perm-times : (x : Name) (xs ys : List Name) → Perm xs ys → times x xs ≡ times x ys
Perm-times x xs ys p = ∥∥₁_elim p (ℕ_set _ _) (Permᴰ-times x)

module _ (time : Duration) (text : TextMethods) (cpu_count : Option ℕ) (jobs : Jobs) (engine : Name)
    (durations : List (Name × time.Seconds)) where
  pub level_groups-KeepsNames : KeepsNames (level_groups time text cpu_count jobs engine durations)
  unfolding level_groups
  level_groups-KeepsNames l x =
      Perm-times x _ l
        (partition_groups-perm time l (resolve_jobs text cpu_count jobs (length l) engine)
          durations).0

  module _ {E : Type 0} (ns : Nodes) (distinct : IsNodup (names ns)) (world : World E)
      (policy : FailPolicy) where
    -- In every run, whatever the number of workers, the batches, the interleaving and the failures,
    -- a node is executed only after all nodes that it depends on were executed, and only if none of
    -- them failed.
    -- The names of the nodes are distinct.
    pub run_dependencies :
        (lvls : List (List Name)) (eventss : List (List Event)) (r : ScheduleResult E)
        → levels ns ≡ ordered lvls
        → schedule world policy
            (level_groups time text cpu_count jobs engine durations)
            1
            lvls
            eventss
          ≡ some r
        → IsSafe ns world [] r.per_node
    run_dependencies lvls eventss r e h =
        schedule-IsSafe ns world policy (level_groups time text cpu_count jobs engine durations)
          level_groups-KeepsNames lvls [] 1 eventss r
          (levels-IsLevelOrder ns distinct lvls e).layered (λ d m. cc) h

    -- A run that reports no failure executed every node, and none failed.
    -- The names of the nodes are distinct.
    pub run_all_nodes :
        (lvls : List (List Name)) (eventss : List (List Event)) (r : ScheduleResult E)
        → levels ns ≡ ordered lvls
        → schedule world policy
            (level_groups time text cpu_count jobs engine durations)
            1
            lvls
            eventss
          ≡ some r
        → r.failures ≡ []
        → (k : Name) → member k (names ns) ≡ true
        → (member k r.per_node ≡ true) × (world k ≡ none)
    run_all_nodes lvls eventss r e h f k m =
        schedule_all ns world policy (level_groups time text cpu_count jobs engine durations)
          level_groups-KeepsNames lvls 1 eventss r h f k
          ((levels-IsLevelOrder ns distinct lvls e).all_nodes k ∙ m)

  -- In every interleaving of a level, no name is executed more often than the level holds it.
  level_once :
      {E : Type 0} (world : World E) (policy : FailPolicy) (idx : ℕ) (l : List Name)
      (events : List Event) (x : Name)
      → times x
          (run_level world policy idx
            (level_groups time text cpu_count jobs engine durations l)
            events).executed
        ≤ times x l
  level_once world policy idx l events x = omega (
    arith,
    run_level_once world policy idx (level_groups time text cpu_count jobs engine durations l)
        events x,
    level_groups-KeepsNames l x,
  )
