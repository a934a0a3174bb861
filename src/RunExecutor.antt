-- ===== src/RunExecutor.antt =====
-- run_executor.py: batches, worker threads and levels.
-- A worker runs the names of its group one after the other; the order in which the threads and the main
-- thread move is a list of events, and the theorems hold for every such list. Times, log lines and the
-- `before` callback, whose errors are suppressed, change no part of this state.
mod Batches
mod Workers
pub mod Whole
mod Samples
mod Level
pub mod Progress
pub mod Schedule
unfoldable pub use Batches.*
use Batches.{resolve_jobs, partition_groups, Duration, TextMethods, Jobs}
use fast_flow_transform.Prelude.{
  ℕ, zero, suc, ◌+◌, ◌-◌, ◌*◌, ◌/◌, ◌%◌, ◌^◌, ◌≤◌, ◌<◌, min, max, String, ◌≡◌, refl, sym, ap, ◌∙◌,
  ◌≢◌, ◌↔◌, ◌⊎◌, inl, inr, Bool, true, false, not, ◌&&◌, ◌||◌, Option, none, some, List, [], ◌∷◌,
  ◌++◌, map, foldl, arith, ltb, leb, ◌==◌, if◌then◌else◌, Bool-cases, ltb→lt, lt→ltb, length,
  length-append, is_empty, filter, concat, Option-cases, List-cases, all, any, All,
}
use fast_flow_transform.Prelude.Names.{
  Name, same, same_iff, same_lem, same_refl, member, add, set_of, IsNodup, member-add, add-IsNodup,
  member-set_of, set_of-IsNodup, member-append, member-filter, filter-IsNodup, IsSubset,
  length-subset, update, update-same, update-other,
}

pub data FailPolicy : Type 0 where
  fail_fast keep_going : FailPolicy

-- The groups that `_run_level` makes of the names of a level.
unfoldable pub level_groups :
    (time : Duration)
    → TextMethods
    → Option ℕ
    → Jobs
    → Name
    → List (Name × time.Seconds)
    → List Name
    → List (List Name)
unfolding resolve_jobs partition_groups
level_groups time text cpu_count jobs engine durations l =
    partition_groups time l (resolve_jobs text cpu_count jobs (length l) engine) durations

-- What `run_node` of a name raises, if it does.
abbrev pub World : Type 0 → Type 0
World E = Name → Option E

-- The keys of the dict `failed`: a node, or "<level-N>" where the future of a group raised something
-- other than `_NodeFailed`.
pub data FailKey : Type 0 where
  node : Name → FailKey
  level : ℕ → FailKey

-- `CancelledError` is what `fut.result()` of a cancelled future raises.
pub data Failure (E : Type 0) : Type 0 where
  raised : E → Failure E
  cancelled_error : Failure E

pub data Worker (E : Type 0) : Type 0 where
  queued : List Name → Worker E
  running : List Name → Worker E
  finished : Worker E
  crashed : Name → E → Worker E
  cancelled : Worker E
  collected : Worker E

pub record Pool (E : Type 0) : Type 0 where
  pub workers : List (Worker E)
  pub executed : List Name
  pub failed : List (FailKey × Failure E)
  pub had_error : Bool

-- The keys of `per_node_s`, and `failed`.
pub record ScheduleResult (E : Type 0) : Type 0 where
  pub per_node : List Name
  pub failures : List (FailKey × Failure E)

-- A worker makes its next move, or the main thread takes the result of a worker.
pub data Event : Type 0 where
  run : ℕ → Event
  collect : ℕ → Event

module _ {E : Type 0} where
  -- `f.cancel()` stops a future that no thread has taken up.
  pub cancel : Worker E → Worker E
  cancel (queued ns) = cancelled
  cancel w = w

  pub cancel_all : List (Worker E) → List (Worker E)
  unfolding cancel
  cancel_all [] = []
  cancel_all (w ∷ ws) = cancel w ∷ cancel_all ws

  -- The next move of `_group_task`, and the name that it executed.
  unfoldable pub advance : World E → Worker E → Worker E × List Name
  advance world (queued ns) = (running ns, [])
  advance world (running []) = (finished, [])
  advance world (running (n ∷ ns)) = elim (world n) [
    | none ↦ (running ns, n ∷ [])
    | some e ↦ (crashed n e, n ∷ [])
  ]
  advance world w = (w, [])

  unfoldable pub advance_at : World E → ℕ → List (Worker E) → List (Worker E) × List Name
  unfolding advance
  advance_at world i [] = ([], [])
  advance_at world zero (w ∷ ws) = let (w', done) = advance world w in (w' ∷ ws, done)
  advance_at world (suc i) (w ∷ ws) = let (ws', done) = advance_at world i ws in (w ∷ ws', done)

  -- What the loop over `as_completed` reads from a future that has ended.
  unfoldable pub outcome : ℕ → Worker E → Option (Option (FailKey × Failure E))
  outcome idx finished = some none
  outcome idx (crashed n e) = some (some (node n, raised e))
  outcome idx cancelled = some (some (level idx, cancelled_error))
  outcome idx w = none

  unfoldable pub outcome_at : ℕ → ℕ → List (Worker E) → Option (Option (FailKey × Failure E))
  unfolding outcome
  outcome_at idx i [] = none
  outcome_at idx zero (w ∷ ws) = outcome idx w
  outcome_at idx (suc i) (w ∷ ws) = outcome_at idx i ws

  unfoldable pub mark_collected : ℕ → List (Worker E) → List (Worker E)
  mark_collected i [] = []
  mark_collected zero (w ∷ ws) = collected ∷ ws
  mark_collected (suc i) (w ∷ ws) = w ∷ mark_collected i ws

  abbrev pub after_failure : FailPolicy → List (Worker E) → List (Worker E)
  after_failure fail_fast ws = cancel_all ws
  after_failure keep_going ws = ws

  -- One event in level `idx`. An event that cannot happen changes nothing.
  unfoldable pub step : World E → FailPolicy → ℕ → Pool E → Event → Pool E
  unfolding advance_at outcome_at mark_collected cancel_all
  step world policy idx p (run i) =
      let (ws, done) = advance_at world i p.workers in
      record p { workers = ws; executed = p.executed ++ done }
  step world policy idx p (collect i) = elim (outcome_at idx i p.workers) [
    | none ↦ p
    | some none ↦ record p { workers = mark_collected i p.workers }
    | some (some failure) ↦ record {
      workers = after_failure policy (mark_collected i p.workers);
      executed = p.executed;
      failed = p.failed ++ failure ∷ [];
      had_error = true;
    }
  ]

  pub is_collected : Worker E → Bool
  is_collected collected = true
  is_collected w = false

  -- The pool is left when every future is done and its result taken.
  unfoldable pub complete : Pool E → Bool
  unfolding is_collected
  complete p = all is_collected p.workers

  unfoldable pub submit : List (List Name) → Pool E
  submit groups = record {
    workers = map queued groups;
    executed = [];
    failed = [];
    had_error = false;
  }

  -- `_run_level` with the groups of `_partition_groups`, up to the events given.
  unfoldable pub run_level : World E → FailPolicy → ℕ → List (List Name) → List Event → Pool E
  unfolding step submit
  run_level world policy idx groups events = foldl (step world policy idx) (submit groups) events

  -- `schedule`: levels from number `idx` on, each with its events, up to the first with an error. `none`
  -- where the events do not complete a level.
  unfoldable pub schedule :
      World E
      → FailPolicy
      → (List Name → List (List Name))
      → ℕ
      → List (List Name)
      → List (List Event)
      → Option (ScheduleResult E)
  unfolding run_level complete
  schedule world policy batches idx [] eventss = some (record { per_node = []; failures = [] })
  schedule world policy batches idx (l ∷ ls) [] = none
  schedule world policy batches idx (l ∷ ls) (events ∷ eventss) =
      let p = run_level world policy idx (batches l) events in
      let rest = schedule world policy batches (suc idx) ls eventss in
      if not (complete p)
      then none
      else if p.had_error
      then some (record { per_node = p.executed; failures = p.failed })
      else elim rest [
        | none ↦ none
        | some r ↦
            some (record { per_node = p.executed ++ r.per_node; failures = p.failed ++ r.failures })
      ]
