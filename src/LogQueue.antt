-- ===== src/LogQueue.antt =====
-- log_queue.py: the queue of log lines between the worker threads and the main thread. A worker numbers its
-- line under the lock and puts it into the queue later, so that two workers may do the latter in the other
-- order.
pub mod Drained
mod Samples
use fast_flow_transform.Prelude.{
  ℕ, zero, suc, ◌+◌, ◌-◌, ◌*◌, ◌/◌, ◌%◌, ◌^◌, ◌≤◌, ◌<◌, min, max, String, ◌≡◌, refl, sym, ap, ◌∙◌,
  ◌≢◌, ◌↔◌, ◌⊎◌, inl, inr, Bool, true, false, not, ◌&&◌, ◌||◌, Option, none, some, List, [], ◌∷◌,
  ◌++◌, map, foldl, arith, ltb, leb, ◌==◌, if◌then◌else◌, Bool-cases, ltb→lt, lt→ltb, length,
  length-append, is_empty, filter, concat, Option-cases, List-cases, all, any, All,
}
use fast_flow_transform.Prelude.Names.{
  Name, same, same_iff, same_lem, same_refl, member, add, set_of, IsNodup, member-add, add-IsNodup,
  member-set_of, set_of-IsNodup, member-append, member-filter, filter-IsNodup, IsSubset,
  length-subset, update, update-same, update-other,
}
use mathlib.Core.Option
use fast_flow_transform.Prelude.Sorting.{sort}

pub record LogLine : Type 0 where
  pub idx : ℕ
  pub text : Name

-- The queue and its counter; the lines of workers that hold a number but did not put it into the queue yet;
-- the lines that the running `drain` took out; and what each `drain` returned, as lines.
pub record LogQueue : Type 0 where
  pub lines : List LogLine
  pub seq : ℕ
  pub pending : List LogLine
  pub items : List LogLine
  pub drained : List (List LogLine)

-- A worker enters `put` and takes a number, or a worker (by its place among the pending ones) puts its line;
-- the main thread takes a line out, or finds the queue empty and returns.
pub data QueueEvent : Type 0 where
  number : (text : Name) → QueueEvent
  enqueue : (worker : ℕ) → QueueEvent
  dequeue : QueueEvent
  finish : QueueEvent

abbrev pub new_queue : LogQueue
new_queue = record { lines = []; seq = 0; pending = []; items = []; drained = [] }

unfoldable pub take_at : ℕ → List LogLine → Option (LogLine × List LogLine)
take_at n [] = none
take_at zero (x ∷ xs) = some (x, xs)
take_at (suc n) (x ∷ xs) = elim (take_at n xs) [ none ↦ none | some (y, ys) ↦ some (y, x ∷ ys) ]

abbrev pub idx_leb : LogLine → LogLine → Bool
idx_leb a b = leb a.idx b.idx

abbrev pub put_line : LogQueue → Option (LogLine × List LogLine) → LogQueue
put_line q none = q
put_line q (some (l, rest)) = record q { lines = q.lines ++ l ∷ []; pending = rest }

abbrev pub get_line : LogQueue → List LogLine → LogQueue
get_line q [] = q
get_line q (l ∷ rest) = record q { lines = rest; items = q.items ++ l ∷ [] }

abbrev pub finish_drain : LogQueue → List LogLine → LogQueue
finish_drain q [] = record q { items = []; drained = q.drained ++ sort idx_leb q.items ∷ [] }
finish_drain q (l ∷ rest) = q

-- One event; one that cannot happen changes nothing.
unfoldable pub log_step : LogQueue → QueueEvent → LogQueue
unfolding take_at sort
log_step q (number t) = record q {
  seq = suc q.seq;
  pending = q.pending ++ (record { idx = q.seq; text = t }) ∷ [];
}
log_step q (enqueue worker) = put_line q (take_at worker q.pending)
log_step q dequeue = get_line q q.lines
log_step q finish = finish_drain q q.lines

unfoldable pub log_run : LogQueue → List QueueEvent → LogQueue
unfolding log_step
log_run q [] = q
log_run q (e ∷ events) = log_run (log_step q e) events
