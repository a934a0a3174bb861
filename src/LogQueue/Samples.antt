-- ===== src/LogQueue/Samples.antt =====
-- Two workers and two drains.
use fast_flow_transform.Prelude.{◌+◌, ◌≡◌, refl, Bool, List, [], ◌∷◌, map, All}
use fast_flow_transform.Prelude.Sorting.{IsSorted}
use fast_flow_transform.LogQueue.{
  LogLine, QueueEvent, number, enqueue, dequeue, finish, new_queue, idx_leb, log_run,
}
use fast_flow_transform.LogQueue.Drained.{count, counts, numbered, log_run_once}

-- The second worker overtakes the first behind the lock.
abbrev overtaken : List QueueEvent
overtaken =
    number "a"
    ∷ number "b"
    ∷ enqueue 1
    ∷ enqueue 0
    ∷ number "c"
    ∷ dequeue
    ∷ dequeue
    ∷ finish
    ∷ enqueue 0
    ∷ dequeue
    ∷ finish
    ∷ []

batches :
    map (map (λ l. l.text)) (log_run new_queue overtaken).drained
    ≡ ("a" ∷ "b" ∷ []) ∷ ("c" ∷ []) ∷ []
unfolding log_run
batches = refl

log_run_once_example :
    ((p : LogLine → Bool)
      → counts p (log_run new_queue overtaken).drained
          + (count p (log_run new_queue overtaken).items
              + (count p (log_run new_queue overtaken).lines
                  + count p (log_run new_queue overtaken).pending))
        ≡ count p (numbered 0 overtaken))
    × All (IsSorted idx_leb) (log_run new_queue overtaken).drained
log_run_once_example = log_run_once overtaken
