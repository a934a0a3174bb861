-- ===== src/LogQueue/Drained.antt =====
-- No line is lost or doubled, and each batch is in the order of the numbers.
use fast_flow_transform.Prelude.{
  ℕ, zero, suc, ◌+◌, ◌≡◌, refl, sym, ap, ◌∙◌, inl, inr, Bool, Option, none, some, List, [], ◌∷◌,
  ◌++◌, arith, if◌then◌else◌, Option-cases, List-cases, All,
}
use mathlib.Core.Option
use fast_flow_transform.Prelude.Sorting.{sort, insert, IsSorted, sort-IsSorted}
use fast_flow_transform.LogQueue.{
  LogLine, LogQueue, QueueEvent, number, enqueue, dequeue, finish, new_queue, take_at, idx_leb,
  put_line, get_line, finish_drain, log_step, log_run,
}

-- How many lines of a list have a property.
abbrev pub count : (LogLine → Bool) → List LogLine → ℕ
count p [] = 0
count p (x ∷ xs) = (if p x then 1 else 0) + count p xs

abbrev pub counts : (LogLine → Bool) → List (List LogLine) → ℕ
counts p [] = 0
counts p (b ∷ bs) = count p b + counts p bs

-- The lines that the workers numbered, in the order of the lock.
abbrev pub numbered : ℕ → List QueueEvent → List LogLine
numbered n [] = []
numbered n (number t ∷ events) = record { idx = n; text = t } ∷ numbered (suc n) events
numbered n (enqueue worker ∷ events) = numbered n events
numbered n (dequeue ∷ events) = numbered n events
numbered n (finish ∷ events) = numbered n events

count-append :
    (p : LogLine → Bool) (xs ys : List LogLine) → count p (xs ++ ys) ≡ count p xs + count p ys
count-append p [] ys = omega arith
count-append p (x ∷ xs) ys = omega (arith, count-append p xs ys)

counts-append :
    (p : LogLine → Bool) (xs ys : List (List LogLine))
    → counts p (xs ++ ys) ≡ counts p xs + counts p ys
counts-append p [] ys = omega arith
counts-append p (x ∷ xs) ys = omega (arith, counts-append p xs ys)

count-insert :
    (p : LogLine → Bool) (a : LogLine) (xs : List LogLine)
    → count p (insert idx_leb a xs) ≡ (if p a then 1 else 0) + count p xs
unfolding insert
count-insert p a [] = refl
count-insert p a (x ∷ xs) = ground (arith, count-insert p a xs)

count-sort : (p : LogLine → Bool) (xs : List LogLine) → count p (sort idx_leb xs) ≡ count p xs
unfolding sort
count-sort p [] = refl
count-sort p (x ∷ xs) = omega (arith, count-insert p x (sort idx_leb xs), count-sort p xs)

-- The count of a line with the others.
abbrev weight : (LogLine → Bool) → LogLine × List LogLine → ℕ
weight p (l, rest) = (if p l then 1 else 0) + count p rest

count-take_at :
    (p : LogLine → Bool) (n : ℕ) (xs : List LogLine) (l : LogLine) (rest : List LogLine)
    → take_at n xs ≡ some (l, rest)
    → count p xs ≡ (if p l then 1 else 0) + count p rest
unfolding take_at
count-take_at p n [] l rest h = absurd (ground (arith, h))
count-take_at p zero (x ∷ xs) l rest h = ap (λ o. weight p (Option.get_or o (x, xs))) h
count-take_at p (suc n) (x ∷ xs) l rest h = elim (Option-cases (take_at n xs)) [
  | inl e ↦
      let h' : none ≡ some (l, rest) = sym (rw (take_at, e) refl) ∙ h in absurd (ground (arith, h'))
  | inr (r, e) ↦
      let h' : some (r.0, x ∷ r.1) ≡ some (l, rest) = sym (rw (take_at, e) refl) ∙ h in
      let same_weight = ap (λ o. weight p (Option.get_or o (l, rest))) h' in
      omega (arith, count-take_at p n xs r.0 r.1 e, same_weight)
]

module _ (p : LogLine → Bool) where
  -- All lines of a state.
  abbrev total : LogQueue → ℕ
  total q = counts p q.drained + (count p q.items + (count p q.lines + count p q.pending))

  total-put_line : (q : LogQueue) (n : ℕ) → total (put_line q (take_at n q.pending)) ≡ total q
  total-put_line q n = elim (Option-cases (take_at n q.pending)) [
    | inl e ↦ rw e refl
    | inr (r, e) ↦
        rw e
          (omega (arith, count-take_at p n q.pending r.0 r.1 e, count-append p q.lines (r.0 ∷ [])))
  ]

  total-get_line : (q : LogQueue) → total (get_line q q.lines) ≡ total q
  total-get_line q = elim (List-cases q.lines) [
    | inl e ↦ rw e (omega (arith, ap (count p) e))
    | inr (l, rest, e) ↦ rw e (omega (arith, ap (count p) e, count-append p q.items (l ∷ [])))
  ]

  total-finish_drain : (q : LogQueue) → total (finish_drain q q.lines) ≡ total q
  total-finish_drain q = elim (List-cases q.lines) [
    | inl e ↦ rw e (
        omega (
          arith,
          ap (count p) e,
          counts-append p q.drained (sort idx_leb q.items ∷ []),
          count-sort p q.items,
        ))
    | inr (l, rest, e) ↦ rw e (omega (arith, ap (count p) e))
  ]

  seq-put_line : (q : LogQueue) (o : Option (LogLine × List LogLine)) → (put_line q o).seq ≡ q.seq
  seq-put_line q none = refl
  seq-put_line q (some (l, rest)) = refl

  seq-get_line : (q : LogQueue) (ls : List LogLine) → (get_line q ls).seq ≡ q.seq
  seq-get_line q [] = refl
  seq-get_line q (l ∷ rest) = refl

  seq-finish_drain : (q : LogQueue) (ls : List LogLine) → (finish_drain q ls).seq ≡ q.seq
  seq-finish_drain q [] = refl
  seq-finish_drain q (l ∷ rest) = refl

  total-log_run :
      (q : LogQueue) (events : List QueueEvent)
      → total (log_run q events) ≡ total q + count p (numbered q.seq events)
  unfolding log_run log_step
  total-log_run q [] = omega arith
  total-log_run q (number t ∷ events) =
      let q' = log_step q (number t) in
      omega (
        arith,
        total-log_run q' events,
        count-append p q.pending (record { idx = q.seq; text = t } ∷ []),
      )
  total-log_run q (enqueue worker ∷ events) =
      let q' = put_line q (take_at worker q.pending) in
      let same_seq = seq-put_line q (take_at worker q.pending) in
      total-log_run q' events ∙ rw same_seq (omega (arith, total-put_line q worker))
  total-log_run q (dequeue ∷ events) =
      let q' = get_line q q.lines in
      let same_seq = seq-get_line q q.lines in
      total-log_run q' events ∙ rw same_seq (omega (arith, total-get_line q))
  total-log_run q (finish ∷ events) =
      let q' = finish_drain q q.lines in
      let same_seq = seq-finish_drain q q.lines in
      total-log_run q' events ∙ rw same_seq (omega (arith, total-finish_drain q))

append-IsSorted :
    (bs : List (List LogLine)) (b : List LogLine)
    → All (IsSorted idx_leb) bs
    → IsSorted idx_leb b
    → All (IsSorted idx_leb) (bs ++ b ∷ [])
append-IsSorted [] b h i = (i, tt)
append-IsSorted (a ∷ bs) b h i = (h.0, append-IsSorted bs b h.1 i)

finish_drain-IsSorted :
    (q : LogQueue) (ls : List LogLine)
    → All (IsSorted idx_leb) q.drained
    → All (IsSorted idx_leb) (finish_drain q ls).drained
finish_drain-IsSorted q [] h =
    append-IsSorted q.drained (sort idx_leb q.items) h
      (sort-IsSorted idx_leb (λ a b e. ground arith) q.items)
finish_drain-IsSorted q (l ∷ rest) h = h

log_run-IsSorted :
    (q : LogQueue) (events : List QueueEvent)
    → All (IsSorted idx_leb) q.drained
    → All (IsSorted idx_leb) (log_run q events).drained
unfolding log_run log_step
log_run-IsSorted q [] h = h
log_run-IsSorted q (number t ∷ events) h = log_run-IsSorted (log_step q (number t)) events h
log_run-IsSorted q (enqueue worker ∷ events) h =
    log_run-IsSorted (log_step q (enqueue worker)) events (kept (take_at worker q.pending))
  where
    kept : (o : Option (LogLine × List LogLine)) → All (IsSorted idx_leb) (put_line q o).drained
    kept none = h
    kept (some (l, rest)) = h
log_run-IsSorted q (dequeue ∷ events) h =
    log_run-IsSorted (log_step q dequeue) events (kept q.lines)
  where
    kept : (ls : List LogLine) → All (IsSorted idx_leb) (get_line q ls).drained
    kept [] = h
    kept (l ∷ rest) = h
log_run-IsSorted q (finish ∷ events) h =
    log_run-IsSorted (log_step q finish) events (finish_drain-IsSorted q q.lines h)

-- In every interleaving of the workers and the main thread, each line that a worker numbered is in the
-- batches that were drained, or still on its way, as often as it was numbered, and each batch is in the
-- order of the numbers.
pub log_run_once :
    (events : List QueueEvent)
    → ((p : LogLine → Bool)
        → counts p (log_run new_queue events).drained
            + (count p (log_run new_queue events).items
                + (count p (log_run new_queue events).lines
                    + count p (log_run new_queue events).pending))
          ≡ count p (numbered 0 events))
      × All (IsSorted idx_leb) (log_run new_queue events).drained
log_run_once events =
    (λ p. omega (arith, total-log_run p new_queue events), log_run-IsSorted new_queue events tt)
