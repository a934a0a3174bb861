-- ===== src/RunExecutor/Progress.antt =====
-- A level can always be completed: while a future is open, some event brings it nearer to its end.
use fast_flow_transform.Prelude.{
  ℕ, zero, suc, ◌+◌, ◌≤◌, ◌<◌, ◌≡◌, refl, inl, inr, true, false, Option, none, some, List, [], ◌∷◌,
  foldl, arith, if◌then◌else◌, Bool-cases, length, all,
}
use fast_flow_transform.Prelude.Names.{Name}
use fast_flow_transform.RunExecutor.{
  FailPolicy, fail_fast, keep_going, World, FailKey, node, level, Failure, raised, cancelled_error,
  Worker, queued, running, finished, crashed, cancelled, collected, Pool, Event, run, collect,
  cancel, cancel_all, advance, advance_at, outcome, outcome_at, mark_collected, after_failure, step,
  is_collected, complete, run_level,
}

module _ {E : Type 0} where
  -- the moves that a worker and the main thread still owe
  worker_moves : Worker E → ℕ
  worker_moves (queued ns) = length ns + 3
  worker_moves (running ns) = length ns + 2
  worker_moves collected = 0
  worker_moves w = 1

  moves : List (Worker E) → ℕ
  unfolding worker_moves
  moves [] = 0
  moves (w ∷ ws) = worker_moves w + moves ws

  cancel_all-moves : (ws : List (Worker E)) → moves (cancel_all ws) ≤ moves ws
  unfolding cancel_all cancel moves
  cancel_all-moves [] = omega arith
  cancel_all-moves (queued ns ∷ ws) = omega (arith, cancel_all-moves ws)
  cancel_all-moves (w ∷ ws) = omega (arith, cancel_all-moves ws)

  after_failure-moves :
      (policy : FailPolicy) (ws : List (Worker E)) → moves (after_failure policy ws) ≤ moves ws
  after_failure-moves fail_fast ws = cancel_all-moves ws
  after_failure-moves keep_going ws = omega arith

  -- the place of the first open worker
  first_open : List (Worker E) → ℕ
  unfolding is_collected
  first_open [] = 0
  first_open (w ∷ ws) = let later = suc (first_open ws) in if is_collected w then later else 0

  -- the worker there moves, or its result is there to take
  data Next (world : World E) (idx i : ℕ) (ws : List (Worker E)) : Type 0 where
    moves_on : moves (advance_at world i ws).0 < moves ws → Next world idx i ws
    taken :
        (o : Option (FailKey × Failure E))
        → outcome_at idx i ws ≡ some o
        → moves (mark_collected i ws) < moves ws
        → Next world idx i ws

  Next-cons :
      {world : World E} {idx i : ℕ} {w : Worker E} {ws : List (Worker E)}
      → Next world idx i ws
      → Next world idx (suc i) (w ∷ ws)
  Next-cons (moves_on h) = moves_on (unfold advance_at moves in omega arith)
  Next-cons (taken o e h) =
      taken o (unfold outcome_at in e) (unfold mark_collected moves in omega arith)

  first-Next :
      (world : World E) (idx : ℕ) (ws : List (Worker E))
      → all is_collected ws ≡ false
      → Next world idx (first_open ws) ws
  unfolding first_open is_collected
  first-Next world idx [] h = absurd (ground arith)
  first-Next world idx (collected ∷ ws) h = Next-cons (first-Next world idx ws h)
  first-Next world idx (queued ns ∷ ws) h =
      moves_on (unfold advance_at advance moves in omega arith)
  first-Next world idx (running [] ∷ ws) h =
      moves_on (unfold advance_at advance moves in omega arith)
  first-Next world idx (running (n ∷ ns) ∷ ws) h =
      moves_on (unfold advance_at advance moves in ground arith)
  first-Next world idx (finished ∷ ws) h =
      taken none (unfold outcome_at outcome in refl) (unfold mark_collected moves in omega arith)
  first-Next world idx (crashed n e ∷ ws) h =
      taken (some (node n, raised e)) (unfold outcome_at outcome in refl)
        (unfold mark_collected moves in omega arith)
  first-Next world idx (cancelled ∷ ws) h =
      taken (some (level idx, cancelled_error)) (unfold outcome_at outcome in refl)
        (unfold mark_collected moves in omega arith)

  module _ (world : World E) (policy : FailPolicy) (idx : ℕ) where
    next_event :
        (p : Pool E)
        → complete p ≡ false
        → (e : Event) × (moves (step world policy idx p e).workers < moves p.workers)
    unfolding complete
    next_event p h = elim (first-Next world idx p.workers h) [
      | moves_on less ↦ (run (first_open p.workers), unfold step in less)
      | taken none e less ↦ (collect (first_open p.workers), unfold step in rw (e, step) less)
      | taken (some f) e less ↦ (
        collect (first_open p.workers),
        unfold step in
            rw (e, step)
              (omega (
                arith,
                after_failure-moves policy (mark_collected (first_open p.workers) p.workers),
                less,
              )),
      )
    ]

    complete_within :
        (n : ℕ) (p : Pool E)
        → moves p.workers < n
        → (events : List Event) × (complete (foldl (step world policy idx) p events) ≡ true)
    complete_within zero p h = absurd (omega arith)
    complete_within (suc n) p h = elim (Bool-cases (complete p)) [
      | inl c ↦ ([], c)
      | inr c ↦
          let (e, less) = next_event p c in
          let (events, done) = complete_within n (step world policy idx p e) (omega arith) in
          (e ∷ events, done)
    ]

    -- However a level went so far, some further events complete it.
    pub run_level_completes :
        (groups : List (List Name)) (sofar : List Event)
        → (events : List Event) × (complete
              (foldl (step world policy idx) (run_level world policy idx groups sofar) events)
            ≡ true)
    run_level_completes groups sofar =
        let p = run_level world policy idx groups sofar in
        complete_within (suc (moves p.workers)) p (omega arith)
