-- ===== src/RunExecutor/Workers.antt =====
-- What one event does to the names that the workers have left.
use fast_flow_transform.Prelude.{
  ℕ, zero, suc, ◌+◌, ◌≤◌, ◌≡◌, refl, Bool, true, false, ◌||◌, Option, none, some, List, [], ◌∷◌,
  ◌++◌, arith, if◌then◌else◌,
}
use fast_flow_transform.Prelude.Names.{Name, same, same_iff, member}
use fast_flow_transform.RunExecutor.{
  FailPolicy, fail_fast, keep_going, World, FailKey, Failure, Worker, queued, running, finished,
  crashed, cancelled, collected, cancel, cancel_all, advance, advance_at, outcome, outcome_at,
  mark_collected, after_failure,
}

-- How often a name stands in a list.
unfoldable pub times : Name → List Name → ℕ
times x [] = 0
times x (y ∷ ys) = (if same x y then 1 else 0) + times x ys

pub times-append : (x : Name) (xs ys : List Name) → times x (xs ++ ys) ≡ times x xs + times x ys
unfolding times
times-append x [] ys = omega arith
times-append x (y ∷ xs) ys = omega (arith, times-append x xs ys)

module _ {E : Type 0} where
  -- the names that a worker has not executed yet
  unfoldable pub left_of : Worker E → List Name
  left_of (queued ns) = ns
  left_of (running ns) = ns
  left_of w = []

  unfoldable pub left_in : List (Worker E) → List Name
  unfolding left_of
  left_in [] = []
  left_in (w ∷ ws) = left_of w ++ left_in ws

  -- a worker that ended before its names did
  unfoldable pub is_broken : Worker E → Bool
  is_broken (crashed n e) = true
  is_broken cancelled = true
  is_broken w = false

  unfoldable pub broken_in : List (Worker E) → Bool
  unfolding is_broken
  broken_in [] = false
  broken_in (w ∷ ws) = is_broken w || broken_in ws

  module _ (world : World E) (x : Name) where
    -- A move executes names that were left, and drops the others only if the worker breaks.
    times-advance :
        (w : Worker E)
        → times x (advance world w).1 + times x (left_of (advance world w).0) ≤ times x (left_of w)
    unfolding advance left_of times
    times-advance (queued ns) = omega arith
    times-advance (running []) = omega arith
    times-advance (running (n ∷ ns)) = ground arith
    times-advance _ = omega arith

    advance_all :
        (w : Worker E)
        → is_broken (advance world w).0 ≡ false
        → times x (advance world w).1 + times x (left_of (advance world w).0) ≡ times x (left_of w)
    unfolding advance left_of times is_broken
    advance_all (queued ns) h = omega arith
    advance_all (running []) h = omega arith
    advance_all (running (n ∷ ns)) h = ground arith
    advance_all _ h = omega arith

    pub times-advance_at :
        (i : ℕ) (ws : List (Worker E))
        → times x (advance_at world i ws).1 + times x (left_in (advance_at world i ws).0)
          ≤ times x (left_in ws)
    unfolding advance_at left_in times
    times-advance_at i [] = omega arith
    times-advance_at zero (w ∷ ws) = omega (
      arith,
      times-advance w,
      times-append x (left_of w) (left_in ws),
      times-append x (left_of (advance world w).0) (left_in ws),
    )
    times-advance_at (suc i) (w ∷ ws) = omega (
      arith,
      times-advance_at i ws,
      times-append x (left_of w) (left_in ws),
      times-append x (left_of w) (left_in (advance_at world i ws).0),
    )

    pub advance_at_all :
        (i : ℕ) (ws : List (Worker E))
        → broken_in (advance_at world i ws).0 ≡ false
        → times x (advance_at world i ws).1 + times x (left_in (advance_at world i ws).0)
          ≡ times x (left_in ws)
    unfolding advance_at left_in times broken_in
    advance_at_all i [] h = omega arith
    advance_at_all zero (w ∷ ws) h = omega (
      arith,
      advance_all w (ground arith),
      times-append x (left_of w) (left_in ws),
      times-append x (left_of (advance world w).0) (left_in ws),
    )
    advance_at_all (suc i) (w ∷ ws) h = omega (
      arith,
      advance_at_all i ws (ground arith),
      times-append x (left_of w) (left_in ws),
      times-append x (left_of w) (left_in (advance_at world i ws).0),
    )

    advance_success :
        (w : Worker E)
        → is_broken (advance world w).0 ≡ false
        → member x (advance world w).1 ≡ true
        → world x ≡ none
    unfolding advance is_broken
    advance_success (running (n ∷ ns)) h m = ground (arith, same_iff x n)
    advance_success (running []) h m = cc
    advance_success (queued ns) h m = cc
    advance_success finished h m = cc
    advance_success (crashed n e) h m = cc
    advance_success cancelled h m = cc
    advance_success collected h m = cc

    pub advance_at_success :
        (i : ℕ) (ws : List (Worker E))
        → broken_in (advance_at world i ws).0 ≡ false
        → member x (advance_at world i ws).1 ≡ true
        → world x ≡ none
    unfolding advance_at broken_in
    advance_at_success i [] h m = cc
    advance_at_success zero (w ∷ ws) h m = advance_success w (ground arith) m
    advance_at_success (suc i) (w ∷ ws) h m = advance_at_success i ws (ground arith) m

  -- A broken worker stays broken until its result is taken.
  advance_broken :
      (world : World E) (w : Worker E) → is_broken w ≡ true → is_broken (advance world w).0 ≡ true
  unfolding advance is_broken
  advance_broken world (crashed n e) h = refl
  advance_broken world cancelled h = refl
  advance_broken world (queued ns) h = cc
  advance_broken world (running []) h = cc
  advance_broken world (running (n ∷ ns)) h = cc
  advance_broken world finished h = cc
  advance_broken world collected h = cc

  pub advance_at_broken :
      (world : World E) (i : ℕ) (ws : List (Worker E))
      → broken_in ws ≡ true
      → broken_in (advance_at world i ws).0 ≡ true
  unfolding advance_at broken_in
  advance_at_broken world i [] h = h
  advance_at_broken world zero (w ∷ ws) h = ground (arith, advance_broken world w)
  advance_at_broken world (suc i) (w ∷ ws) h = ground (arith, advance_at_broken world i ws)

  -- A worker whose result is taken has no name left.
  pub mark_times :
      (idx i : ℕ) (x : Name) (ws : List (Worker E)) (o : Option (FailKey × Failure E))
      → outcome_at idx i ws ≡ some o
      → times x (left_in (mark_collected i ws)) ≡ times x (left_in ws)
  unfolding outcome_at outcome mark_collected left_in left_of times
  mark_times idx i x [] o h = absurd (ground arith)
  mark_times idx zero x (queued ns ∷ ws) o h = absurd (ground arith)
  mark_times idx zero x (running ns ∷ ws) o h = absurd (ground arith)
  mark_times idx zero x (finished ∷ ws) o h = refl
  mark_times idx zero x (crashed n e ∷ ws) o h = refl
  mark_times idx zero x (cancelled ∷ ws) o h = refl
  mark_times idx zero x (collected ∷ ws) o h = refl
  mark_times idx (suc i) x (w ∷ ws) o h = omega (
    arith,
    mark_times idx i x ws o h,
    times-append x (left_of w) (left_in ws),
    times-append x (left_of w) (left_in (mark_collected i ws)),
  )

  pub mark_broken :
      (idx i : ℕ) (ws : List (Worker E))
      → outcome_at idx i ws ≡ some none
      → broken_in (mark_collected i ws) ≡ broken_in ws
  unfolding outcome_at outcome mark_collected broken_in is_broken
  mark_broken idx i [] h = absurd (ground arith)
  mark_broken idx zero (queued ns ∷ ws) h = absurd (ground arith)
  mark_broken idx zero (running ns ∷ ws) h = absurd (ground arith)
  mark_broken idx zero (finished ∷ ws) h = refl
  mark_broken idx zero (crashed n e ∷ ws) h = absurd (ground arith)
  mark_broken idx zero (cancelled ∷ ws) h = absurd (ground arith)
  mark_broken idx zero (collected ∷ ws) h = refl
  mark_broken idx (suc i) (w ∷ ws) h = ground (arith, mark_broken idx i ws)

  cancel_times :
      (x : Name) (ws : List (Worker E)) → times x (left_in (cancel_all ws)) ≤ times x (left_in ws)
  unfolding cancel_all cancel left_in left_of times
  cancel_times x [] = omega arith
  cancel_times x (queued ns ∷ ws) = omega (arith, cancel_times x ws, times-append x ns (left_in ws))
  cancel_times x (running ns ∷ ws) = omega (
    arith,
    cancel_times x ws,
    times-append x ns (left_in ws),
    times-append x ns (left_in (cancel_all ws)),
  )
  cancel_times x (w ∷ ws) = cancel_times x ws

  pub times-after_failure :
      (policy : FailPolicy) (x : Name) (ws : List (Worker E))
      → times x (left_in (after_failure policy ws)) ≤ times x (left_in ws)
  times-after_failure fail_fast x ws = cancel_times x ws
  times-after_failure keep_going x ws = omega arith
