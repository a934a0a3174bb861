-- ===== src/RunExecutor/Level.antt =====
-- What every list of events keeps: no node is executed twice or without being given, and without an
-- error each node is executed with success.
use fast_flow_transform.Prelude.{
  ℕ, ◌+◌, ◌≤◌, ◌<◌, ◌≡◌, refl, sym, ap, ◌∙◌, inl, inr, true, false, not, none, some, List, [], ◌∷◌,
  ◌++◌, foldl, arith, Bool-cases, is_empty, concat, Option-cases, all,
}
use fast_flow_transform.Prelude.Names.{Name, member, member-append}
use fast_flow_transform.RunExecutor.{
  FailPolicy, World, Worker, queued, running, finished, crashed, cancelled, collected, Pool, Event,
  run, collect, advance_at, outcome_at, mark_collected, step, is_collected, complete, submit,
  run_level,
}
use fast_flow_transform.RunExecutor.Workers.{
  times, times-append, left_of, left_in, is_broken, broken_in, times-advance_at, advance_at_all,
  advance_at_success, advance_at_broken, mark_times, mark_broken, times-after_failure,
}

snoc-nonempty {ℓ} : {A : Type ℓ} (xs : List A) (x : A) → is_empty (xs ++ x ∷ []) ≡ false
snoc-nonempty [] x = refl
snoc-nonempty (y ∷ xs) x = refl

pub member-times : (x : Name) (xs : List Name) → member x xs ≡ true → 0 < times x xs
unfolding times
member-times x [] m = cc
member-times x (y ∷ xs) m = ground (arith, member-times x xs)

pub times-member : (x : Name) (xs : List Name) → 0 < times x xs → member x xs ≡ true
unfolding times
times-member x [] m = absurd (omega arith)
times-member x (y ∷ xs) m = ground (arith, times-member x xs)

left-submit :
    (E : Type 0) (groups : List (List Name))
    → left_in (submit {E = E} groups).workers ≡ concat groups
unfolding submit left_in left_of
left-submit E [] = refl
left-submit E (g ∷ gs) = ap (λ l. g ++ l) (left-submit E gs)

module _ {E : Type 0} where
  pub record PoolInv (world : World E) (given : List Name) (p : Pool E) : Type 0 where
    pub once : (x : Name) → times x p.executed + times x (left_in p.workers) ≤ times x given
    pub all_run :
        (x : Name)
        → p.had_error ≡ false
        → broken_in p.workers ≡ false
        → times x p.executed + times x (left_in p.workers) ≡ times x given
    pub success :
        (x : Name)
        → p.had_error ≡ false
        → broken_in p.workers ≡ false
        → member x p.executed ≡ true
        → world x ≡ none
    pub reported : is_empty p.failed ≡ not p.had_error

  module _ (world : World E) (policy : FailPolicy) (idx : ℕ) (given : List Name) where
    run-PoolInv :
        (p : Pool E) (i : ℕ)
        → PoolInv world given p
        → PoolInv world given (step world policy idx p (run i))
    unfolding step
    run-PoolInv p i inv =
        let (ws, done) = advance_at world i p.workers in
        let healthy : broken_in ws ≡ false → broken_in p.workers ≡ false = (λ h.
          elim (Bool-cases (broken_in p.workers)) [
            | inl b ↦ absurd (ground (arith, advance_at_broken world i p.workers b))
            | inr b ↦ b
          ]) in
        record {
          once = λ x. omega (
            arith,
            inv.once x,
            times-advance_at world x i p.workers,
            times-append x p.executed done,
          );
          all_run = λ x e b. omega (
            arith,
            inv.all_run x e (healthy b),
            advance_at_all world x i p.workers b,
            times-append x p.executed done,
          );
          success = λ x e b m. elim (Bool-cases (member x p.executed)) [
            | inl q ↦ inv.success x e (healthy b) q
            | inr q ↦
                advance_at_success world x i p.workers b
                  (ground (arith, member-append x p.executed done))
          ];
          reported = inv.reported;
        }

    collect-PoolInv :
        (p : Pool E) (i : ℕ)
        → PoolInv world given p
        → PoolInv world given (step world policy idx p (collect i))
    unfolding step
    collect-PoolInv p i inv = elim (Option-cases (outcome_at idx i p.workers)) [
      | inl e ↦ rw (e, step) inv
      | inr (none, e) ↦
          rw (e, step)
            (record {
              once = λ x. omega (arith, inv.once x, mark_times idx i x p.workers none e);
              all_run = λ x h b. omega (
                arith,
                inv.all_run x h (sym (mark_broken idx i p.workers e) ∙ b),
                mark_times idx i x p.workers none e,
              );
              success = λ x h b m. inv.success x h (sym (mark_broken idx i p.workers e) ∙ b) m;
              reported = inv.reported;
            })
      | inr (some f, e) ↦
          rw (e, step)
            (record {
              once = λ x. omega (
                arith,
                inv.once x,
                mark_times idx i x p.workers (some f) e,
                times-after_failure policy x (mark_collected i p.workers),
              );
              all_run = λ x h b. cc;
              success = λ x h b m. cc;
              reported = snoc-nonempty p.failed f;
            })
    ]

    events-PoolInv :
        (events : List Event) (p : Pool E)
        → PoolInv world given p
        → PoolInv world given (foldl (step world policy idx) p events)
    events-PoolInv [] p inv = inv
    events-PoolInv (run i ∷ events) p inv =
        events-PoolInv events (step world policy idx p (run i)) (run-PoolInv p i inv)
    events-PoolInv (collect i ∷ events) p inv =
        events-PoolInv events (step world policy idx p (collect i)) (collect-PoolInv p i inv)

  -- Whatever happened so far in a level: the invariant.
  pub run_level-PoolInv :
      (world : World E) (policy : FailPolicy) (idx : ℕ) (groups : List (List Name))
      (events : List Event)
      → PoolInv world (concat groups) (run_level world policy idx groups events)
  unfolding run_level submit
  run_level-PoolInv world policy idx groups events =
      events-PoolInv world policy idx (concat groups) events (submit groups) (record {
        once = λ x. unfold times in omega (arith, ap (times x) (left-submit E groups));
        all_run = λ x e b. unfold times in omega (arith, ap (times x) (left-submit E groups));
        success = λ x e b m. cc;
        reported = refl;
      })

  complete-left :
      (ws : List (Worker E))
      → all is_collected ws ≡ true
      → (left_in ws ≡ []) × (broken_in ws ≡ false)
  unfolding is_collected left_in left_of broken_in is_broken
  complete-left [] h = (refl, refl)
  complete-left (collected ∷ ws) h = complete-left ws h
  complete-left (queued ns ∷ ws) h = cc
  complete-left (running ns ∷ ws) h = cc
  complete-left (finished ∷ ws) h = cc
  complete-left (crashed n e ∷ ws) h = cc
  complete-left (cancelled ∷ ws) h = cc

  module _ (world : World E) (policy : FailPolicy) (idx : ℕ) (groups : List (List Name))
      (events : List Event) where
    -- In every interleaving, a name is executed at most as often as the groups hold it.
    pub run_level_once :
        (x : Name)
        → times x (run_level world policy idx groups events).executed ≤ times x (concat groups)
    run_level_once x = omega (arith, (run_level-PoolInv world policy idx groups events).once x)

    -- A level that ends without an error has executed every name of its groups, and none failed.
    pub run_level_success :
        complete (run_level world policy idx groups events) ≡ true
        → (run_level world policy idx groups events).had_error ≡ false
        → (x : Name)
        → (times x (run_level world policy idx groups events).executed ≡ times x (concat groups))
          × (member x (concat groups) ≡ true → world x ≡ none)
    unfolding complete
    run_level_success done fine x =
        let p = run_level world policy idx groups events in
        let inv = run_level-PoolInv world policy idx groups events in
        let (none_left, healthy) = complete-left p.workers done in
        let all_run : times x p.executed ≡ times x (concat groups) =
          unfold times in omega (arith, inv.all_run x fine healthy, ap (times x) none_left) in
        (
          all_run,
          λ m.
              inv.success x fine healthy
                (times-member x p.executed (omega (arith, member-times x (concat groups) m))),
        )
