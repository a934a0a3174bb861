-- ===== src/RunExecutor/Schedule.antt =====
-- The schedule runs a node only after the nodes that it depends on, and only if they succeeded.
use mathlib.Core.List.{append-nil, append_assoc}
use fast_flow_transform.Prelude.{
  ℕ, suc, ◌≡◌, ap, ◌∙◌, inl, inr, true, false, none, some, List, [], ◌∷◌, ◌++◌, arith, Bool-cases,
  is_empty, concat, Option-cases,
}
use fast_flow_transform.Prelude.Names.{Name, same_refl, member, member-append, IsSubset}
use fast_flow_transform.Registry.{Nodes}
use fast_flow_transform.Dag.Edges.{deps_of}
use fast_flow_transform.Dag.Round.{IsLayered}
use fast_flow_transform.Dag.Topo.{IsTopological}
use fast_flow_transform.RunExecutor.{
  FailPolicy, World, Event, complete, run_level, ScheduleResult, schedule,
}
use fast_flow_transform.RunExecutor.Workers.{times}
use fast_flow_transform.RunExecutor.Level.{
  run_level-PoolInv, run_level_once, run_level_success, member-times, times-member,
}

-- The batches of a level hold its names, each as often.
abbrev pub KeepsNames : (List Name → List (List Name)) → Type 0
KeepsNames batches = (l : List Name) (x : Name) → times x (concat (batches l)) ≡ times x l

-- Every dependency of an executed name succeeded, and stands in `before` or was executed earlier.
pub record IsSafe {E : Type 0} (ns : Nodes) (world : World E) (before done : List Name)
    : Type 0 where
  pub in_order : IsTopological ns before done
  pub deps_succeeded :
      (n d : Name) → member n done ≡ true → member d (deps_of ns n) ≡ true → world d ≡ none

IsTopological-of_deps :
    (ns : Nodes) (before xs : List Name)
    → ((n d : Name) → member n xs ≡ true → member d (deps_of ns n) ≡ true → member d before ≡ true)
    → IsTopological ns before xs
IsTopological-of_deps ns before [] f = tt
IsTopological-of_deps ns before (x ∷ xs) f = (
  λ d m. f x d (ground (arith, same_refl x)) m,
  IsTopological-of_deps ns (before ++ x ∷ []) xs
      (λ n d m e. ground (arith, f n d, member-append d before (x ∷ []))),
)

IsTopological-subset :
    (ns : Nodes) (before after xs : List Name)
    → IsSubset before after
    → IsTopological ns before xs
    → IsTopological ns after xs
IsTopological-subset ns before after [] f h = tt
IsTopological-subset ns before after (x ∷ xs) f h = (
  λ d m. f d (h.0 d m),
  IsTopological-subset ns (before ++ x ∷ []) (after ++ x ∷ []) xs
      (λ a m. ground (arith, f a, member-append a before (x ∷ []), member-append a after (x ∷ [])))
      h.1,
)

IsTopological-append :
    (ns : Nodes) (before xs ys : List Name)
    → IsTopological ns before xs
    → IsTopological ns (before ++ xs) ys
    → IsTopological ns before (xs ++ ys)
IsTopological-append ns before [] ys h k = rw append-nil at k
IsTopological-append ns before (x ∷ xs) ys h k =
    (h.0, IsTopological-append ns (before ++ x ∷ []) xs ys h.1 (rw append_assoc k))

append-eq-nil {ℓ} : {A : Type ℓ} (xs ys : List A) → xs ++ ys ≡ [] → ys ≡ []
append-eq-nil [] ys e = e
append-eq-nil (x ∷ xs) ys e = absurd (ground arith)

module _ {E : Type 0} (ns : Nodes) (world : World E) (policy : FailPolicy)
    (batches : List Name → List (List Name)) (keeps : KeepsNames batches) where
  -- One level: what it executed is safe, and with no error it executed the level.
  level-IsSafe :
      (before l : List Name) (idx : ℕ) (events : List Event)
      → ((n d : Name) → member n l ≡ true → member d (deps_of ns n) ≡ true → member d before ≡ true)
      → ((d : Name) → member d before ≡ true → world d ≡ none)
      → IsSafe ns world before (run_level world policy idx (batches l) events).executed
  level-IsSafe before l idx events f ok =
      let done = (run_level world policy idx (batches l) events).executed in
      let given : (n : Name) → member n done ≡ true → member n l ≡ true = (λ n m. times-member n l (
        omega (
          arith,
          member-times n done m,
          run_level_once world policy idx (batches l) events n,
          keeps l n,
        ))) in
      record {
        in_order = IsTopological-of_deps ns before done (λ n d m e. f n d (given n m) e);
        deps_succeeded = λ n d m e. ok d (f n d (given n m) e);
      }

  level_finished :
      (l : List Name) (idx : ℕ) (events : List Event)
      → complete (run_level world policy idx (batches l) events) ≡ true
      → (run_level world policy idx (batches l) events).had_error ≡ false
      → (x : Name) → member x l ≡ true
      → (member x (run_level world policy idx (batches l) events).executed ≡ true)
        × (world x ≡ none)
  level_finished l idx events c e x m =
      let (same_times, fine) = run_level_success world policy idx (batches l) events c e x in
      let given = member-times x l m in
      (
        times-member x _ (omega (arith, same_times, keeps l x)),
        fine (times-member x (concat (batches l)) (omega (arith, keeps l x))),
      )

  IsSafe-append :
      (before l done more : List Name)
      → IsSafe ns world before done
      → IsSubset l done
      → IsSafe ns world (before ++ l) more
      → IsSafe ns world before (done ++ more)
  IsSafe-append before l done more s f t = record {
    in_order = IsTopological-append ns before done more s.in_order (
        IsTopological-subset ns (before ++ l) (before ++ done) more
          (λ a m. ground (arith, f a, member-append a before l, member-append a before done))
          t.in_order);
    deps_succeeded = λ n d m e. elim (Bool-cases (member n done)) [
      | inl q ↦ s.deps_succeeded n d q e
      | inr q ↦ t.deps_succeeded n d (ground (arith, member-append n done more)) e
    ];
  }

  pub schedule-IsSafe :
      (lvls : List (List Name)) (before : List Name) (idx : ℕ) (eventss : List (List Event))
      (r : ScheduleResult E)
      → IsLayered ns before lvls
      → ((d : Name) → member d before ≡ true → world d ≡ none)
      → schedule world policy batches idx lvls eventss ≡ some r
      → IsSafe ns world before r.per_node
  unfolding schedule
  schedule-IsSafe [] before idx eventss r h ok e =
      let q : r.per_node ≡ [] = ground arith in
      rw q (record { in_order = tt; deps_succeeded = λ n d m _. absurd (ground arith) })
  schedule-IsSafe (l ∷ ls) before idx [] r h ok e = absurd (ground arith)
  schedule-IsSafe (l ∷ ls) before idx (events ∷ eventss) r h ok e =
      let p = run_level world policy idx (batches l) events in
      let this = level-IsSafe before l idx events h.0 ok in
      elim (Bool-cases (complete p)) [
        | inr c ↦ absurd (ground arith)
        | inl c ↦ elim (Bool-cases p.had_error) [
          | inl err ↦ let q : p.executed ≡ r.per_node = ground arith in rw (← q) this
          | inr fine ↦ elim (Option-cases (schedule world policy batches (suc idx) ls eventss)) [
            | inl q ↦ absurd (ground arith)
            | inr (r', q) ↦
                let both : r.per_node ≡ p.executed ++ r'.per_node = ground arith in
                let finished = level_finished l idx events c fine in
                let later =
                  schedule-IsSafe ls (before ++ l) (suc idx) eventss r' h.1
                    (λ d m. elim (Bool-cases (member d before)) [
                      | inl b ↦ ok d b
                      | inr b ↦ (finished d (ground (arith, member-append d before l))).1
                    ])
                    q in
                rw both (
                  IsSafe-append before l p.executed r'.per_node this (λ a m. (finished a m).0)
                    later)
          ]
        ]
      ]

  -- A schedule that reports no failure executed every name of every level, and none raised.
  pub schedule_all :
      (lvls : List (List Name)) (idx : ℕ) (eventss : List (List Event)) (r : ScheduleResult E)
      → schedule world policy batches idx lvls eventss ≡ some r
      → r.failures ≡ []
      → (x : Name) → member x (concat lvls) ≡ true
      → (member x r.per_node ≡ true) × (world x ≡ none)
  unfolding schedule
  schedule_all [] idx eventss r e f x m = absurd (ground arith)
  schedule_all (l ∷ ls) idx [] r e f x m = absurd (ground arith)
  schedule_all (l ∷ ls) idx (events ∷ eventss) r e f x m =
      let p = run_level world policy idx (batches l) events in
      let reported = (run_level-PoolInv world policy idx (batches l) events).reported in
      elim (Bool-cases (complete p)) [
        | inr c ↦ absurd (ground arith)
        | inl c ↦ elim (Bool-cases p.had_error) [
          | inl err ↦
              let q : p.failed ≡ r.failures = ground arith in
              absurd (ground (arith, ap is_empty (q ∙ f)))
          | inr fine ↦ elim (Option-cases (schedule world policy batches (suc idx) ls eventss)) [
            | inl q ↦ absurd (ground arith)
            | inr (r', q) ↦
                let both : r.per_node ≡ p.executed ++ r'.per_node = ground arith in
                let clean : p.failed ++ r'.failures ≡ [] = ground arith in
                let no_more : r'.failures ≡ [] = append-eq-nil p.failed r'.failures clean in
                elim (Bool-cases (member x l)) [
                  | inl here ↦
                      let (ran, ok) = level_finished l idx events c fine x here in
                      (rw both (ground (arith, member-append x p.executed r'.per_node)), ok)
                  | inr there ↦
                      let (ran, ok) =
                        schedule_all ls (suc idx) eventss r' q no_more x
                          (ground (arith, member-append x l (concat ls))) in
                      (rw both (ground (arith, member-append x p.executed r'.per_node)), ok)
                ]
          ]
        ]
      ]
