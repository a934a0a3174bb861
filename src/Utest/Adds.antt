-- ===== src/Utest/Adds.antt =====
-- What a case adds to the state of a run.
use fast_flow_transform.Prelude.{
  ℕ, zero, suc, ◌<◌, ◌≡◌, refl, sym, ◌∙◌, ◌≢◌, ◌⊎◌, inl, inr, Bool, true, false, Option, none, some,
  [], ◌∷◌, ◌++◌, arith, if◌then◌else◌, Bool-cases, Option-cases,
}
use fast_flow_transform.Prelude.Names.{Name, same, same_lem}
use mathlib.Core.Option
use mathlib.Core.Path.{subst}
use fast_flow_transform.Registry.{Node, relation_for}
use fast_flow_transform.Cache.{Fingerprints, get, set, get-set}
use fast_flow_transform.Utest.{
  report_case, break_case, cleanup_inputs, execution_failed, UnitCase, UnitSpec, CaseStatus,
  case_pass, case_fail, case_error, CaseResult, UtestWorld, UtestState, is_rw, nonempty_fp,
  load_inputs, target_relation, read_and_assert, may_skip, set_default, skip_fps, run_fps,
  finish_case, execute_case, run_loaded, fingerprint_case, run_one_case,
}

-- The failures before and after a result.
pub data Counted : CaseStatus → ℕ → ℕ → Type 0 where
  passed : {n : ℕ} → Counted case_pass n n
  failed : {n m : ℕ} → n < m → Counted case_fail n m
  broken : {n m : ℕ} → n < m → Counted case_error n m

-- Fingerprints change only at a name, and only where the case was no error.
abbrev pub Stored : Name → CaseStatus → Fingerprints → Fingerprints → Type 0
Stored name status fps fps' =
    (k : Name) → (get fps' k ≡ get fps k) ⊎ ((k ≡ name) × (status ≢ case_error))

-- One more result.
pub data Adds {D : Type 0} (name model case : Name) (s s' : UtestState D) : Type 0 where
  adds :
      (r : CaseResult)
      → s'.results ≡ s.results ++ r ∷ []
      → (r.model ≡ model) × (r.case ≡ case)
      → Counted r.status s.failures s'.failures
      → Stored name r.status s.computed_fps s'.computed_fps
      → Adds name model case s s'

of_some :
    {D : Type 0} {name model case : Name} {s s1 s' : UtestState D}
    → some s1 ≡ some s'
    → Adds name model case s s1
    → Adds name model case s s'
of_some {D} {name} {model} {case} {s} {s1} q a =
    subst (λ o. Adds name model case s (Option.get_or o s1)) q a

Stored-set :
    (status : CaseStatus) (fps : Fingerprints) (name fp : Name)
    → status ≢ case_error
    → Stored name status fps (set fps name fp)
Stored-set status fps name fp h k = elim (Bool-cases (same name k)) [
  | inl e ↦ inr (sym (same_lem name k e), h)
  | inr e ↦ inl (rw (get-set fps name fp k, e) refl)
]

module _ {D : Type 0} (w : UtestWorld D) where
  Stored-set_default :
      (status : CaseStatus) (fps : Fingerprints) (name fp : Name)
      → status ≢ case_error
      → Stored name status fps (set_default w fps name fp)
  unfolding set_default
  Stored-set_default status fps name fp h k = elim (Option-cases (get fps name)) [
    | inl e ↦ rw (set_default, e) (Stored-set status fps name fp h k)
    | inr (v, e) ↦ rw (set_default, e) (inl refl)
  ]

  Stored-skip_fps :
      (status : CaseStatus) (fps : Fingerprints) (n : Node) (cand_fp : Option Name)
      → status ≢ case_error
      → Stored n.name status fps (skip_fps w fps n cand_fp)
  unfolding skip_fps
  Stored-skip_fps status fps n none h k = inl refl
  Stored-skip_fps status fps n (some fp) h k = elim (Bool-cases (is_rw w w.mode)) [
    | inl e ↦ rw e (Stored-set_default status fps n.name fp h k)
    | inr e ↦ rw e (inl refl)
  ]

  Stored-run_fps :
      (status : CaseStatus) (fps : Fingerprints) (n : Node) (cand_fp : Option Name)
      → status ≢ case_error
      → Stored n.name status fps (run_fps w fps n cand_fp)
  unfolding run_fps
  Stored-run_fps status fps n cand_fp h k = elim (Option-cases (nonempty_fp w cand_fp)) [
    | inl e ↦ rw (run_fps, e) (inl refl)
    | inr (fp, e) ↦ elim (Option-cases w.cache) [
      | inl c ↦ rw (run_fps, e, c) (inl refl)
      | inr (cache, c) ↦ elim (Bool-cases (is_rw w w.mode)) [
        | inl q ↦ rw (run_fps, e, c, q) (Stored-set status fps n.name fp h k)
        | inr q ↦ rw (run_fps, e, c, q) (inl refl)
      ]
    ]
  ]

  finish_case-Adds :
      (name : Name) (spec : UnitSpec) (case : UnitCase) (hit : Bool) (fps : Fingerprints) (db : D)
      (s s' : UtestState D)
      → ((status : CaseStatus) → status ≢ case_error → Stored name status s.computed_fps fps)
      → finish_case w spec case hit fps db s ≡ some s'
      → Adds name spec.model case.name s s'
  unfolding finish_case
  finish_case-Adds name spec case hit fps db s s' h q =
      elim (Option-cases (read_and_assert w spec case db)) [
        | inl e ↦
            let none_left : finish_case w spec case hit fps db s ≡ none =
              rw (finish_case, e) refl in
            absurd (ground (arith, sym none_left ∙ q))
        | inr (o, e) ↦ elim (Option-cases o) [
          | inl n ↦
              of_some
                {s1 = report_case w spec case hit fps (cleanup_inputs w case.inputs db) s none}
                (sym (rw (finish_case, e, n) refl) ∙ q)
                (adds _ refl (refl, refl) passed (h case_pass (λ q. ground (arith, q))))
          | inr (m, n) ↦
              of_some
                {s1 = report_case w spec case hit fps (cleanup_inputs w case.inputs db) s (some m)}
                (sym (rw (finish_case, e, n) refl) ∙ q)
                (adds _ refl (refl, refl) (failed (omega arith))
                  (h case_fail (λ q. ground (arith, q))))
        ]
      ]

  execute_case-Adds :
      (n : Node) (spec : UnitSpec) (case : UnitCase) (cand_fp : Option Name) (db : D)
      (s s' : UtestState D)
      → execute_case w n spec case cand_fp db s ≡ some s'
      → Adds n.name spec.model case.name s s'
  unfolding execute_case
  execute_case-Adds n spec case cand_fp db s s' q =
      let ran =
        w.run n (w.reset (relation_for n.name) (w.reset (target_relation w spec case) db)) in
      elim (Option-cases ran.1) [
        | inl e ↦
            finish_case-Adds n.name spec case false (run_fps w s.computed_fps n cand_fp) ran.0 s s'
              (λ status h. Stored-run_fps status s.computed_fps n cand_fp h)
              (sym (rw (execute_case, e) refl) ∙ q)
        | inr (m, e) ↦
            of_some
              {s1 = break_case w spec case 1 (execution_failed m) (target_relation w spec case)
                (cleanup_inputs w case.inputs ran.0) s}
              (sym (rw (execute_case, e) refl) ∙ q)
              (adds _ refl (refl, refl) (broken (omega arith)) (λ k. inl refl))
      ]

  run_loaded-Adds :
      (n : Node) (spec : UnitSpec) (case : UnitCase) (cand_fp : Option Name) (db : D) (failed : ℕ)
      (s s' : UtestState D)
      → run_loaded w n spec case cand_fp db failed s ≡ some s'
      → Adds n.name spec.model case.name s s'
  unfolding run_loaded
  run_loaded-Adds n spec case cand_fp db (suc m) s s' q =
      of_some q (adds _ refl (refl, refl) (broken (omega arith)) (λ k. inl refl))
  run_loaded-Adds n spec case cand_fp db zero s s' q = elim (Bool-cases (may_skip w n cand_fp db)) [
    | inl e ↦
        finish_case-Adds n.name spec case true (skip_fps w s.computed_fps n cand_fp) db s s'
          (λ status h. Stored-skip_fps status s.computed_fps n cand_fp h)
          (sym (rw (run_loaded, e) refl) ∙ q)
    | inr e ↦ execute_case-Adds n spec case cand_fp db s s' (sym (rw (run_loaded, e) refl) ∙ q)
  ]

  pub run_one_case-Adds :
      (n : Node) (spec : UnitSpec) (s s' : UtestState D) (case : UnitCase)
      → run_one_case w n spec s case ≡ some s'
      → Adds n.name spec.model case.name s s'
  unfolding run_one_case
  run_one_case-Adds n spec s s' case q =
      let db = if w.reuse_meta then s.db else w.delete_meta n.name s.db in
      let loaded = load_inputs w spec case.inputs db in
      run_loaded-Adds n spec case (fingerprint_case w db n spec case) loaded.0 loaded.1 s s' q
