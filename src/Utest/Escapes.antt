-- ===== src/Utest/Escapes.antt =====
-- Where an error of pandas escapes a run.
use fast_flow_transform.Prelude.{
  ℕ, zero, suc, ◌≡◌, refl, sym, ◌∙◌, ◌⊎◌, inl, inr, Bool, true, false, Option, none, some, List, [],
  ◌∷◌, arith, if◌then◌else◌, Bool-cases, Option-cases,
}
use fast_flow_transform.Prelude.Names.{Name}
use mathlib.Core.List.{Mem}
use fast_flow_transform.Registry.{Node, find}
use mathlib.Core.List.{mem-append_right, mem-cons_self}
use fast_flow_transform.Cache.{Fingerprints}
use fast_flow_transform.Prelude.Results.{Result, returns, raises}
use fast_flow_transform.Registry.{relation_for}
use fast_flow_transform.Utest.{
  report_case, break_case, cleanup_inputs, execution_failed, cannot_read, UnitCase, UnitSpec,
  iter_cases, UtestWorld, UtestState, run_one_case, record_model_not_found, other_engine, run_spec,
  fold_until, Frame, Checked, missing_columns, approx_mismatch, row_not_found, rows_differ,
  pandas_error, assert_rows_equal, caught, read_and_assert, finish_case, execute_case, run_loaded,
  load_inputs, fingerprint_case, target_relation, run_fps, skip_fps, may_skip,
}

-- A loop that ended early ended at one of its steps.
pub fold_until-none :
    {A B : Type 0} (f : B → A → Option B) (b : B) (xs : List A)
    → fold_until f b xs ≡ none
    → (a : A) × Mem a xs × ((c : B) × (f c a ≡ none))
unfolding fold_until
fold_until-none f b [] h = absurd (ground (arith, h))
fold_until-none f b (a ∷ xs) h = elim (Option-cases (f b a)) [
  | inl e ↦ (a, mem-cons_self, (b, e))
  | inr (c, e) ↦
      let (x, m, rest) = fold_until-none f c xs (sym (rw (fold_until, e) refl) ∙ h) in
      (x, mem-append_right (a ∷ []) m, rest)
]

module _ {D : Type 0} (w : UtestWorld D) where
  -- An error of pandas escapes a case: the relation of the case is read, and its comparison with the
  -- expected rows raises the error.
  abbrev pub Escapes : UnitSpec → UnitCase → Type 0
  Escapes spec case =
      (db : D) × (df : Frame) × (w.read_relation (target_relation w spec case) db ≡ returns df)
      × (assert_rows_equal w.pandas df case.expect ≡ raises pandas_error)

  caught-none : (r : Checked) → caught w r ≡ none → r ≡ raises pandas_error
  caught-none (returns _) h = absurd (ground (arith, h))
  caught-none (raises pandas_error) h = refl
  caught-none (raises (missing_columns names)) h = absurd (ground (arith, h))
  caught-none (raises (approx_mismatch name)) h = absurd (ground (arith, h))
  caught-none (raises (row_not_found row)) h = absurd (ground (arith, h))
  caught-none (raises rows_differ) h = absurd (ground (arith, h))

  read_result-cases :
      (r : Result Name Frame) → ((e : Name) × (r ≡ raises e)) ⊎ ((df : Frame) × (r ≡ returns df))
  read_result-cases (raises e) = inl (e, refl)
  read_result-cases (returns df) = inr (df, refl)

  read_and_assert-Escapes :
      (spec : UnitSpec) (case : UnitCase) (db : D)
      → read_and_assert w spec case db ≡ none
      → Escapes spec case
  unfolding read_and_assert
  read_and_assert-Escapes spec case db h =
      elim (read_result-cases (w.read_relation (target_relation w spec case) db)) [
        | inl (e, q) ↦
            let left : read_and_assert w spec case db
                ≡ some (some (cannot_read (target_relation w spec case) e)) =
              rw (read_and_assert, q) refl in
            absurd (ground (arith, sym left ∙ h))
        | inr (df, q) ↦ (
          db,
          df,
          q,
          caught-none (assert_rows_equal w.pandas df case.expect)
              (sym (rw (read_and_assert, q) refl) ∙ h),
        )
      ]

  finish_case-Escapes :
      (spec : UnitSpec) (case : UnitCase) (hit : Bool) (fps : Fingerprints) (db : D)
      (s : UtestState D)
      → finish_case w spec case hit fps db s ≡ none
      → Escapes spec case
  unfolding finish_case
  finish_case-Escapes spec case hit fps db s h =
      elim (Option-cases (read_and_assert w spec case db)) [
        | inl e ↦ read_and_assert-Escapes spec case db e
        | inr (m, e) ↦
            let left : finish_case w spec case hit fps db s
                ≡ some (report_case w spec case hit fps (cleanup_inputs w case.inputs db) s m) =
              rw (finish_case, e) refl in
            absurd (ground (arith, sym left ∙ h))
      ]

  execute_case-Escapes :
      (n : Node) (spec : UnitSpec) (case : UnitCase) (cand_fp : Option Name) (db : D)
      (s : UtestState D)
      → execute_case w n spec case cand_fp db s ≡ none
      → Escapes spec case
  unfolding execute_case
  execute_case-Escapes n spec case cand_fp db s h =
      let ran =
        w.run n (w.reset (relation_for n.name) (w.reset (target_relation w spec case) db)) in
      elim (Option-cases ran.1) [
        | inl e ↦
            finish_case-Escapes spec case false (run_fps w s.computed_fps n cand_fp) ran.0 s
              (sym (rw (execute_case, e) refl) ∙ h)
        | inr (m, e) ↦
            let left : execute_case w n spec case cand_fp db s
                ≡ some (
                    break_case w spec case 1 (execution_failed m) (target_relation w spec case)
                      (cleanup_inputs w case.inputs ran.0) s) =
              rw (execute_case, e) refl in
            absurd (ground (arith, sym left ∙ h))
      ]

  run_loaded-Escapes :
      (n : Node) (spec : UnitSpec) (case : UnitCase) (cand_fp : Option Name) (db : D) (failed : ℕ)
      (s : UtestState D)
      → run_loaded w n spec case cand_fp db failed s ≡ none
      → Escapes spec case
  unfolding run_loaded
  run_loaded-Escapes n spec case cand_fp db (suc m) s h = absurd (ground (arith, h))
  run_loaded-Escapes n spec case cand_fp db zero s h = elim (Bool-cases (may_skip w n cand_fp db)) [
    | inl e ↦
        finish_case-Escapes spec case true (skip_fps w s.computed_fps n cand_fp) db s
          (sym (rw (run_loaded, e) refl) ∙ h)
    | inr e ↦ execute_case-Escapes n spec case cand_fp db s (sym (rw (run_loaded, e) refl) ∙ h)
  ]

  pub run_spec-Escapes :
      (only : Option Name) (s : UtestState D) (spec : UnitSpec)
      → run_spec w only s spec ≡ none
      → (case : UnitCase) × Mem case (iter_cases only spec) × Escapes spec case
  unfolding run_spec run_one_case
  run_spec-Escapes only s spec h = elim (Bool-cases (other_engine w spec)) [
    | inl e ↦
        let left : run_spec w only s spec ≡ some s = rw (run_spec, e) refl in
        absurd (ground (arith, sym left ∙ h))
    | inr e ↦ elim (Option-cases (find spec.model w.nodes)) [
      | inl f ↦
          let left : run_spec w only s spec ≡ some (record_model_not_found w spec s) =
            rw (run_spec, e, f) refl in
          absurd (ground (arith, sym left ∙ h))
      | inr (n, f) ↦
          let (case, m, (c, q)) =
            fold_until-none (run_one_case w n spec) s (iter_cases only spec)
              (sym (rw (run_spec, e, f) refl) ∙ h) in
          let db = if w.reuse_meta then c.db else w.delete_meta n.name c.db in
          let loaded = load_inputs w spec case.inputs db in
          (
            case,
            m,
            run_loaded-Escapes n spec case (fingerprint_case w db n spec case) loaded.0 loaded.1 c
                q,
          )
    ]
  ]
