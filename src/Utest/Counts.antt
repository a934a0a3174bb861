-- ===== src/Utest/Counts.antt =====
-- What a run of the unit tests reports: its results, the number of failures and the fingerprints.
use fast_flow_transform.Prelude.{
  ◌≡◌, refl, sym, ap, ◌∙◌, ◌≢◌, ◌↔◌, ◌⊎◌, inl, inr, true, Option, none, some, List, [], ◌∷◌, map,
  arith, if◌then◌else◌, Bool-cases, concat, Option-cases, All,
}
use fast_flow_transform.Prelude.Names.{Name, same}
use mathlib.Core.List.{Mem}
use fast_flow_transform.Cache.{Fingerprints, get, set, get-set, update_many}
use mathlib.Core.Option
use mathlib.Core.Path.{subst}
use fast_flow_transform.Utest.{
  UnitCase, UnitSpec, iter_cases, UtestMode, utest_off, utest_ro, utest_rw, case_error, CaseResult,
  UtestWorld, UtestState, is_rw, run_spec, finalize_cache, initial_utest, run_unit_specs,
  fold_until,
}
use fast_flow_transform.Utest.Escapes.{Escapes, run_spec-Escapes, fold_until-none}
use fast_flow_transform.Utest.Added.{
  IsPass, label, reports, specs-AddsAll, adds_labels, adds_passes, adds_stored,
}

update_many_else :
    (entries fps : Fingerprints) (k : Name)
    → get fps k ≡ none
    → get (update_many entries fps) k ≡ get entries k
unfolding get update_many
update_many_else entries [] k h = refl
update_many_else entries ((j, v) ∷ fps) k h = elim (Bool-cases (same j k)) [
  | inl e ↦ absurd (ground (arith, h, e))
  | inr e ↦
      update_many_else (set entries j v) fps k
        (sym (ap (λ b. if b then some v else get fps k) e) ∙ h)
      ∙ get-set entries j v k
      ∙ ap (λ b. if b then some v else get entries k) e
]

nothing : (k : Name) → get [] k ≡ none
unfolding get
nothing k = refl

is_rw_lem :
    {D : Type 0} (w : UtestWorld D) (mode : UtestMode) → is_rw w mode ≡ true → mode ≡ utest_rw
is_rw_lem w utest_off h = absurd (ground (arith, h))
is_rw_lem w utest_ro h = absurd (ground (arith, h))
is_rw_lem w utest_rw h = refl

module _ {D : Type 0} (w : UtestWorld D) where
  -- What becomes of a run: its results, or a case from which an error of pandas escapes.
  pub data Reported (only : Option Name) (specs : List UnitSpec)
      : Option (UtestState D × Option Fingerprints) → Type 0 where
    reported :
        (s : UtestState D) (saved : Option Fingerprints)
        → map label s.results ≡ concat (map (reports w only) specs)
        → (s.failures ≡ 0) ↔ All IsPass s.results
        → Reported only specs (some (s, saved))
    aborted :
        (spec : UnitSpec) (case : UnitCase)
        → Mem spec specs
        → Mem case (iter_cases only spec)
        → Escapes w spec case
        → Reported only specs none

  -- A run returns, unless an error of pandas escapes the comparison of one of the cases that are wanted. A
  -- run that returns reports on every specification for this engine in turn, and on nothing else: one result
  -- for each of its cases that is wanted, and one if its model is missing. It counts no failure exactly when
  -- every result is a pass.
  pub run_unit_specs-results :
      (only : Option Name) (specs : List UnitSpec) (db : D)
      → Reported only specs (run_unit_specs w only specs db)
  unfolding run_unit_specs
  run_unit_specs-results only specs db =
      elim (Option-cases (fold_until (run_spec w only) (initial_utest w db) specs)) [
        | inl e ↦
            let (spec, m, (s, q)) =
              fold_until-none (run_spec w only) (initial_utest w db) specs e in
            let (case, k, x) = run_spec-Escapes w only s spec q in
            rw (run_unit_specs, e) (aborted spec case m k x)
        | inr (s, e) ↦
            let all_added = specs-AddsAll w only specs (initial_utest w db) s e in
            rw (run_unit_specs, e)
              (reported s (finalize_cache w s.computed_fps) (adds_labels all_added)
                (adds_passes all_added (λ h. tt, λ h. refl)))
      ]

  finalize_cache_stored :
      (computed cache saved : Fingerprints) (k : Name)
      → w.cache ≡ some cache
      → finalize_cache w computed ≡ some saved
      → (get saved k ≡ get cache k) ⊎ ((w.mode ≡ utest_rw) × (saved ≡ update_many cache computed))
  unfolding finalize_cache
  finalize_cache_stored computed cache saved k c h = elim (Bool-cases (is_rw w w.mode)) [
    | inr e ↦
        let q : some cache ≡ some saved = sym (rw (finalize_cache, c, e) refl) ∙ h in
        let same_cache : cache ≡ saved = cc in inl (rw same_cache refl)
    | inl e ↦
        let q : some (update_many cache computed) ≡ some saved =
          sym (rw (finalize_cache, c, e) refl) ∙ h in
        let same_cache : update_many cache computed ≡ saved = cc in
        inr (is_rw_lem w w.mode e, sym same_cache)
  ]

  -- The cache that a run saves differs from the cache before it only where it is written, and only at models
  -- with a result that is no error. (A run that an error escapes from saves none.)
  pub run_unit_specs_saved :
      (only : Option Name) (specs : List UnitSpec) (db : D) (s : UtestState D)
      (cache saved : Fingerprints) (k : Name)
      → w.cache ≡ some cache
      → run_unit_specs w only specs db ≡ some (s, some saved)
      → (get saved k ≡ get cache k)
        ⊎ ((w.mode ≡ utest_rw)
            × ((r : CaseResult) × Mem r s.results × (r.model ≡ k) × (r.status ≢ case_error)))
  unfolding run_unit_specs
  run_unit_specs_saved only specs db s cache saved k c h =
      elim (Option-cases (fold_until (run_spec w only) (initial_utest w db) specs)) [
        | inl e ↦
            let left : run_unit_specs w only specs db ≡ none = rw (run_unit_specs, e) refl in
            absurd (ground (arith, sym left ∙ h))
        | inr (s1, e) ↦
            let q : some (s1, finalize_cache w s1.computed_fps) ≡ some (s, some saved) =
              sym (rw (run_unit_specs, e) refl) ∙ h in
            let default : UtestState D × Option Fingerprints = (s, some saved) in
            let same_state : s1 ≡ s = ap (λ o. (Option.get_or o default).0) q in
            let same_saved : finalize_cache w s1.computed_fps ≡ some saved =
              ap (λ o. (Option.get_or o default).1) q in
            elim (finalize_cache_stored s1.computed_fps cache saved k c same_saved) [
              | inl kept ↦ inl kept
              | inr (mode, written) ↦
                  elim (adds_stored (specs-AddsAll w only specs (initial_utest w db) s1 e) k) [
                    | inl kept ↦
                        inl
                          (rw written (update_many_else cache s1.computed_fps k (kept ∙ nothing k)))
                    | inr found ↦ inr (
                      mode,
                      subst
                          (λ t.
                            (r : CaseResult) × Mem r t.results
                            × (r.model ≡ k)
                            × (r.status ≢ case_error))
                          same_state found,
                    )
                  ]
            ]
      ]
