-- ===== src/Utest.antt =====
-- utest.py: the unit tests of models. The executor under test, the files and pandas are parameters; `D` is
-- the type of databases. What is printed and the durations are left out.
pub mod Spec
pub mod Compare
pub mod Adds
pub mod Escapes
pub mod Added
pub mod Counts
pub mod Rowwise
pub mod Verdicts
mod Rows
mod Samples
unfoldable pub use Spec.*
unfoldable pub use Compare.*
pub mod Context
unfoldable pub use Context.*
mod Steps
unfoldable pub use Steps.*
use fast_flow_transform.Prelude.{
  ℕ, zero, suc, ◌+◌, ◌-◌, ◌*◌, ◌/◌, ◌%◌, ◌^◌, ◌≤◌, ◌<◌, min, max, String, ◌≡◌, refl, sym, ap, ◌∙◌,
  ◌≢◌, ◌↔◌, ◌⊎◌, inl, inr, Bool, true, false, not, ◌&&◌, ◌||◌, Option, none, some, List, [], ◌∷◌,
  ◌++◌, map, foldl, arith, ltb, leb, ◌==◌, if◌then◌else◌, Bool-cases, ltb→lt, lt→ltb, length,
  length-append, is_empty, filter, concat, Option-cases, List-cases, all, any, All,
}
use fast_flow_transform.Prelude.Names.{
  Name, same, same_iff, same_lem, same_refl, member, add, set_of, IsNodup, member-add, add-IsNodup,
  member-set_of, set_of-IsNodup, member-append, member-filter, filter-IsNodup, IsSubset,
  length-subset, update, update-same, update-other,
}
use mathlib.Core.Option
use Prim.Native.String as Str
use fast_flow_transform.Prelude.Results.{Result, returns, raises}
use fast_flow_transform.Registry.{Kind, sql, python, Node, Nodes, find, relation_for}
use fast_flow_transform.Cache.{Fingerprints, get, set, update_many, can_skip_node}
use fast_flow_transform.RunEngine.{Payload, or_text}
use Spec.{RowSpec, UnitInput, UnitExpect, Inputs, UnitCase, UnitSpec, iter_cases}
use Compare.{Frame, Pandas, AssertError, assert_rows_equal}
use Context.{
  UtestMode, utest_off, utest_ro, utest_rw, CaseStatus, case_pass, case_fail, case_error,
  CaseMessage, no_message, model_not_found, input_load_failure, execution_failed, cannot_read,
  not_equal, CaseResult, InputItem, UtestWorld, UtestState,
}
use Steps.{fingerprint_case, load_inputs, cleanup_inputs, target_relation, read_and_assert}

-- A loop that ends where a step gives `none`.
unfoldable pub fold_until : {A B : Type 0} → (B → A → Option B) → B → List A → Option B
fold_until f b [] = some b
fold_until f b (a ∷ xs) = elim (f b a) [ none ↦ none | some b' ↦ fold_until f b' xs ]

module _ {D : Type 0} (w : UtestWorld D) where
  abbrev pub nonempty_fp : Option Name → Option Name
  nonempty_fp none = none
  nonempty_fp (some fp) = if same fp "" then none else some fp

  abbrev pub is_off : UtestMode → Bool
  is_off utest_off = true
  is_off utest_ro = false
  is_off utest_rw = false

  abbrev pub is_rw : UtestMode → Bool
  is_rw utest_off = false
  is_rw utest_ro = false
  is_rw utest_rw = true

  -- `_maybe_skip_by_cache`
  unfoldable pub may_skip : Node → Option Name → D → Bool
  unfolding can_skip_node
  may_skip n cand_fp db = elim (nonempty_fp cand_fp) [
    | none ↦ false
    | some fp ↦ elim w.cache [
      | none ↦ false
      | some cache ↦
          not (is_off w.mode)
          && can_skip_node (w.relation_exists db) cache n.name fp
              (Option.get_or n.meta.materialized "table")
    ]
  ]

  -- `ctx.computed_fps.setdefault`
  unfoldable pub set_default : Fingerprints → Name → Name → Fingerprints
  unfolding get set
  set_default fps k v = elim (get fps k) [ some _ ↦ fps | none ↦ set fps k v ]

  unfoldable pub skip_fps : Fingerprints → Node → Option Name → Fingerprints
  unfolding set_default
  skip_fps fps n none = fps
  skip_fps fps n (some fp) = if is_rw w.mode then set_default fps n.name fp else fps

  -- The update of `_execute_and_update_cache` after a run without an error.
  unfoldable pub run_fps : Fingerprints → Node → Option Name → Fingerprints
  unfolding set
  run_fps fps n cand_fp = elim (nonempty_fp cand_fp) [
    | none ↦ fps
    | some fp ↦ elim w.cache [
      | none ↦ fps
      | some _ ↦ if is_rw w.mode then set fps n.name fp else fps
    ]
  ]

  -- `_append_result`
  abbrev pub case_result : UnitSpec → UnitCase → CaseStatus → CaseMessage → Bool → Name → CaseResult
  case_result spec case status message hit relation = record {
    model = spec.model;
    case = case.name;
    status = status;
    message = message;
    cache_hit = hit;
    target_relation = relation;
    spec_path = spec.path;
  }

  -- The end of a case whose result was read: one more failure, or none.
  abbrev pub report_case :
      UnitSpec
      → UnitCase
      → Bool
      → Fingerprints
      → D
      → UtestState D
      → Option CaseMessage
      → UtestState D
  report_case spec case hit fps db s none = record {
    db = db;
    computed_fps = fps;
    failures = s.failures;
    results =
        s.results
        ++ case_result spec case case_pass no_message hit (target_relation w spec case) ∷ [];
  }
  report_case spec case hit fps db s (some message) = record {
    db = db;
    computed_fps = fps;
    failures = suc s.failures;
    results =
        s.results ++ case_result spec case case_fail message hit (target_relation w spec case) ∷ [];
  }

  -- An error that escapes the comparison ends the whole run: `none`.
  unfoldable pub finish_case :
      UnitSpec → UnitCase → Bool → Fingerprints → D → UtestState D → Option (UtestState D)
  unfolding read_and_assert cleanup_inputs target_relation
  finish_case spec case hit fps db s = elim (read_and_assert w spec case db) [
    | none ↦ none
    | some message ↦
        some (report_case spec case hit fps (cleanup_inputs w case.inputs db) s message)
  ]

  -- A case without a result, with what it adds to the failures.
  abbrev pub break_case :
      UnitSpec → UnitCase → ℕ → CaseMessage → Name → D → UtestState D → UtestState D
  break_case spec case failed message relation db s = record {
    db = db;
    computed_fps = s.computed_fps;
    failures = s.failures + failed;
    results = s.results ++ case_result spec case case_error message false relation ∷ [];
  }

  -- `_execute_node` after the reset of the target.
  unfoldable pub execute_case :
      Node → UnitSpec → UnitCase → Option Name → D → UtestState D → Option (UtestState D)
  unfolding finish_case run_fps cleanup_inputs target_relation relation_for
  execute_case n spec case cand_fp db s =
      let ran =
        w.run n (w.reset (relation_for n.name) (w.reset (target_relation w spec case) db)) in
      elim ran.1 [
        | none ↦ finish_case spec case false (run_fps s.computed_fps n cand_fp) ran.0 s
        | some e ↦ some (
            break_case spec case 1 (execution_failed e) (target_relation w spec case)
              (cleanup_inputs w case.inputs ran.0) s)
      ]

  -- `_run_one_case`, by the inputs that failed to load.
  unfoldable pub run_loaded :
      Node → UnitSpec → UnitCase → Option Name → D → ℕ → UtestState D → Option (UtestState D)
  unfolding may_skip skip_fps finish_case execute_case
  run_loaded n spec case cand_fp db (suc failed) s =
      some (break_case spec case (suc failed) input_load_failure "" db s)
  run_loaded n spec case cand_fp db zero s =
      if may_skip n cand_fp db
      then finish_case spec case true (skip_fps s.computed_fps n cand_fp) db s
      else execute_case n spec case cand_fp db s

  unfoldable pub run_one_case : Node → UnitSpec → UtestState D → UnitCase → Option (UtestState D)
  unfolding fingerprint_case load_inputs run_loaded
  run_one_case n spec s case =
      let db = if w.reuse_meta then s.db else w.delete_meta n.name s.db in
      let (db', failed) = load_inputs w spec case.inputs db in
      run_loaded n spec case (fingerprint_case w db n spec case) db' failed s

  -- `_record_model_not_found`
  unfoldable pub record_model_not_found : UnitSpec → UtestState D → UtestState D
  record_model_not_found spec s = record s {
    failures = suc s.failures;
    results =
        s.results
        ++ record {
          model = spec.model;
          case = "";
          status = case_error;
          message = model_not_found;
          cache_hit = false;
          target_relation = "";
          spec_path = spec.path;
        }
          ∷ [];
  }

  -- `spec.engine and spec.engine != ctx.engine_name`
  unfoldable pub other_engine : UnitSpec → Bool
  other_engine spec = not (same (or_text spec.engine w.engine_name) w.engine_name)

  -- The body of the loop of `run_unit_specs`.
  unfoldable pub run_spec : Option Name → UtestState D → UnitSpec → Option (UtestState D)
  unfolding fold_until other_engine find record_model_not_found iter_cases run_one_case
  run_spec only s spec = if other_engine spec then some s else elim (find spec.model w.nodes) [
    | none ↦ some (record_model_not_found spec s)
    | some n ↦ fold_until (run_one_case n spec) s (iter_cases only spec)
  ]

  -- `_finalize_cache`
  unfoldable pub finalize_cache : Fingerprints → Option Fingerprints
  unfolding update_many
  finalize_cache computed = elim w.cache [
    | none ↦ none
    | some cache ↦ if is_rw w.mode then some (update_many cache computed) else some cache
  ]

  abbrev pub initial_utest : D → UtestState D
  initial_utest db = record { db = db; computed_fps = []; failures = 0; results = [] }

  -- `run_unit_specs`: the state at its end and the cache that is saved, unless an error escapes.
  unfoldable pub run_unit_specs :
      Option Name → List UnitSpec → D → Option (UtestState D × Option Fingerprints)
  unfolding fold_until run_spec finalize_cache
  run_unit_specs only specs db =
      Option.map (λ s. (s, finalize_cache s.computed_fps))
        (fold_until (run_spec only) (initial_utest db) specs)
