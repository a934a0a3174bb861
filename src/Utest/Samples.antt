-- ===== src/Utest/Samples.antt =====
-- Sample unit tests, and the theorems at them.
use fast_flow_transform.Prelude.{
  ◌≡◌, refl, sym, ap, ◌∙◌, ◌≢◌, ◌⊎◌, Bool, true, false, Option, none, some, List, [], ◌∷◌, map,
  if◌then◌else◌, is_empty, all, any,
}
use fast_flow_transform.Prelude.Names.{Name, same}
use mathlib.Core.Option
use mathlib.Core.Path.{subst}
use mathlib.Core.List.{Permᴰ, Mem}
use fast_flow_transform.Prelude.Results.{returns, raises}
use fast_flow_transform.Registry.{Node, python, no_tags}
use fast_flow_transform.Cache.{Fingerprints, get}
use fast_flow_transform.Utest.{
  Cell, none_cell, value, RowSpec, UnitExpect, SetFields, RawCase, UnitSpec, Frame, Pandas,
  frame_of, assert_rows_equal, UtestMode, utest_rw, CaseStatus, case_pass, case_fail, case_error,
  CaseResult, UtestWorld, UtestState, run_unit_specs, initial_utest, eq_row, normalize_rows,
  normalize_cell,
}
use fast_flow_transform.Utest.Counts.{Reported, run_unit_specs-results, run_unit_specs_saved}
use fast_flow_transform.Utest.Verdicts.{
  PassesOrRaises, absent, common_rows, expected_of, assert_rows_equal_iff,
  assert_rows_equal_subset_iff,
}
use fast_flow_transform.Utest.Rows.{
  sort_rows, sort_rows-columns, sort_rows-perm, sort_rows-canonical,
}

abbrev pandas : Pandas
pandas = record {
  sort_values = λ columns df. some (sort_rows df);
  too_far = λ tol a e. false;
  same_cell = λ a b. same (normalize_cell a) (normalize_cell b);
}

abbrev expect : List (List (Name × Cell)) → Bool → UnitExpect
expect rows subset = record {
  relation = none;
  rows = rows;
  order_by = some ("id" ∷ []);
  any_order = false;
  approx = none;
  ignore_columns = none;
  subset = subset;
}

abbrev two_rows : Frame
two_rows = record { columns = "id" ∷ []; rows = (value "1" ∷ []) ∷ (value "2" ∷ []) ∷ [] }

abbrev two_expected : Bool → UnitExpect
two_expected = expect ((("id", value "2") ∷ []) ∷ (("id", value "1") ∷ []) ∷ [])

keeps :
    (columns : List Name) (df sorted : Frame)
    → pandas.sort_values columns df ≡ some sorted
    → sorted.columns ≡ df.columns
keeps columns df sorted h = ap (λ o. (Option.get_or o df).columns) (sym h) ∙ sort_rows-columns df

permutes :
    (columns : List Name) (df sorted : Frame)
    → pandas.sort_values columns df ≡ some sorted
    → Permᴰ sorted.rows df.rows
permutes columns df sorted h =
    subst (λ o. Permᴰ (Option.get_or o df).rows df.rows) h (sort_rows-perm df)

canonical :
    (columns : List Name) (df df' sorted sorted' : Frame)
    → df.columns ≡ columns
    → df'.columns ≡ columns
    → Permᴰ df.rows df'.rows
    → pandas.sort_values columns df ≡ some sorted
    → pandas.sort_values columns df' ≡ some sorted'
    → normalize_rows sorted.rows ≡ normalize_rows sorted'.rows
canonical columns df df' sorted sorted' c c' h q q' =
    ap (λ o. normalize_rows (Option.get_or o df).rows) (sym q)
    ∙ sort_rows-canonical df df' h
    ∙ ap (λ o. normalize_rows (Option.get_or o df').rows) q'

-- The rows pass in another order.
assert_rows_equal_iff_example :
    ((assert_rows_equal pandas two_rows (two_expected false) ≡ returns tt)
      → (absent two_rows (two_expected false) ≡ [])
        × Permᴰ
            (normalize_rows (common_rows two_rows (two_expected false)))
            (normalize_rows (expected_of (two_expected false)).rows))
    × (absent two_rows (two_expected false) ≡ []
        → Permᴰ (common_rows two_rows (two_expected false)) (expected_of (two_expected false)).rows
        → PassesOrRaises (assert_rows_equal pandas two_rows (two_expected false)))
assert_rows_equal_iff_example =
    assert_rows_equal_iff pandas keeps permutes canonical two_rows (two_expected false) refl refl

abbrev TwoFound : Type 0
TwoFound =
    (is_empty (expected_of (two_expected true)).columns ≡ true)
    ⊎ (all (λ r. any (eq_row pandas r) (common_rows two_rows (two_expected true)))
          (expected_of (two_expected true)).rows
        ≡ true)

assert_rows_equal_subset_iff_example :
    ((assert_rows_equal pandas two_rows (two_expected true) ≡ returns tt) → TwoFound)
    × (TwoFound → PassesOrRaises (assert_rows_equal pandas two_rows (two_expected true)))
assert_rows_equal_subset_iff_example =
    assert_rows_equal_subset_iff pandas keeps permutes canonical two_rows (two_expected true) refl
      refl

-- A missing value passes a tolerance.
approx_missing :
    assert_rows_equal
      (record pandas { sort_values = λ columns df. some df })
      (record { columns = "x" ∷ []; rows = (none_cell ∷ []) ∷ [] })
      (record {
        relation = none;
        rows = (("x", value "5") ∷ []) ∷ [];
        order_by = none;
        any_order = false;
        approx = some (("x", "0.1") ∷ []);
        ignore_columns = none;
        subset = false;
      })
    ≡ returns tt
unfolding assert_rows_equal
approx_missing = refl

-- A database with the rows of the input and, if the model has run, those of the model: a copy of the input.
abbrev Db : Type 0
Db = List RowSpec × Option (List RowSpec)

abbrev model : Node
model = record {
  name = "m";
  kind = python;
  path = "m.ff.py";
  deps = "source" ∷ [];
  meta = record { materialized = none; tags = no_tags };
  package_name = none;
}

abbrev utest_world : UtestMode → Fingerprints → UtestWorld Db
utest_world mode cache = record {
  engine_name = "duckdb";
  nodes = model ∷ [];
  mode = mode;
  cache = some cache;
  reuse_meta = false;
  pandas = record pandas { sort_values = λ columns df. some df };
  reset = λ rel (input, output). if same rel "source" then ([], output) else (input, none);
  load_rows = λ rel rows (input, output). ((rows, output), true);
  run = λ n (input, output). ((input, some input), none);
  read_relation = λ rel (input, output). elim output [
    | none ↦ raises "no relation"
    | some rows ↦ returns (frame_of rows)
  ];
  relation_exists = λ (input, output) rel. elim output [ none ↦ false | some rows ↦ true ];
  delete_meta = λ n db. db;
  csv_path = λ spec csv. csv;
  read_csv = λ csv. none;
  digest_file = λ csv. none;
  hash_inputs = λ items. "inputs";
  env_ctx = "";
  rendered_sql = λ db n. none;
  func_src = λ n. some "copy";
  hash_hex = λ payload. Option.get_or (get payload.deps "__case__") "";
}

abbrev no_fields : SetFields
no_fields = record {
  relation = none;
  rows = none;
  order_by = none;
  any_order = none;
  approx = none;
  ignore_columns = none;
  subset = none;
}

abbrev rows_of : Name → List RowSpec
rows_of x = (("id", value x) ∷ []) ∷ []

-- A case whose input is to come out as it is.
abbrev copy_case : Name → RawCase
copy_case x = record {
  name = x;
  inputs = ("source", record { rows = some (rows_of x); csv = none }) ∷ [];
  expect = record no_fields { rows = some (rows_of x) };
}

abbrev copy_spec : UnitSpec
copy_spec = record {
  model = "m";
  engine = none;
  default_inputs = [];
  default_expect = expect [] false;
  cases = copy_case "a" ∷ copy_case "b" ∷ [];
  path = "s";
}

abbrev outcome : CaseResult → Name × (CaseStatus × Bool)
outcome r = (r.case, (r.status, r.cache_hit))

abbrev first_run : Option (UtestState Db × Option Fingerprints)
first_run = run_unit_specs (utest_world utest_rw []) none (copy_spec ∷ []) ([], none)

abbrev first_state : UtestState Db
first_state = elim first_run [
  | none ↦ initial_utest (utest_world utest_rw []) ([], none)
  | some (s, saved) ↦ s
]

-- Both cases pass, and the last one is saved; in the second run it is a hit, and fails on the result of the
-- other.
first_run_outcomes :
    (map outcome first_state.results ≡ ("a", (case_pass, false)) ∷ ("b", (case_pass, false)) ∷ [])
    × (first_run ≡ some (first_state, some (("m", "s::b") ∷ [])))
unfolding run_unit_specs
first_run_outcomes = (refl, refl)

second_run_outcomes :
    Option.map
      (λ (s, saved). map outcome s.results)
      (run_unit_specs (utest_world utest_rw (("m", "s::b") ∷ [])) none (copy_spec ∷ []) ([], none))
    ≡ some (("a", (case_pass, false)) ∷ ("b", (case_fail, true)) ∷ [])
unfolding run_unit_specs
second_run_outcomes = refl

-- A sort that raises ends the whole run.
raising_run :
    run_unit_specs
      (record (utest_world utest_rw []) {
        pandas = record pandas { sort_values = λ columns df. none };
      })
      none
      (copy_spec ∷ [])
      ([], none)
    ≡ none
unfolding run_unit_specs
raising_run = refl

run_unit_specs-results_example : Reported (utest_world utest_rw []) none (copy_spec ∷ []) first_run
run_unit_specs-results_example =
    run_unit_specs-results (utest_world utest_rw []) none (copy_spec ∷ []) ([], none)

run_unit_specs_saved_example :
    (get (("m", "s::b") ∷ []) "m" ≡ get [] "m")
    ⊎ ((utest_rw ≡ utest_rw)
        × ((r : CaseResult) × Mem r first_state.results
            × (r.model ≡ "m")
            × (r.status ≢ case_error)))
run_unit_specs_saved_example =
    run_unit_specs_saved (utest_world utest_rw []) none (copy_spec ∷ []) ([], none) first_state []
      (("m", "s::b") ∷ []) "m" refl first_run_outcomes.1
