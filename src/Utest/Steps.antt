-- ===== src/Utest/Steps.antt =====
-- utest.py: the steps of a case: its fingerprint, its inputs and the comparison of its result.
use fast_flow_transform.Prelude.{
  ℕ, suc, Bool, false, Option, none, some, [], ◌∷◌, map, if◌then◌else◌,
}
use fast_flow_transform.Prelude.Names.{Name, same}
use mathlib.Core.Option
use Prim.Native.String as Str
use fast_flow_transform.Prelude.Results.{returns, raises}
use fast_flow_transform.Registry.{sql, python, Node, relation_for}
use fast_flow_transform.RunEngine.{Payload, or_text}
use fast_flow_transform.Utest.Spec.{UnitInput, Inputs, UnitCase, UnitSpec}
use fast_flow_transform.Utest.Compare.{
  assert_rows_equal, Checked, missing_columns, approx_mismatch, row_not_found, rows_differ,
  pandas_error,
}
use fast_flow_transform.Utest.Context.{CaseMessage, cannot_read, not_equal, InputItem, UtestWorld}

module _ {D : Type 0} (w : UtestWorld D) where
  -- `_fingerprint_case_inputs`; an empty `csv` is none.
  unfoldable pub input_item : UnitSpec → UnitInput → InputItem
  input_item spec i = elim i.csv [
    | none ↦ record { rows = i.rows; csv_path = none; csv_sha256 = none }
    | some csv ↦
        if same csv ""
        then record { rows = i.rows; csv_path = none; csv_sha256 = none }
        else record {
          rows = i.rows;
          csv_path = some (w.csv_path spec csv);
          csv_sha256 = w.digest_file (w.csv_path spec csv);
        }
  ]

  abbrev pub inputs_fp : UnitSpec → UnitCase → Name
  inputs_fp spec case = w.hash_inputs (map (λ (rel, i). (rel, input_item spec i)) case.inputs)

  -- `_fingerprint_case`
  abbrev pub case_payload : Node → UnitSpec → UnitCase → Name → Payload
  case_payload n spec case text = record {
    kind = n.kind;
    node = n.name;
    relation = relation_for n.name;
    text = text;
    env = w.env_ctx;
    deps =
        ("__case__", Str.◌++◌ spec.path (Str.◌++◌ "::" case.name))
        ∷ ("__inputs__", inputs_fp spec case)
        ∷ [];
  }

  unfoldable pub fingerprint_case : D → Node → UnitSpec → UnitCase → Option Name
  unfolding input_item
  fingerprint_case db n spec case =
      Option.map (λ text. w.hash_hex (case_payload n spec case text))
        (elim n.kind [ sql ↦ w.rendered_sql db n | python ↦ w.func_src n ])

  -- The body of the loop of `_load_inputs_for_case`, after the reset: rows, or else a file.
  unfoldable pub load_input : UnitSpec → Name → UnitInput → D → D × Bool
  load_input spec rel i db = elim i.rows [
    | some rows ↦ w.load_rows rel rows db
    | none ↦
        let csv = or_text i.csv "" in
        if same csv "" then (db, false) else elim (w.read_csv (w.csv_path spec csv)) [
          | none ↦ (db, false)
          | some rows ↦ w.load_rows rel rows db
        ]
  ]

  -- `_load_inputs_for_case`: the number of inputs that failed.
  unfoldable pub load_inputs : UnitSpec → Inputs → D → D × ℕ
  unfolding load_input
  load_inputs spec [] db = (db, 0)
  load_inputs spec ((rel, i) ∷ inputs) db =
      let (db', ok) = load_input spec rel i (w.reset rel db) in
      let (db'', n) = load_inputs spec inputs db' in (db'', if ok then n else suc n)

  -- `_cleanup_inputs_for_case`
  unfoldable pub cleanup_inputs : Inputs → D → D
  cleanup_inputs [] db = db
  cleanup_inputs ((rel, i) ∷ inputs) db = cleanup_inputs inputs (w.reset rel db)

  -- `_compute_target_relation`
  unfoldable pub target_relation : UnitSpec → UnitCase → Name
  target_relation spec case = or_text case.expect.relation (relation_for spec.model)

  -- The handler of `_assert_expected_rows`, which lets the errors of pandas escape (`none`): no message, or
  -- the one of a failure.
  abbrev pub caught : Checked → Option (Option CaseMessage)
  caught (returns _) = some none
  caught (raises pandas_error) = none
  caught (raises (missing_columns names)) = some (some (not_equal (missing_columns names)))
  caught (raises (approx_mismatch name)) = some (some (not_equal (approx_mismatch name)))
  caught (raises (row_not_found row)) = some (some (not_equal (row_not_found row)))
  caught (raises rows_differ) = some (some (not_equal rows_differ))

  -- `_read_and_assert`, with `_read_target_df` and `_assert_expected_rows`.
  unfoldable pub read_and_assert : UnitSpec → UnitCase → D → Option (Option CaseMessage)
  unfolding assert_rows_equal target_relation
  read_and_assert spec case db = elim (w.read_relation (target_relation spec case) db) [
    | raises e ↦ some (some (cannot_read (target_relation spec case) e))
    | returns df ↦ caught (assert_rows_equal w.pandas df case.expect)
  ]
