-- ===== src/Utest/Compare.antt =====
-- utest.py: the comparison of a frame with the expected rows. What pandas does to a frame is a parameter
-- where the code only calls it.
use mathlib.Core.Option
use fast_flow_transform.Prelude.{
  Bool, true, false, not, ◌&&◌, ◌||◌, Option, none, some, List, [], ◌∷◌, ◌++◌, map, foldl,
  if◌then◌else◌, is_empty, filter, any,
}
use fast_flow_transform.Prelude.Names.{Name, same, member}
use fast_flow_transform.Prelude.Results.{Result, returns, raises, ◌>>=◌}
use fast_flow_transform.Prelude.Sorting.{sort, name_leb}
use fast_flow_transform.Utest.Spec.{
  Cell, none_cell, nan_cell, timestamp, datetime, date, value, RowSpec, UnitExpect,
}

-- The cells of a row stand in the order of the columns.
pub record Frame : Type 0 where
  pub columns : List Name
  pub rows : List (List Cell)

pub data AssertError : Type 0 where
  missing_columns : List Name → AssertError
  approx_mismatch : Name → AssertError
  row_not_found : List Cell → AssertError
  rows_differ : AssertError
  pandas_error : AssertError

abbrev pub Checked : Type 0
Checked = Result {0, 0} AssertError (Unit {0})

-- `sort_values` by some of the columns with new indices, which is `none` where it raises; whether the numbers
-- of two cells are further apart than a tolerance (a cell without a number is not); and whether two cells
-- count as the same where tuples are compared.
pub record Pandas : Type 0 where
  pub sort_values : List Name → Frame → Option Frame
  pub too_far : Name → Cell → Cell → Bool
  pub same_cell : Cell → Cell → Bool

-- `df[column].iloc[i]`, with `none` for a column that is missing.
unfoldable pub cell_at : List Name → List Cell → Name → Cell
cell_at (c ∷ columns) (x ∷ row) name = if same c name then x else cell_at columns row name
cell_at columns row name = none_cell

abbrev pub cells_at : List Name → List Name → List Cell → List Cell
cells_at columns names row = map (cell_at columns row) names

-- `df[names]`
abbrev pub select : List Name → Frame → Frame
select names df = record { columns = names; rows = map (cells_at df.columns names) df.rows }

-- `pd.DataFrame(rows)`: a column for each key, in the order they are met; what a row leaves out is NaN.
unfoldable pub keys_of : List Name → RowSpec → List Name
keys_of columns [] = columns
keys_of columns ((k, x) ∷ row) =
    keys_of (if member k columns then columns else columns ++ k ∷ []) row

unfoldable pub spec_cell : RowSpec → Name → Cell
spec_cell [] name = nan_cell
spec_cell ((k, x) ∷ row) name = if same k name then x else spec_cell row name

unfoldable pub frame_of : List RowSpec → Frame
unfolding keys_of spec_cell
frame_of rows =
    let columns = foldl keys_of [] rows in
    record { columns = columns; rows = map (λ row. map (spec_cell row) columns) rows }

-- `_drop_ignored_columns`, of one frame.
unfoldable pub drop_ignored_columns : Option (List Name) → Frame → Frame
unfolding cell_at
drop_ignored_columns none df = df
drop_ignored_columns (some ignored) df = select (filter (λ c. not (member c ignored)) df.columns) df

-- `_assert_columns_present`
unfoldable pub assert_columns_present : Frame → Frame → Bool → Checked
unfolding sort name_leb
assert_columns_present actual exp subset =
    let missing = filter (λ c. not (member c actual.columns)) exp.columns in
    if subset || is_empty missing
    then returns tt
    else raises (missing_columns (sort name_leb missing))

-- `_apply_approx_equalization`: the rows that both frames have are compared in their order, and the column
-- of the actual frame becomes the one of the expected frame.
abbrev set_cell : List Name → Name → Cell → List Cell → List Cell
set_cell (c ∷ columns) name new (x ∷ row) =
    (if same c name then new else x) ∷ set_cell columns name new row
set_cell columns name new row = row

unfoldable pub any_too_far : (Cell → Cell → Bool) → List Cell → List Cell → Bool
any_too_far far (a ∷ actual) (e ∷ exp) = far a e || any_too_far far actual exp
any_too_far far actual exp = false

unfoldable pub set_column : List Name → Name → List (List Cell) → List Cell → List (List Cell)
set_column columns name [] new = []
set_column columns name (row ∷ rows) [] =
    set_cell columns name nan_cell row ∷ set_column columns name rows []
set_column columns name (row ∷ rows) (x ∷ new) =
    set_cell columns name x row ∷ set_column columns name rows new

abbrev pub column : Frame → Name → List Cell
column df name = map (λ row. cell_at df.columns row name) df.rows

unfoldable pub approx_column : Pandas → Frame → Frame → Name × Name → Result AssertError Frame
unfolding cell_at any_too_far set_column
approx_column p exp actual (name, tol) =
    if not (member name exp.columns && member name actual.columns)
    then returns actual
    else if any_too_far (p.too_far tol) (column actual name) (column exp name)
    then raises (approx_mismatch name)
    else returns
        (record actual { rows = set_column actual.columns name actual.rows (column exp name) })

unfoldable pub apply_approx_equalization :
    Pandas → Frame → Frame → List (Name × Name) → Result AssertError Frame
unfolding approx_column
apply_approx_equalization p exp actual [] = returns actual
apply_approx_equalization p exp actual (a ∷ approx) =
    approx_column p exp actual a >>= λ df. apply_approx_equalization p exp df approx

-- `_apply_ordering`: the columns both frames are sorted by, if any.
unfoldable pub order_columns : UnitExpect → Frame → Frame → Option (List Name)
unfolding sort name_leb
order_columns e actual exp = elim (Option.get_or e.order_by []) [
  | [] ↦
      let common = sort name_leb (filter (λ c. member c actual.columns) exp.columns) in
      if e.any_order && not (is_empty common) then some common else none
  | c ∷ order_by ↦ some (c ∷ order_by)
]

abbrev or_raise : Option Frame → Result AssertError Frame
or_raise none = raises pandas_error
or_raise (some sorted) = returns sorted

abbrev pub sorted_by : Pandas → List Name → Frame → Result AssertError Frame
sorted_by p columns df = or_raise (p.sort_values columns df)

unfoldable pub apply_ordering : Pandas → Option (List Name) → Frame → Result AssertError Frame
apply_ordering p none df = returns df
apply_ordering p (some columns) df = sorted_by p columns df

unfoldable pub eq_row : Pandas → List Cell → List Cell → Bool
eq_row p [] [] = true
eq_row p (x ∷ row) (y ∷ row') = p.same_cell x y && eq_row p row row'
eq_row p row row' = false

-- `_assert_subset_present`: `[r for r in exp_rows if r not in act_rows]`
unfoldable pub missing_rows : Pandas → List (List Cell) → List (List Cell) → List (List Cell)
unfolding eq_row
missing_rows p actual exp = filter (λ r. not (any (eq_row p r) actual)) exp

abbrev pub first_missing : List (List Cell) → Checked
first_missing [] = returns tt
first_missing (r ∷ missing) = raises (row_not_found r)

unfoldable pub assert_subset_present : Pandas → Frame → Frame → Checked
unfolding missing_rows cell_at
assert_subset_present p actual exp =
    if is_empty exp.columns
    then returns tt
    else first_missing
        (missing_rows p (map (cells_at actual.columns exp.columns) actual.rows) exp.rows)

-- `_normalize_cell_for_compare`: what is left is compared as text.
unfoldable pub normalize_cell : Cell → Name
normalize_cell none_cell = "__NA__"
normalize_cell nan_cell = "__NA__"
normalize_cell (timestamp d t) = d
normalize_cell (datetime d t) = d
normalize_cell (date d) = d
normalize_cell (value x) = x

abbrev pub normalize_rows : List (List Cell) → List (List Name)
normalize_rows rows = map (map normalize_cell) rows

-- `DataFrame.equals`
unfoldable pub same_names : List Name → List Name → Bool
same_names [] [] = true
same_names (a ∷ row) (b ∷ other) = same a b && same_names row other
same_names row other = false

unfoldable pub same_rows : List (List Name) → List (List Name) → Bool
unfolding same_names
same_rows [] [] = true
same_rows (r ∷ rows) (q ∷ rows') = same_names r q && same_rows rows rows'
same_rows rows rows' = false

-- `_assert_exact_equal`
unfoldable pub assert_exact_equal : Pandas → Frame → Frame → Checked
unfolding cell_at normalize_cell same_rows
assert_exact_equal p actual exp = sorted_by p exp.columns (select exp.columns actual) >>= λ a.
    sorted_by p exp.columns exp >>= λ e.
    if same_rows (normalize_rows a.rows) (normalize_rows e.rows)
    then returns tt
    else raises rows_differ

-- `assert_rows_equal`, by the part before the comparison and the comparison.
unfoldable pub prepare : Pandas → Frame → UnitExpect → Result AssertError (Frame × Frame)
unfolding frame_of drop_ignored_columns assert_columns_present order_columns apply_ordering
    apply_approx_equalization
prepare p df e =
    let actual = drop_ignored_columns e.ignore_columns df in
    let exp = drop_ignored_columns e.ignore_columns (frame_of e.rows) in
    let order = order_columns e actual exp in
    assert_columns_present actual exp e.subset >>= λ _. apply_ordering p order actual >>= λ actual'.
    apply_ordering p order exp >>= λ exp'.
    apply_approx_equalization p exp' actual' (Option.get_or e.approx []) >>= λ a. returns (a, exp')

unfoldable pub assert_rows_equal : Pandas → Frame → UnitExpect → Checked
unfolding prepare assert_subset_present assert_exact_equal
assert_rows_equal p df e = prepare p df e >>= λ (a, exp).
    if e.subset then assert_subset_present p a exp else assert_exact_equal p a exp
