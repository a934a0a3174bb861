-- ===== src/Utest/Verdicts.antt =====
-- When a comparison without tolerances passes. Sorting is by pandas, and may raise: else it
-- reorders the rows, and frames with the same rows become equal when they are sorted by all their columns.
use fast_flow_transform.Prelude.{
  ◌≡◌, refl, sym, ap, ◌∙◌, ◌⊎◌, inl, inr, true, false, not, Option, none, some, List, [], map,
  arith, if◌then◌else◌, Bool-cases, is_empty, filter, Option-cases, List-cases, all, any,
}
use fast_flow_transform.Prelude.Names.{Name, member}
use mathlib.Core.Option
use mathlib.Core.List.Permᴰ
use mathlib.Core.List.{Permᴰ}
use fast_flow_transform.Prelude.Results.{returns, raises}
use fast_flow_transform.Utest.{pandas_error, Checked}
use fast_flow_transform.Utest.{
  Cell, UnitExpect, Frame, Pandas, cells_at, select, frame_of, drop_ignored_columns,
  assert_columns_present, apply_approx_equalization, order_columns, apply_ordering, eq_row,
  assert_subset_present, normalize_rows, normalize_cell, same_rows, assert_exact_equal, prepare,
  assert_rows_equal,
}
use fast_flow_transform.Utest.Rowwise.{
  same_rows_lem, same_rows_refl, any_perm, all_perm, all_same, subset_columns,
}

-- The frames that are compared, without the columns that are ignored.
abbrev pub actual_of : Frame → UnitExpect → Frame
actual_of df e = drop_ignored_columns e.ignore_columns df

abbrev pub expected_of : UnitExpect → Frame
expected_of e = drop_ignored_columns e.ignore_columns (frame_of e.rows)

abbrev pub absent : Frame → UnitExpect → List Name
absent df e = filter (λ c. not (member c (actual_of df e).columns)) (expected_of e).columns

abbrev pub common_rows : Frame → UnitExpect → List (List Cell)
common_rows df e = (select (expected_of e).columns (actual_of df e)).rows

-- What a comparison gives where it does not fail: it passes, or a sort raises.
abbrev pub PassesOrRaises : Checked → Type 0
PassesOrRaises r = (r ≡ returns tt) ⊎ (r ≡ raises pandas_error)

module _ (p : Pandas)
    (keeps : (columns : List Name) (df sorted : Frame)
      → p.sort_values columns df ≡ some sorted
      → sorted.columns ≡ df.columns)
    (permutes : (columns : List Name) (df sorted : Frame)
      → p.sort_values columns df ≡ some sorted
      → Permᴰ sorted.rows df.rows)
    (canonical : (columns : List Name) (df df' sorted sorted' : Frame)
      → df.columns ≡ columns
      → df'.columns ≡ columns
      → Permᴰ df.rows df'.rows
      → p.sort_values columns df ≡ some sorted
      → p.sort_values columns df' ≡ some sorted'
      → normalize_rows sorted.rows ≡ normalize_rows sorted'.rows) where
  -- A frame with the same columns and the same rows in some order.
  abbrev Reordered : Frame → Frame → Type 0
  Reordered d df = (d.columns ≡ df.columns) × Permᴰ d.rows df.rows

  ordering_cases :
      (order : Option (List Name)) (df : Frame)
      → ((d : Frame) × (apply_ordering p order df ≡ returns d) × Reordered d df)
        ⊎ (apply_ordering p order df ≡ raises pandas_error)
  unfolding apply_ordering
  ordering_cases none df = inl (df, refl, (refl, Permᴰ.refl df.rows))
  ordering_cases (some columns) df = elim (Option-cases (p.sort_values columns df)) [
    | inl e ↦ inr (rw (apply_ordering, e) refl)
    | inr (d, e) ↦
        inl (d, rw (apply_ordering, e) refl, (keeps columns df d e, permutes columns df d e))
  ]

  abbrev final_check : UnitExpect → Frame → Frame → Checked
  final_check e a x = if e.subset then assert_subset_present p a x else assert_exact_equal p a x

  module _ (df : Frame) (e : UnitExpect) (no_approx : Option.get_or e.approx [] ≡ []) where
    abbrev order : Option (List Name)
    order = order_columns e (actual_of df e) (expected_of e)

    -- Where no column is missing, the frames that are compared are reordered ones, or a sort raises.
    assert_rows_equal-cases :
        assert_columns_present (actual_of df e) (expected_of e) e.subset ≡ returns tt
        → ((a : Frame) × (x : Frame) × Reordered a (actual_of df e)
            × Reordered x (expected_of e)
            × (assert_rows_equal p df e ≡ final_check e a x))
          ⊎ (assert_rows_equal p df e ≡ raises pandas_error)
    unfolding assert_rows_equal prepare apply_approx_equalization
    assert_rows_equal-cases h = elim (ordering_cases order (actual_of df e)) [
      | inr q ↦ inr (rw (h, q) refl)
      | inl (a, q, k) ↦ elim (ordering_cases order (expected_of e)) [
        | inr r ↦ inr (rw (h, q, r) refl)
        | inl (x, r, l) ↦ inl (a, x, k, l, rw (h, q, r, no_approx) refl)
      ]
    ]

  compared_rows :
      (actual exp a x : Frame)
      → Reordered a actual
      → Reordered x exp
      → Permᴰ (select x.columns a).rows (select exp.columns actual).rows
  compared_rows actual exp a x (c, r) (d, s) =
      rw (c, d) (Permᴰ.map (cells_at actual.columns exp.columns) r)

  exact_sound :
      (actual exp : Frame)
      → assert_exact_equal p actual exp ≡ returns tt
      → Permᴰ (normalize_rows (select exp.columns actual).rows) (normalize_rows exp.rows)
  unfolding assert_exact_equal
  exact_sound actual exp h =
      elim (Option-cases (p.sort_values exp.columns (select exp.columns actual))) [
        | inl q ↦ absurd (ground (arith, h, q))
        | inr (a, q) ↦ elim (Option-cases (p.sort_values exp.columns exp)) [
          | inl r ↦ absurd (ground (arith, h, q, r))
          | inr (x, r) ↦
              elim (Bool-cases (same_rows (normalize_rows a.rows) (normalize_rows x.rows))) [
                | inr s ↦ absurd (ground (arith, h, q, r, s))
                | inl s ↦
                    let seen : Permᴰ (normalize_rows (select exp.columns actual).rows)
                        (normalize_rows a.rows) =
                      Permᴰ.map (map normalize_cell)
                        (Permᴰ.symm (permutes exp.columns (select exp.columns actual) a q)) in
                    let wanted : Permᴰ (normalize_rows x.rows) (normalize_rows exp.rows) =
                      Permᴰ.map (map normalize_cell) (permutes exp.columns exp x r) in
                    let t : normalize_rows a.rows ≡ normalize_rows x.rows = same_rows_lem _ _ s in
                    Permᴰ.trans (rw (← t) seen) wanted
              ]
        ]
      ]

  exact_complete :
      (actual exp : Frame)
      → Permᴰ (select exp.columns actual).rows exp.rows
      → PassesOrRaises (assert_exact_equal p actual exp)
  unfolding assert_exact_equal
  exact_complete actual exp h =
      elim (Option-cases (p.sort_values exp.columns (select exp.columns actual))) [
        | inl q ↦ inr (rw (assert_exact_equal, q) refl)
        | inr (a, q) ↦ elim (Option-cases (p.sort_values exp.columns exp)) [
          | inl r ↦ inr (rw (assert_exact_equal, q, r) refl)
          | inr (x, r) ↦
              let t = canonical exp.columns (select exp.columns actual) exp a x refl refl h q r in
              inl (rw (assert_exact_equal, q, r, t, same_rows_refl (normalize_rows x.rows)) refl)
        ]
      ]

  module _ (df : Frame) (e : UnitExpect) (no_approx : Option.get_or e.approx [] ≡ []) where
    absent_verdict : e.subset ≡ false → assert_rows_equal p df e ≡ returns tt → absent df e ≡ []
    unfolding assert_rows_equal prepare assert_columns_present
    absent_verdict exact h = elim (List-cases (absent df e)) [
      | inl none_absent ↦ none_absent
      | inr (c, rest, some_absent) ↦ absurd (ground (arith, h, some_absent, exact))
    ]

    present_lem :
        absent df e ≡ []
        → assert_columns_present (actual_of df e) (expected_of e) e.subset ≡ returns tt
    unfolding assert_columns_present
    present_lem present = rw present (ground arith)

    -- Without tolerances and `subset`, the comparison passes only if no expected column is missing and the
    -- normalized rows are the expected ones, each as often and in any order; and if no column is missing and
    -- the rows are the expected ones in some order, it passes, or a sort raises.
    pub assert_rows_equal_iff :
        e.subset ≡ false
        → ((assert_rows_equal p df e ≡ returns tt)
            → (absent df e ≡ [])
              × Permᴰ (normalize_rows (common_rows df e)) (normalize_rows (expected_of e).rows))
          × (absent df e ≡ []
              → Permᴰ (common_rows df e) (expected_of e).rows
              → PassesOrRaises (assert_rows_equal p df e))
    assert_rows_equal_iff exact = (
      λ h.
          let present = absent_verdict exact h in
          elim (assert_rows_equal-cases df e no_approx (present_lem present)) [
            | inr q ↦ absurd (ground (arith, sym h ∙ q))
            | inl (a, x, k, l, q) ↦
                let checked : assert_exact_equal p a x ≡ returns tt =
                  sym (
                    ap (λ b. if b then assert_subset_present p a x else assert_exact_equal p a x)
                      exact)
                  ∙ sym q
                  ∙ h in
                let seen = Permᴰ.symm (compared_rows (actual_of df e) (expected_of e) a x k l) in
                (
                  present,
                  Permᴰ.trans (Permᴰ.map (map normalize_cell) seen)
                      (Permᴰ.trans (exact_sound a x checked) (Permᴰ.map (map normalize_cell) l.1)),
                )
          ],
      λ present g. elim (assert_rows_equal-cases df e no_approx (present_lem present)) [
        | inr q ↦ inr q
        | inl (a, x, k, l, q) ↦
            let seen = compared_rows (actual_of df e) (expected_of e) a x k l in
            rw (q, exact) (exact_complete a x (Permᴰ.trans seen (Permᴰ.trans g (Permᴰ.symm l.1))))
      ],
    )

    found_rows :
        (a x : Frame)
        → Reordered a (actual_of df e)
        → Reordered x (expected_of e)
        → all (λ r. any (eq_row p r) (select x.columns a).rows) x.rows
          ≡ all (λ r. any (eq_row p r) (common_rows df e)) (expected_of e).rows
    found_rows a x k l =
        all_same _ _ x.rows
          (λ r. any_perm (eq_row p r) (compared_rows (actual_of df e) (expected_of e) a x k l))
        ∙ all_perm _ l.1

    -- With `subset` and without tolerances, the comparison passes only if no column is expected, or each
    -- expected row counts as the same as a row of the frame on the expected columns, cell by cell; and if so
    -- it passes, or a sort raises.
    pub assert_rows_equal_subset_iff :
        e.subset ≡ true
        → ((assert_rows_equal p df e ≡ returns tt)
            → (is_empty (expected_of e).columns ≡ true)
              ⊎ (all (λ r. any (eq_row p r) (common_rows df e)) (expected_of e).rows ≡ true))
          × ((is_empty (expected_of e).columns ≡ true)
                ⊎ (all (λ r. any (eq_row p r) (common_rows df e)) (expected_of e).rows ≡ true)
              → PassesOrRaises (assert_rows_equal p df e))
    unfolding assert_columns_present
    assert_rows_equal_subset_iff subset =
        elim (assert_rows_equal-cases df e no_approx (rw subset refl)) [
          | inr q ↦ (λ h. absurd (ground (arith, sym h ∙ q)), λ g. inr q)
          | inl (a, x, k, l, q) ↦
              let checked : assert_rows_equal p df e ≡ assert_subset_present p a x =
                q
                ∙ ap (λ b. if b then assert_subset_present p a x else assert_exact_equal p a x)
                    subset in
              let verdict = subset_columns p a x x.columns refl in
              let columns_kept = ap is_empty l.0 in
              let found = found_rows a x k l in
              (
                λ h. elim (verdict.0 (sym checked ∙ h)) [
                  | inl none_expected ↦ inl (sym columns_kept ∙ none_expected)
                  | inr all_found ↦ inr (sym found ∙ all_found)
                ],
                λ g. elim g [
                  | inl none_expected ↦
                      inl (checked ∙ verdict.1 (inl (columns_kept ∙ none_expected)))
                  | inr all_found ↦ inl (checked ∙ verdict.1 (inr (found ∙ all_found)))
                ],
              )
        ]
