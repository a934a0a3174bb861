-- ===== src/Selection/Tokens/Results.antt =====
-- The sets of a last run, described by its rows.
use mathlib.Core.Option
use fast_flow_transform.Prelude.{
  ◌≡◌, ap, ◌⊎◌, inl, inr, Bool, true, false, not, ◌&&◌, ◌||◌, none, some, List, [], ◌∷◌, arith,
  Bool-cases, Option-cases, any,
}
use fast_flow_transform.Prelude.Names.{Name, same, same_lem, member, member-add, member-filter}
use fast_flow_transform.Registry.{Node}
use fast_flow_transform.Selection.Tokens.{
  TokenText, RunRow, ResultSets, load_result_sets, result_pred, add_row, row_warns, collect_rows,
  readable_rows,
}

not_both : (s : Name) → same s "success" ≡ true → same s "error" ≡ false
not_both s h = ap (λ t. same t "error") (same_lem s "success" h)

module _ (text : TokenText) where
  -- A row of the last run tells of a node.
  pub is_named : Name → RunRow → Bool
  is_named k r = elim r.row_name [ none ↦ false | some name ↦ not (same name "") && same k name ]

  abbrev pub status_of : RunRow → Name
  status_of r = text.lower (Option.get_or r.status "")

  abbrev pub says : Name → Name → RunRow → Bool
  says word k r = is_named k r && same (status_of r) word

  abbrev pub warns_of : Name → RunRow → Bool
  warns_of k r = is_named k r && row_warns text r

  add_row-sets :
      (sets : ResultSets) (r : RunRow) (name k : Name)
      → (member k (add_row text sets r name).ok
          ≡ (member k sets.ok || (same k name && same (status_of r) "success")))
        × (member k (add_row text sets r name).err
            ≡ (member k sets.err || (same k name && same (status_of r) "error")))
        × (member k (add_row text sets r name).wrn
            ≡ (member k sets.wrn || (same k name && row_warns text r)))
  unfolding add_row
  add_row-sets sets r name k = ground (
    arith,
    member-add k name sets.ok,
    member-add k name sets.err,
    member-add k name sets.wrn,
    not_both (status_of r),
  )

  pub collect_rows-sets :
      (sets : ResultSets) (rows : List RunRow) (k : Name)
      → (member k (collect_rows text sets rows).ok
          ≡ (member k sets.ok || any (says "success" k) rows))
        × (member k (collect_rows text sets rows).err
            ≡ (member k sets.err || any (says "error" k) rows))
        × (member k (collect_rows text sets rows).wrn
            ≡ (member k sets.wrn || any (warns_of k) rows))
  unfolding collect_rows is_named
  collect_rows-sets sets [] k = ground arith
  collect_rows-sets sets (r ∷ rows) k = elim (Option-cases r.row_name) [
    | inl e ↦ rw (e, collect_rows, is_named) (collect_rows-sets sets rows k)
    | inr (name, e) ↦ elim (Bool-cases (same name "")) [
      | inl b ↦ rw (e, collect_rows, is_named, b) (collect_rows-sets sets rows k)
      | inr b ↦
          let later = collect_rows-sets (add_row text sets r name) rows k in
          let now = add_row-sets sets r name k in
          rw (e, collect_rows, is_named, b)
            (ground (arith, later.0, later.1, later.2, now.0, now.1, now.2))
    ]
  ]

  module _ (rows : List RunRow) (n : Node) where
    pub result_pred_ok :
        (want : Name)
        → text.lower want ≡ "ok"
        → any (says "success" n.name) (readable_rows text rows) ≡ true
        → any (warns_of n.name) (readable_rows text rows) ≡ false
        → result_pred text rows want n ≡ true
    unfolding result_pred load_result_sets
    result_pred_ok want e a b =
        let (oks, errs, wrns) =
          collect_rows-sets (record { ok = []; err = []; wrn = [] }) (readable_rows text rows)
            n.name in
        let sets =
          collect_rows text (record { ok = []; err = []; wrn = [] }) (readable_rows text rows) in
        let kept = member-filter (λ k. not (member k sets.wrn)) n.name sets.ok in
        rw (result_pred, e) (ground arith)

    pub result_pred_err :
        (want : Name)
        → (text.lower want ≡ "error") ⊎ (text.lower want ≡ "fail")
        → any (says "error" n.name) (readable_rows text rows) ≡ true
        → result_pred text rows want n ≡ true
    unfolding result_pred load_result_sets
    result_pred_err want e a =
        let (oks, errs, wrns) =
          collect_rows-sets (record { ok = []; err = []; wrn = [] }) (readable_rows text rows)
            n.name in
        elim e [
          | inl q ↦ rw (result_pred, q) (ground arith)
          | inr q ↦ rw (result_pred, q) (ground arith)
        ]

    pub result_pred_warn :
        (want : Name)
        → text.lower want ≡ "warn"
        → any (warns_of n.name) (readable_rows text rows) ≡ true
        → result_pred text rows want n ≡ true
    unfolding result_pred load_result_sets
    result_pred_warn want e a =
        let (oks, errs, wrns) =
          collect_rows-sets (record { ok = []; err = []; wrn = [] }) (readable_rows text rows)
            n.name in
        rw (result_pred, e) (ground arith)
