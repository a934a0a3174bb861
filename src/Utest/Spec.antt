-- ===== src/Utest/Spec.antt =====
-- utest.py: the specifications, and the defaults that the cases of a specification get.
use fast_flow_transform.Prelude.{
  ◌≡◌, refl, ap, ◌∙◌, inl, inr, Bool, true, false, ◌||◌, Option, none, some, List, [], ◌∷◌, map,
  arith, if◌then◌else◌, Bool-cases, filter,
}
use fast_flow_transform.Prelude.Names.{Name, same, same_iff, same_lem, member, IsNodup}
use mathlib.Core.Option

-- A cell of a frame. A value is the text of one with its type; a date has no time.
pub data Cell : Type 0 where
  none_cell nan_cell : Cell
  timestamp datetime : (date : Name) (time : Name) → Cell
  date : Name → Cell
  value : Name → Cell

-- A row as the specification writes it.
abbrev pub RowSpec : Type 0
RowSpec = List (Name × Cell)

pub record UnitInput : Type 0 where
  pub rows : Option (List RowSpec)
  pub csv : Option Name

pub record UnitExpect : Type 0 where
  pub relation : Option Name
  pub rows : List RowSpec
  pub order_by : Option (List Name)
  pub any_order : Bool
  pub approx : Option (List (Name × Name))
  pub ignore_columns : Option (List Name)
  pub subset : Bool

-- The fields that the `expect` of a case sets, by `model_fields_set`.
pub record SetFields : Type 0 where
  pub relation : Option (Option Name)
  pub rows : Option (List RowSpec)
  pub order_by : Option (Option (List Name))
  pub any_order : Option Bool
  pub approx : Option (Option (List (Name × Name)))
  pub ignore_columns : Option (Option (List Name))
  pub subset : Option Bool

abbrev pub Inputs : Type 0
Inputs = List (Name × UnitInput)

-- A case as it is written, and one with the defaults.
pub record RawCase : Type 0 where
  pub name : Name
  pub inputs : Inputs
  pub expect : SetFields

pub record UnitCase : Type 0 where
  pub name : Name
  pub inputs : Inputs
  pub expect : UnitExpect

pub record UnitSpec : Type 0 where
  pub model : Name
  pub engine : Option Name
  pub default_inputs : Inputs
  pub default_expect : UnitExpect
  pub cases : List RawCase
  pub path : Name

-- `_merge_expect`
unfoldable pub merge_expect : UnitExpect → SetFields → UnitExpect
merge_expect base o = record {
  relation = Option.get_or o.relation base.relation;
  rows = Option.get_or o.rows base.rows;
  order_by = Option.get_or o.order_by base.order_by;
  any_order = Option.get_or o.any_order base.any_order;
  approx = Option.get_or o.approx base.approx;
  ignore_columns = Option.get_or o.ignore_columns base.ignore_columns;
  subset = Option.get_or o.subset base.subset;
}

unfoldable pub input_of : Inputs → Name → Option UnitInput
input_of [] rel = none
input_of ((k, i) ∷ inputs) rel = if same k rel then some i else input_of inputs rel

unfoldable pub set_input : Inputs → Name → UnitInput → Inputs
set_input [] rel i = (rel, i) ∷ []
set_input ((k, j) ∷ inputs) rel i =
    if same k rel then (k, i) ∷ inputs else (k, j) ∷ set_input inputs rel i

-- `_merge_inputs`: the items of the case replace the ones of the defaults.
unfoldable pub merge_inputs : Inputs → Inputs → Inputs
unfolding set_input
merge_inputs merged [] = merged
merge_inputs merged ((rel, i) ∷ inputs) = merge_inputs (set_input merged rel i) inputs

-- `merged_case`
unfoldable pub merged_case : UnitSpec → RawCase → UnitCase
unfolding merge_expect merge_inputs
merged_case spec case = record {
  name = case.name;
  inputs = merge_inputs spec.default_inputs case.inputs;
  expect = merge_expect spec.default_expect case.expect;
}

-- `_iter_cases`; an empty `only_case` is none.
abbrev pub wants_case : Option Name → UnitCase → Bool
wants_case none case = true
wants_case (some only) case = same only "" || same case.name only

unfoldable pub iter_cases : Option Name → UnitSpec → List UnitCase
unfolding merged_case
iter_cases only spec = filter (wants_case only) (map (merged_case spec) spec.cases)

input_of-set_input :
    (inputs : Inputs) (k : Name) (i : UnitInput) (j : Name)
    → input_of (set_input inputs k i) j ≡ (if same k j then some i else input_of inputs j)
unfolding input_of set_input
input_of-set_input [] k i j = refl
input_of-set_input ((l, v) ∷ inputs) k i j =
    ground (arith, input_of-set_input inputs k i j, same_iff l k, same_iff l j, same_iff k j)

abbrev input_names : Inputs → List Name
input_names inputs = map (λ e. e.0) inputs

no_input :
    (inputs : Inputs) (k : Name) → member k (input_names inputs) ≡ false → input_of inputs k ≡ none
unfolding input_of
no_input [] k h = refl
no_input ((l, v) ∷ inputs) k h = ground (arith, no_input inputs k, same_iff l k, same_iff k l)

-- The inputs of a case with defaults are its own, and the defaults for the relations that it leaves out.
input_of-merge_inputs :
    (merged inputs : Inputs) (k : Name)
    → IsNodup (input_names inputs)
    → input_of (merge_inputs merged inputs) k
      ≡ elim (input_of inputs k) [ some i ↦ some i | none ↦ input_of merged k ]
unfolding input_of merge_inputs
input_of-merge_inputs merged [] k h = refl
input_of-merge_inputs merged ((l, v) ∷ inputs) k h = elim (Bool-cases (same l k)) [
  | inl e ↦
      let none_left : input_of inputs k ≡ none = rw (← same_lem l k e) (no_input inputs l h.0) in
      rw
        (
          e,
          input_of-merge_inputs (set_input merged l v) inputs k h.1,
          none_left,
          input_of-set_input merged l v k,
          e,
        )
        refl
  | inr e ↦
      let kept : input_of (set_input merged l v) k ≡ input_of merged k =
        input_of-set_input merged l v k ∙ ap (λ b. if b then some v else input_of merged k) e in
      rw e (
        input_of-merge_inputs (set_input merged l v) inputs k h.1
        ∙ ap (λ o. elim (input_of inputs k) [ some i ↦ some i | none ↦ o ]) kept)
]
