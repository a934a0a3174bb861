-- ===== src/Utest/Added.antt =====
-- What a run of the unit tests adds to a state.
use fast_flow_transform.Prelude.{
  ℕ, ◌≡◌, refl, sym, ap, ◌∙◌, ◌≢◌, ◌↔◌, ◌⊎◌, inl, inr, Option, none, some, List, [], ◌∷◌, ◌++◌, map,
  arith, if◌then◌else◌, Bool-cases, concat, Option-cases, All,
}
use fast_flow_transform.Prelude.Names.{Name}
use mathlib.Core.Path.{ap₂}
use mathlib.Core.List.{Mem}
use fast_flow_transform.Registry.{Node, find}
use fast_flow_transform.Registry.Lookup.{find-eq-name}
use mathlib.Core.List.{
  append_assoc, append-nil, map-append, mem-append_left, mem-append_right, mem-cons_self,
}
use fast_flow_transform.Cache.{get}
use mathlib.Core.Option
use mathlib.Core.Path.{subst}
use fast_flow_transform.Utest.{
  UnitCase, UnitSpec, iter_cases, CaseStatus, case_pass, case_error, CaseResult, UtestWorld,
  UtestState, run_one_case, record_model_not_found, other_engine, run_spec, fold_until,
}
use fast_flow_transform.Utest.Adds.{Counted, passed, failed, broken, Adds, adds, run_one_case-Adds}

-- A result that is a pass.
abbrev pub IsPass : CaseResult → Type 0
IsPass r = r.status ≡ case_pass

abbrev pub label : CaseResult → Name × Name
label r = (r.model, r.case)

-- The results that a run adds to a state: their labels, the failures that they count, and the fingerprints.
pub data AddsAll {D : Type 0} : List (Name × Name) → UtestState D → UtestState D → Type 0 where
  adds_none : {s : UtestState D} → AddsAll [] s s
  adds_more :
      {name model case : Name} {labels : List (Name × Name)} {s s1 s' : UtestState D}
      → name ≡ model
      → Adds name model case s s1
      → AddsAll labels s1 s'
      → AddsAll ((model, case) ∷ labels) s s'

AddsAll-none : {D : Type 0} {s s' : UtestState D} → some s ≡ some s' → AddsAll [] s s'
AddsAll-none {D} {s} {s'} q = subst (λ o. AddsAll [] s (Option.get_or o s)) q adds_none

fold_until_next :
    {A B : Type 0} (f : B → A → Option B) (b : B) (a : A) (xs : List A) (b' : B)
    → fold_until f b (a ∷ xs) ≡ some b'
    → (c : B) × (f b a ≡ some c) × (fold_until f c xs ≡ some b')
unfolding fold_until
fold_until_next f b a xs b' h = elim (Option-cases (f b a)) [
  | inl e ↦
      let none_left : fold_until f b (a ∷ xs) ≡ none = rw (fold_until, e) refl in
      absurd (ground (arith, sym none_left ∙ h))
  | inr (c, e) ↦ (c, e, sym (rw (fold_until, e) refl) ∙ h)
]

AddsAll-append :
    {D : Type 0} {xs ys : List (Name × Name)} {s s1 s' : UtestState D}
    → AddsAll xs s s1
    → AddsAll ys s1 s'
    → AddsAll (xs ++ ys) s s'
AddsAll-append adds_none rest = rest
AddsAll-append (adds_more h a more) rest = adds_more h a (AddsAll-append more rest)

module _ {D : Type 0} (w : UtestWorld D) where
  cases-AddsAll :
      (n : Node) (spec : UnitSpec) (cases : List UnitCase) (s s' : UtestState D)
      → n.name ≡ spec.model
      → fold_until (run_one_case w n spec) s cases ≡ some s'
      → AddsAll (map (λ c. (spec.model, c.name)) cases) s s'
  unfolding fold_until
  cases-AddsAll n spec [] s s' h q = AddsAll-none q
  cases-AddsAll n spec (c ∷ cases) s s' h q =
      let (s1, one, rest) = fold_until_next (run_one_case w n spec) s c cases s' q in
      adds_more h (run_one_case-Adds w n spec s s1 c one) (cases-AddsAll n spec cases s1 s' h rest)

  -- What a specification is to report: nothing for another engine, a line without a case for a model that is
  -- missing, and else a line for each case that is wanted.
  unfoldable pub reports : Option Name → UnitSpec → List (Name × Name)
  reports only spec = if other_engine w spec then [] else elim (find spec.model w.nodes) [
    | none ↦ (spec.model, "") ∷ []
    | some _ ↦ map (λ c. (spec.model, c.name)) (iter_cases only spec)
  ]

  run_spec-AddsAll :
      (only : Option Name) (s s' : UtestState D) (spec : UnitSpec)
      → run_spec w only s spec ≡ some s'
      → AddsAll (reports only spec) s s'
  unfolding reports run_spec record_model_not_found
  run_spec-AddsAll only s s' spec q = elim (Bool-cases (other_engine w spec)) [
    | inl e ↦ rw (reports, e) (AddsAll-none (sym (rw (run_spec, e) refl) ∙ q))
    | inr e ↦ elim (Option-cases (find spec.model w.nodes)) [
      | inl f ↦
          rw (reports, e, f)
            (adds_more {name = spec.model} {s1 = record_model_not_found w spec s} refl
              (adds _ refl (refl, refl) (broken (omega arith)) (λ k. inl refl))
              (AddsAll-none (sym (rw (run_spec, e, f) refl) ∙ q)))
      | inr (n, f) ↦
          rw (reports, e, f)
            (cases-AddsAll n spec (iter_cases only spec) s s' (find-eq-name spec.model w.nodes n f)
              (sym (rw (run_spec, e, f) refl) ∙ q))
    ]
  ]

  pub specs-AddsAll :
      (only : Option Name) (specs : List UnitSpec) (s s' : UtestState D)
      → fold_until (run_spec w only) s specs ≡ some s'
      → AddsAll (concat (map (reports only) specs)) s s'
  unfolding fold_until
  specs-AddsAll only [] s s' q = AddsAll-none q
  specs-AddsAll only (spec ∷ specs) s s' q =
      let (s1, one, rest) = fold_until_next (run_spec w only) s spec specs s' q in
      AddsAll-append (run_spec-AddsAll only s s1 spec one) (specs-AddsAll only specs s1 s' rest)

pub adds_labels :
    {D : Type 0} {labels : List (Name × Name)} {s s' : UtestState D}
    → AddsAll labels s s'
    → map label s'.results ≡ map label s.results ++ labels
adds_labels {s = s} adds_none = sym (append-nil (map label s.results))
adds_labels {s = s} (adds_more {labels = labels} h (adds r q (m, c) k t) rest) =
    let one : map label (s.results ++ r ∷ []) ≡ map label s.results ++ label r ∷ [] =
      map-append label s.results (r ∷ []) in
    adds_labels rest
    ∙ ap (λ rs. map label rs ++ labels) q
    ∙ ap (λ ls. ls ++ labels) one
    ∙ append_assoc (map label s.results) (label r ∷ []) labels
    ∙ ap₂ (λ a b. map label s.results ++ (a, b) ∷ labels) m c

All-append {ℓ} :
    {A : Type 0} (P : A → Type ℓ) (xs : List A) (x : A) → All P (xs ++ x ∷ []) ↔ (All P xs × P x)
All-append P [] x = (λ h. (tt, h.0), λ h. (h.1, tt))
All-append P (y ∷ xs) x =
    let (a, b) = All-append P xs x in
    (λ h. ((h.0, (a h.1).0), (a h.1).1), λ h. (h.0.0, b (h.0.1, h.1)))

counted_lem :
    {status : CaseStatus} {n m : ℕ}
    → Counted status n m
    → (m ≡ 0) ↔ ((n ≡ 0) × (status ≡ case_pass))
counted_lem passed = (λ h. (h, refl), λ h. h.0)
counted_lem (failed l) = (λ h. absurd (omega arith), λ h. absurd (ground (arith, h.1)))
counted_lem (broken l) = (λ h. absurd (omega arith), λ h. absurd (ground (arith, h.1)))

pub adds_passes :
    {D : Type 0} {labels : List (Name × Name)} {s s' : UtestState D}
    → AddsAll labels s s'
    → ((s.failures ≡ 0) ↔ All IsPass s.results)
    → (s'.failures ≡ 0) ↔ All IsPass s'.results
adds_passes adds_none h = h
adds_passes {s = s} (adds_more same_name (adds r q l k t) rest) h =
    let (a, b) = counted_lem k in
    let (c, d) = All-append IsPass s.results r in
    adds_passes rest
      (λ z. rw q (d (h.0 (a z).0, (a z).1)), λ y. let (p, x) = c (rw (← q) y) in b (h.1 p, x))

adds_kept :
    {D : Type 0} {labels : List (Name × Name)} {s s' : UtestState D} {r : CaseResult}
    → AddsAll labels s s'
    → Mem r s.results
    → Mem r s'.results
adds_kept adds_none m = m
adds_kept (adds_more h (adds r q l k t) rest) m = adds_kept rest (rw q (mem-append_left (r ∷ []) m))

-- The fingerprints that a run leaves: a changed one belongs to a result that is no error.
pub adds_stored :
    {D : Type 0} {labels : List (Name × Name)} {s s' : UtestState D}
    → AddsAll labels s s'
    → (k : Name)
    → (get s'.computed_fps k ≡ get s.computed_fps k)
      ⊎ ((r : CaseResult) × (Mem r s'.results) × (r.model ≡ k) × (r.status ≢ case_error))
adds_stored adds_none k = inl refl
adds_stored {s = s} (adds_more h (adds r q l c t) rest) k = elim (adds_stored rest k) [
  | inr found ↦ inr found
  | inl kept ↦ elim (t k) [
    | inl same_fp ↦ inl (kept ∙ same_fp)
    | inr (e, ok) ↦ inr (
      r,
      adds_kept rest (rw q (mem-append_right s.results mem-cons_self)),
      l.0 ∙ sym h ∙ sym e,
      ok,
    )
  ]
]
