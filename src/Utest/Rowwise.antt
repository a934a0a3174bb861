-- ===== src/Utest/Rowwise.antt =====
-- The row tests of a comparison, on lists of rows.
use fast_flow_transform.Prelude.{
  ◌≡◌, refl, sym, ◌∙◌, ◌↔◌, ◌⊎◌, inl, inr, Bool, true, not, ◌&&◌, ◌||◌, List, [], ◌∷◌, arith,
  Bool-cases, is_empty, filter, all, any,
}
use fast_flow_transform.Prelude.Names.{Name, same_lem, same_refl}
use mathlib.Core.Path.{ap₂}
use mathlib.Core.List.{Permᴰ}
use fast_flow_transform.Prelude.Results.{returns}
use fast_flow_transform.Utest.{
  Cell, Frame, Pandas, select, eq_row, missing_rows, first_missing, assert_subset_present,
  same_names, same_rows,
}

same_names_lem : (a b : List Name) → same_names a b ≡ true → a ≡ b
unfolding same_names
same_names_lem [] [] h = refl
same_names_lem [] (y ∷ b) h = absurd (ground (arith, h))
same_names_lem (x ∷ a) [] h = absurd (ground (arith, h))
same_names_lem (x ∷ a) (y ∷ b) h =
    ap₂ (λ u v. u ∷ v) (same_lem x y (ground arith)) (same_names_lem a b (ground arith))

same_names_refl : (a : List Name) → same_names a a ≡ true
unfolding same_names
same_names_refl [] = refl
same_names_refl (x ∷ a) = rw (same_refl x, same_names_refl a) refl

pub same_rows_lem : (a b : List (List Name)) → same_rows a b ≡ true → a ≡ b
unfolding same_rows
same_rows_lem [] [] h = refl
same_rows_lem [] (y ∷ b) h = absurd (ground (arith, h))
same_rows_lem (x ∷ a) [] h = absurd (ground (arith, h))
same_rows_lem (x ∷ a) (y ∷ b) h =
    ap₂ (λ u v. u ∷ v) (same_names_lem x y (ground arith)) (same_rows_lem a b (ground arith))

pub same_rows_refl : (a : List (List Name)) → same_rows a a ≡ true
unfolding same_rows
same_rows_refl [] = refl
same_rows_refl (x ∷ a) = rw (same_names_refl x, same_rows_refl a) refl

module _ {A : Type 0} (f : A → Bool) where
  pub any_perm : {xs ys : List A} → Permᴰ xs ys → any f xs ≡ any f ys
  any_perm Permᴰ.nil = refl
  any_perm (Permᴰ.cons e p) = ap₂ (λ a b. f a || b) e (any_perm p)
  any_perm (Permᴰ.swap {a = a} {b = b} {l = l} e d) = rw (← e, ← d) (ground arith)
  any_perm (Permᴰ.trans p q) = any_perm p ∙ any_perm q

  pub all_perm : {xs ys : List A} → Permᴰ xs ys → all f xs ≡ all f ys
  all_perm Permᴰ.nil = refl
  all_perm (Permᴰ.cons e p) = ap₂ (λ a b. f a && b) e (all_perm p)
  all_perm (Permᴰ.swap {a = a} {b = b} {l = l} e d) = rw (← e, ← d) (ground arith)
  all_perm (Permᴰ.trans p q) = all_perm p ∙ all_perm q

  pub all_same : (g : A → Bool) (xs : List A) → ((x : A) → f x ≡ g x) → all f xs ≡ all g xs
  all_same g [] h = refl
  all_same g (x ∷ xs) h = ap₂ (λ a b. a && b) (h x) (all_same g xs h)

  filter_none : (xs : List A) → is_empty (filter (λ x. not (f x)) xs) ≡ all f xs
  filter_none [] = refl
  filter_none (x ∷ xs) = ground (arith, filter_none xs)

first_missing_lem :
    (missing : List (List Cell)) → (first_missing missing ≡ returns tt) ↔ (is_empty missing ≡ true)
first_missing_lem [] = (λ h. refl, λ h. refl)
first_missing_lem (r ∷ missing) = (λ h. absurd (ground (arith, h)), λ h. absurd (ground (arith, h)))

subset_lem :
    (p : Pandas) (actual exp : Frame)
    → (assert_subset_present p actual exp ≡ returns tt) ↔ (
        (is_empty exp.columns ≡ true)
        ⊎ (all (λ r. any (eq_row p r) (select exp.columns actual).rows) exp.rows ≡ true))
unfolding assert_subset_present missing_rows
subset_lem p actual exp =
    let f : List Cell → Bool = λ r. any (eq_row p r) (select exp.columns actual).rows in
    let (sound, complete) =
      first_missing_lem (missing_rows p (select exp.columns actual).rows exp.rows) in
    elim (Bool-cases (is_empty exp.columns)) [
      | inl z ↦ rw z (λ h. inl refl, λ h. refl)
      | inr z ↦ rw z (
        λ h. inr (sym (filter_none f exp.rows) ∙ sound h),
        λ h. elim h [
          | inl q ↦ absurd (ground (arith, q))
          | inr q ↦ complete (filter_none f exp.rows ∙ q)
        ],
      )
    ]

pub subset_columns :
    (p : Pandas) (actual exp : Frame) (names : List Name)
    → exp.columns ≡ names
    → (assert_subset_present p actual exp ≡ returns tt) ↔ (
        (is_empty names ≡ true)
        ⊎ (all (λ r. any (eq_row p r) (select names actual).rows) exp.rows ≡ true))
subset_columns p actual exp names h = rw (← h) (subset_lem p actual exp)
