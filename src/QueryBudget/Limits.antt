-- ===== src/QueryBudget/Limits.antt =====
-- The limit of a guard.
use fast_flow_transform.Prelude.{
  ℕ, zero, suc, ◌≡◌, refl, sym, ap, ◌∙◌, ◌≢◌, inl, inr, true, Option, none, some, arith,
  if◌then◌else◌, Bool-cases, Option-cases,
}
use fast_flow_transform.QueryBudget.{
  positive, parse_max_bytes_env, env_limit_value, BudgetWorld, BudgetState, read_env, resolve_limit,
}

module _ {D R E : Type 0} (w : BudgetWorld D R E) where
  -- The variable as it was when it was first read: now, unless that was before.
  abbrev pub env_in_force : BudgetState D → Option ℕ
  env_in_force s = elim w.env_var [
    | none ↦ none
    | some name ↦
        if s.env_limit_populated then s.env_limit else parse_max_bytes_env w.text (w.getenv name)
  ]

  -- The limit in force, which a guard needs: a positive one of the variable, or else a positive one that was
  -- configured.
  pub data InForce (s : BudgetState D) : ℕ → Type 0 where
    by_env : (n : ℕ) → w.has_guard ≡ true → env_in_force s ≡ some (suc n) → InForce s (suc n)
    by_configuration :
        (n : ℕ)
        → w.has_guard ≡ true
        → ((k : ℕ) → env_in_force s ≢ some (suc k))
        → s.configured ≡ some (suc n)
        → InForce s (suc n)

  -- The same by the code.
  unfoldable pub limit_of : BudgetState D → Option ℕ
  unfolding resolve_limit
  limit_of s = if w.has_guard then resolve_limit w (read_env w s) else none

  read_env_in_force :
      (s : BudgetState D)
      → (env_limit_value w (read_env w s) ≡ env_in_force s)
        × ((read_env w s).configured ≡ s.configured)
  unfolding read_env
  read_env_in_force s = elim (Option-cases w.env_var) [
    | inl e ↦ rw e (refl, refl)
    | inr (name, e) ↦ elim (Bool-cases s.env_limit_populated) [
      | inl p ↦ rw (e, p) (refl, refl)
      | inr p ↦ rw (e, p) (refl, refl)
    ]
  ]

  positive_lem :
      (o : Option ℕ) (l : ℕ) → positive o ≡ some l → (n : ℕ) × (l ≡ suc n) × (o ≡ some (suc n))
  positive_lem none l h = absurd (ground (arith, h))
  positive_lem (some zero) l h = absurd (ground (arith, h))
  positive_lem (some (suc n)) l h = let same_limit : suc n ≡ l = cc in (n, sym same_limit, refl)

  positive_unset : (o : Option ℕ) → positive o ≡ none → (k : ℕ) → o ≢ some (suc k)
  positive_unset none h k q = ground (arith, q)
  positive_unset (some zero) h k q = ground (arith, q)
  positive_unset (some (suc n)) h k q = ground (arith, h)

  positive_lack : (o : Option ℕ) → ((k : ℕ) → o ≢ some (suc k)) → positive o ≡ none
  positive_lack none h = refl
  positive_lack (some zero) h = refl
  positive_lack (some (suc n)) h = absurd (h n refl)

  pub limit_there : (s : BudgetState D) (l : ℕ) → limit_of s ≡ some l → InForce s l
  unfolding limit_of resolve_limit
  limit_there s l h =
      let (env, conf) = read_env_in_force s in
      elim (Bool-cases w.has_guard) [
        | inr g ↦ absurd (ground (arith, h, g))
        | inl g ↦
            let h' : resolve_limit w (read_env w s) ≡ some l =
              sym (ap (λ b. if b then resolve_limit w (read_env w s) else none) g) ∙ h in
            elim (Option-cases (positive (env_limit_value w (read_env w s)))) [
              | inr (k, e) ↦
                  let (n, k_is, o) = positive_lem (env_limit_value w (read_env w s)) k e in
                  let h2 : some k ≡ some l = sym (rw (resolve_limit, e) refl) ∙ h' in
                  let l_is : suc n ≡ l = cc in rw (← l_is) (by_env n g (sym env ∙ o))
              | inl e ↦
                  let h2 : positive (read_env w s).configured ≡ some l =
                    sym (rw (resolve_limit, e) refl) ∙ h' in
                  let (n, l_is, o) = positive_lem (read_env w s).configured l h2 in
                  rw l_is (
                    by_configuration n g
                      (λ k q. positive_unset (env_limit_value w (read_env w s)) e k (env ∙ q))
                      (sym conf ∙ o))
            ]
      ]

  pub limit_back : (s : BudgetState D) (l : ℕ) → InForce s l → limit_of s ≡ some l
  unfolding limit_of resolve_limit
  limit_back s l (by_env n g e) =
      let (env, conf) = read_env_in_force s in
      let found : positive (env_limit_value w (read_env w s)) ≡ some (suc n) =
        ap positive (env ∙ e) in
      ap (λ b. if b then resolve_limit w (read_env w s) else none) g
      ∙ rw (resolve_limit, found) refl
  limit_back s l (by_configuration n g lack c) =
      let (env, conf) = read_env_in_force s in
      let found : positive (env_limit_value w (read_env w s)) ≡ none =
        ap positive env ∙ positive_lack (env_in_force s) lack in
      ap (λ b. if b then resolve_limit w (read_env w s) else none) g
      ∙ rw (resolve_limit, found) (ap positive (conf ∙ c))
