-- ===== src/Hooks/Applied.antt =====
-- Which hooks run at a model, and what is found in the registry.
use fast_flow_transform.Prelude.{
  ℕ, suc, ◌≡◌, refl, sym, ◌∙◌, ◌↔◌, ◌⊎◌, inl, inr, Bool, true, not, ◌&&◌, ◌||◌, Option, none, some,
  List, [], ◌∷◌, ◌++◌, map, arith, if◌then◌else◌, Bool-cases, is_empty, filter, Option-cases, All,
}
use fast_flow_transform.Prelude.Names.{Name, same, same_iff, same_lem, member}
use fast_flow_transform.Registry.{Node}
use fast_flow_transform.Selection.Tokens.{parse_select}
use fast_flow_transform.Selection.Tokens.Accepts.{Accepts, compile_selector_iff}
use fast_flow_transform.Prelude.Results.{returns, raises}
use fast_flow_transform.Hooks.{
  hook_at, fft_hook, resolve_hook, or_else_text, already_registered, phase_of, When, Hook, Hooks,
  HookError, hook_failed, HookSpec, HookWorld, or_empty, hook_matches_current_env,
  filter_active_specs, is_applicable, model_hooks_for_when, execute_kind, execute_single_hook,
  hook_loop, run_hooks, run_model_hooks,
}

module _ {S E : Type 0} (w : HookWorld S E) (n : Node) where
  -- A hook applies to the model: it has no selector or each of its tokens accepts the model, and its engines
  -- and environments are not given or the current ones are among them.
  pub record Applies (spec : HookSpec) : Type 0 where
    pub selected :
        (w.strip (or_empty spec.select) ≡ "")
        ⊎ All
            (Accepts w.text w.rows n)
            (parse_select w.text (parse_select w.text (w.strip (or_empty spec.select) ∷ [])))
    pub on_engine :
        (is_empty spec.engines || member w.engine_name (map w.text.lower spec.engines)) ≡ true
    pub in_env : (is_empty spec.envs || member w.env_name spec.envs) ≡ true

  -- The hooks that apply run in turn, numbered from `idx`, up to the first that raises.
  pub data Ran (when : When) : ℕ → List HookSpec → S → S → Option (HookError E) → Type 0 where
    ended : {idx : ℕ} {s : S} → Ran when idx [] s s none
    passed_over :
        {idx : ℕ} {spec : HookSpec} {specs : List HookSpec} {s s' : S} {o : Option (HookError E)}
        → ¬ Applies spec
        → Ran when idx specs s s' o
        → Ran when idx (spec ∷ specs) s s' o
    ran :
        {idx : ℕ} {spec : HookSpec} {specs : List HookSpec} {s s1 s' : S} {o : Option (HookError E)}
        → Applies spec
        → execute_kind w spec.kind when (some n) spec s ≡ (s1, none)
        → Ran when (suc idx) specs s1 s' o
        → Ran when idx (spec ∷ specs) s s' o
    failed :
        {idx : ℕ} {spec : HookSpec} {specs : List HookSpec} {s s' : S} {e : HookError E}
        → Applies spec
        → execute_kind w spec.kind when (some n) spec s ≡ (s', some e)
        → Ran when idx (spec ∷ specs) s s' (some (hook_failed idx e))

  abbrev wanted : HookSpec → Bool
  wanted spec = is_applicable w n spec && hook_matches_current_env w spec

  is_applicable_iff :
      (spec : HookSpec)
      → (is_applicable w n spec ≡ true) ↔ (
          (w.strip (or_empty spec.select) ≡ "")
          ⊎ All
              (Accepts w.text w.rows n)
              (parse_select w.text (parse_select w.text (w.strip (or_empty spec.select) ∷ []))))
  unfolding is_applicable
  is_applicable_iff spec =
      let sel = w.strip (or_empty spec.select) in
      let (there, back) =
        compile_selector_iff w.text w.rows n (some (parse_select w.text (sel ∷ []))) in
      (
        λ h. elim (Bool-cases (same sel "")) [
          | inl e ↦ inl (same_lem sel "" e)
          | inr e ↦ inr (there (ground arith))
        ],
        λ h. elim h [
          | inl e ↦ ground (arith, same_iff sel "")
          | inr a ↦ let b = back a in ground arith
        ],
      )

  wanted_iff : (spec : HookSpec) → (wanted spec ≡ true) ↔ Applies spec
  unfolding hook_matches_current_env
  wanted_iff spec =
      let (there, back) = is_applicable_iff spec in
      (
        λ h. record {
          selected = there (ground arith);
          on_engine = ground arith;
          in_env = ground arith;
        },
        λ a. let b = back a.selected in ground (arith, a.on_engine, a.in_env),
      )

  active_hooks :
      (specs : List HookSpec)
      → filter_active_specs w (model_hooks_for_when w specs n) ≡ filter wanted specs
  unfolding filter_active_specs model_hooks_for_when
  active_hooks [] = refl
  active_hooks (spec ∷ specs) = ground (arith, active_hooks specs)

  -- How a hook ends.
  ends_or_raises :
      (r : S × Option (HookError E))
      → ((s : S) × (r ≡ (s, none))) ⊎ ((s : S) × (e : HookError E) × (r ≡ (s, some e)))
  ends_or_raises (s, none) = inl (s, refl)
  ends_or_raises (s, some e) = inr (s, e, refl)

  hook_loop-Ran :
      (when : When) (idx : ℕ) (specs : List HookSpec) (s : S)
      → Ran when idx specs s
          (hook_loop w when (some n) idx (filter wanted specs) s).0
          (hook_loop w when (some n) idx (filter wanted specs) s).1
  unfolding hook_loop execute_single_hook
  hook_loop-Ran when idx [] s = ended
  hook_loop-Ran when idx (spec ∷ specs) s =
      let (there, back) = wanted_iff spec in
      elim (Bool-cases (wanted spec)) [
        | inr q ↦
            passed_over (λ a. absurd (ground (arith, back a, q)))
              (rw q (hook_loop-Ran when idx specs s))
        | inl q ↦
            let here : hook_matches_current_env w spec ≡ true = ground arith in
            elim (ends_or_raises (execute_kind w spec.kind when (some n) spec s)) [
              | inl (s1, e) ↦ ran (there q) e (
                  rw (q, hook_loop, execute_single_hook, here, e)
                    (hook_loop-Ran when (suc idx) specs s1))
              | inr (s1, x, e) ↦
                  rw (q, hook_loop, execute_single_hook, here, e) (failed (there q) e)
            ]
      ]

  -- Before or after a model, the hooks of the list that apply to it run in turn, up to the first that raises,
  -- and what is raised names the number of that hook among them: a hook applies when it has no selector or
  -- each token of it accepts the model, and the engine and the environment are among its own, if it has any.
  pub run_model_hooks-Ran :
      (when : When) (specs : List HookSpec) (s : S)
      → Ran when 1 specs s (run_model_hooks w when n specs s).0 (run_model_hooks w when n specs s).1
  unfolding run_model_hooks run_hooks
  run_model_hooks-Ran when specs s =
      rw (run_model_hooks, run_hooks, active_hooks specs) (hook_loop-Ran when 1 specs s)

module _ {S E : Type 0} where
  hook_at-registered :
      (hooks : Hooks S E) (p k phase name : Name) (fn : Hook S E)
      → hook_at (hooks ++ ((p, k), fn) ∷ []) phase name ≡ (elim (hook_at hooks phase name) [
        | some old ↦ some old
        | none ↦ if same p phase && same k name then some fn else none
      ])
  unfolding hook_at
  hook_at-registered [] p k phase name fn = refl
  hook_at-registered (((q, j), f) ∷ hooks) p k phase name fn =
      elim (Bool-cases (same q phase && same j name)) [
        | inl e ↦ rw e refl
        | inr e ↦ rw e (hook_at-registered hooks p k phase name fn)
      ]

  hook_at-fft_hook :
      (name when : Option Name) (fn_name : Name) (fn : Hook S E) (hooks hooks' : Hooks S E)
      → fft_hook name when fn_name fn hooks ≡ returns hooks'
      → (phase k : Name)
      → hook_at hooks' phase k ≡ (
          if same (or_else_text when "*") phase && same (or_else_text name fn_name) k
          then some fn
          else hook_at hooks phase k)
  unfolding fft_hook
  hook_at-fft_hook name when fn_name fn hooks hooks' h phase k =
      let p = or_else_text when "*" in
      let j = or_else_text name fn_name in
      elim (Option-cases (hook_at hooks p j)) [
        | inr (old, e) ↦
            let h' : raises (already_registered p j) ≡ returns hooks' =
              sym (rw (fft_hook, e) refl) ∙ h in
            cc
        | inl e ↦
            let h' : returns (hooks ++ ((p, j), fn) ∷ []) ≡ returns hooks' =
              sym (rw (fft_hook, e) refl) ∙ h in
            let q : hooks' ≡ hooks ++ ((p, j), fn) ∷ [] = cc in
            elim (Bool-cases (same p phase && same j k)) [
              | inl t ↦
                  let same_phase = same_lem p phase (ground arith) in
                  let same_name = same_lem j k (ground arith) in
                  let fresh : hook_at hooks phase k ≡ none = rw (← same_phase, ← same_name) e in
                  rw (q, hook_at-registered hooks p j phase k fn, fresh, t) refl
              | inr t ↦ elim (Option-cases (hook_at hooks phase k)) [
                | inl u ↦ rw (q, hook_at-registered hooks p j phase k fn, u, t) refl
                | inr (old, u) ↦ rw (q, hook_at-registered hooks p j phase k fn, u, t) refl
              ]
            ]
      ]

  -- A registration that succeeds changes only what is found under its name: the new hook is found at its
  -- phase, and, if it is registered for every phase, where no hook of that phase has the name.
  resolve_hook-fft_hook :
      (name when : Option Name) (fn_name : Name) (fn : Hook S E) (hooks hooks' : Hooks S E)
      → fft_hook name when fn_name fn hooks ≡ returns hooks'
      → (at : When) (k : Name)
      → resolve_hook hooks' at k ≡ (
          if not (same (or_else_text name fn_name) k)
          then resolve_hook hooks at k
          else if same (or_else_text when "*") (phase_of at)
          then returns fn
          else elim (hook_at hooks (phase_of at) k) [
            | some old ↦ returns old
            | none ↦
                if same (or_else_text when "*") "*" then returns fn else resolve_hook hooks at k
          ])
  unfolding resolve_hook
  resolve_hook-fft_hook name when fn_name fn hooks hooks' h at k =
      let p = or_else_text when "*" in
      let j = or_else_text name fn_name in
      let exact = hook_at-fft_hook name when fn_name fn hooks hooks' h (phase_of at) k in
      let wild = hook_at-fft_hook name when fn_name fn hooks hooks' h "*" k in
      ground (arith, exact, wild)
