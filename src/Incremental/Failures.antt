-- ===== src/Incremental/Failures.antt =====
-- What a run can raise.
use fast_flow_transform.Prelude.{
  ◌≡◌, refl, sym, ◌∙◌, inl, inr, true, false, Option, some, arith, Bool-cases,
}
use fast_flow_transform.Prelude.Names.{Name}
use fast_flow_transform.Registry.{relation_for}
use fast_flow_transform.Incremental.{
  Exc, model_execution_error, MetaText, IncrementalMeta, is_incremental_model, normalize_unique_key,
  get_schema_sync_policy, increment_sql, Render, rendered, render_error, Env, given_env,
  incremental_env, Executor, and_then, wrapped, safe_exists, render_sql_safe, full_refresh_table,
  maybe_schema_sync, apply_runtime_contracts, merge_or_insert_with_fallback, run_increment,
  run_plain, run_first, run_next, run_or_dispatch,
}
use fast_flow_transform.Incremental.Outcomes.{
  and_then_raises, wrapped_raises, wrapped_once_raises, with_sql_raises,
}

module _ {S C : Type 0} (x : Executor S C) (text : MetaText) (meta : IncrementalMeta)
    (name : Name) where
  -- The error of a run: a `ModelExecutionError`, or what the rendering or the synchronisation of the columns
  -- raised.
  pub data RunFailure (s' : S) (e : Exc) : Type 0 where
    of_execution :
        (cause : Exc) (sql : Name) → e ≡ model_execution_error cause sql → RunFailure s' e
    of_rendering : (env : Env) → x.render_plain env ≡ render_error e → RunFailure s' e
    of_columns :
        (s : S) (sql : Name)
        → maybe_schema_sync x (relation_for name) sql (get_schema_sync_policy text meta) s
          ≡ (s', some e)
        → RunFailure s' e

  render_sql_safe-RunFailure :
      (env : Env) (s' : S) (e : Exc) → render_sql_safe x env ≡ render_error e → RunFailure s' e
  unfolding render_sql_safe
  render_sql_safe-RunFailure env s' e h = of_rendering env (go (x.render_resolved env) h)
    where
      go :
          (r : Render)
          → (elim r [ rendered sql ↦ rendered sql | render_error c ↦ x.render_plain env ])
            ≡ render_error e
          → x.render_plain env ≡ render_error e
      go (rendered sql) h = absurd (ground (arith, h))
      go (render_error c) h = h

  of_wrapped :
      (sql : Name) (r : S × Option Exc) (s' : S) (e : Exc)
      → wrapped sql r ≡ (s', some e)
      → RunFailure s' e
  of_wrapped sql r s' e h = let (c, m, q) = wrapped_raises sql r s' e h in of_execution c m q

  run_next-RunFailure :
      (s s' : S) (e : Exc) → run_next x text meta name s ≡ (s', some e) → RunFailure s' e
  unfolding run_next run_increment
  run_next-RunFailure s s' e h =
      elim (with_sql_raises x (render_sql_safe x (incremental_env true)) s _ s' e h) [
        | inl q ↦ render_sql_safe-RunFailure (incremental_env true) s' e q
        | inr (base, r, h1) ↦
            elim (with_sql_raises x (render_sql_safe x (incremental_env false)) s _ s' e h1) [
              | inl q ↦ render_sql_safe-RunFailure (incremental_env false) s' e q
              | inr (full, r', h2) ↦
                  let sql = increment_sql text meta base in
                  elim (and_then_raises
                    (maybe_schema_sync x (relation_for name) sql (get_schema_sync_policy text meta)
                      s)
                    _ s' e h2) [
                      | inl q ↦ of_columns s sql q
                      | inr (s0, synced, h3) ↦
                          let keys = normalize_unique_key text meta.unique_key in
                          let body : S × Option Exc =
                            and_then
                              (merge_or_insert_with_fallback x text (relation_for name) sql keys
                                full s0)
                              (apply_runtime_contracts x name (relation_for name)) in
                          let (c, m, q) = wrapped_once_raises sql body s' e h3 in of_execution c m q
                    ]
            ]
      ]

  -- What a run raises is a `ModelExecutionError`, unless the rendering or the synchronisation of the columns
  -- raised it.
  pub run_or_dispatch-RunFailure :
      (s s' : S) (e : Exc) → run_or_dispatch x text meta name s ≡ (s', some e) → RunFailure s' e
  unfolding run_or_dispatch run_plain run_first
  run_or_dispatch-RunFailure s s' e h = elim (Bool-cases (is_incremental_model meta)) [
    | inr m ↦
        let h' : run_plain x name s ≡ (s', some e) = sym (rw (run_or_dispatch, m) refl) ∙ h in
        elim (with_sql_raises x (render_sql_safe x given_env) s _ s' e h') [
          | inl q ↦ render_sql_safe-RunFailure given_env s' e q
          | inr (sql, r, done) ↦
              of_wrapped sql (full_refresh_table x (relation_for name) sql s) s' e done
        ]
    | inl m ↦ elim (Bool-cases (safe_exists x s (relation_for name))) [
      | inl q ↦ run_next-RunFailure s s' e (sym (rw (run_or_dispatch, m, q) refl) ∙ h)
      | inr q ↦
          let h' : run_first x name s ≡ (s', some e) = sym (rw (run_or_dispatch, m, q) refl) ∙ h in
          elim (with_sql_raises x (render_sql_safe x (incremental_env false)) s _ s' e h') [
            | inl q ↦ render_sql_safe-RunFailure (incremental_env false) s' e q
            | inr (sql, r, done) ↦
                of_wrapped sql
                  (and_then (full_refresh_table x (relation_for name) sql s)
                    (apply_runtime_contracts x name (relation_for name)))
                  s' e done
          ]
    ]
  ]
