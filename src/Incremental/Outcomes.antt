-- ===== src/Incremental/Outcomes.antt =====
-- What is known of the parts of a chain of statements by its outcome.
use fast_flow_transform.Prelude.{◌≡◌, refl, sym, ap, ◌⊎◌, inl, inr, Option, none, some, arith}
use fast_flow_transform.Prelude.Names.{Name}
use mathlib.Core.Option
use fast_flow_transform.Incremental.{
  Exc, raised, model_execution_error, Render, rendered, render_error, Executor, and_then, on_error,
  wrapped, wrapped_once, with_sql,
}

module _ {S : Type 0} where
  pub and_then_returns :
      (r : S × Option Exc) (f : S → S × Option Exc) (s' : S)
      → and_then r f ≡ (s', none)
      → (s : S) × (r ≡ (s, none)) × (f s ≡ (s', none))
  unfolding and_then
  and_then_returns (s, none) f s' h = (s, refl, h)
  and_then_returns (s, some e) f s' h = absurd (ground (arith, ap (λ r. r.1) h))

  pub on_error_returns :
      (r : S × Option Exc) (f : Exc → S → S × Option Exc) (s' : S)
      → on_error r f ≡ (s', none)
      → (r ≡ (s', none)) ⊎ ((s : S) × (e : Exc) × (r ≡ (s, some e)) × (f e s ≡ (s', none)))
  unfolding on_error
  on_error_returns (s, none) f s' h = inl h
  on_error_returns (s, some e) f s' h = inr (s, e, refl, h)

  pub wrapped_returns :
      (sql : Name) (r : S × Option Exc) (s' : S) → wrapped sql r ≡ (s', none) → r ≡ (s', none)
  unfolding on_error
  wrapped_returns sql (s, none) s' h = h
  wrapped_returns sql (s, some e) s' h = absurd (ground (arith, ap (λ r. r.1) h))

  pub wrapped_once_returns :
      (sql : Name) (r : S × Option Exc) (s' : S) → wrapped_once sql r ≡ (s', none) → r ≡ (s', none)
  unfolding wrapped_once
  wrapped_once_returns sql (s, none) s' h = h
  wrapped_once_returns sql (s, some (raised m)) s' h = absurd (ground (arith, ap (λ r. r.1) h))
  wrapped_once_returns sql (s, some (model_execution_error c m)) s' h = h

  pub wrapped_raises :
      (sql : Name) (r : S × Option Exc) (s' : S) (e : Exc)
      → wrapped sql r ≡ (s', some e)
      → (c : Exc) × (m : Name) × (e ≡ model_execution_error c m)
  unfolding on_error
  wrapped_raises sql (s, none) s' e h = absurd (ground (arith, ap (λ r. r.1) h))
  wrapped_raises sql (s, some c) s' e h =
      (c, sql, ap (λ o. Option.get_or o e) (sym (ap (λ r. r.1) h)))

  pub wrapped_once_raises :
      (sql : Name) (r : S × Option Exc) (s' : S) (e : Exc)
      → wrapped_once sql r ≡ (s', some e)
      → (c : Exc) × (m : Name) × (e ≡ model_execution_error c m)
  unfolding wrapped_once
  wrapped_once_raises sql (s, none) s' e h = absurd (ground (arith, ap (λ r. r.1) h))
  wrapped_once_raises sql (s, some (raised m)) s' e h =
      (raised m, sql, ap (λ o. Option.get_or o e) (sym (ap (λ r. r.1) h)))
  wrapped_once_raises sql (s, some (model_execution_error c m)) s' e h =
      (c, m, ap (λ o. Option.get_or o e) (sym (ap (λ r. r.1) h)))

  pub and_then_raises :
      (r : S × Option Exc) (f : S → S × Option Exc) (s' : S) (e : Exc)
      → and_then r f ≡ (s', some e)
      → (r ≡ (s', some e)) ⊎ ((s : S) × (r ≡ (s, none)) × (f s ≡ (s', some e)))
  unfolding and_then
  and_then_raises (s, none) f s' e h = inr (s, refl, h)
  and_then_raises (s, some c) f s' e h = inl h

module _ {S C : Type 0} (x : Executor S C) where
  pub with_sql_returns :
      (r : Render) (s : S) (f : Name → S × Option Exc) (s' : S)
      → with_sql x r s f ≡ (s', none)
      → (sql : Name) × (r ≡ rendered sql) × (f sql ≡ (s', none))
  with_sql_returns (rendered sql) s f s' h = (sql, refl, h)
  with_sql_returns (render_error e) s f s' h = absurd (ground (arith, ap (λ r. r.1) h))

  pub with_sql_raises :
      (r : Render) (s : S) (f : Name → S × Option Exc) (s' : S) (e : Exc)
      → with_sql x r s f ≡ (s', some e)
      → (r ≡ render_error e) ⊎ ((sql : Name) × (r ≡ rendered sql) × (f sql ≡ (s', some e)))
  with_sql_raises (rendered sql) s f s' e h = inr (sql, refl, h)
  with_sql_raises (render_error c) s f s' e h =
      inl (ap (λ o. render_error (Option.get_or o c)) (ap (λ r. r.1) h))
