-- ===== src/Incremental.antt =====
-- incremental.py: how the table of an incremental model is brought up to date. The executor is a record of
-- its operations on a state; the Jinja environment is known by what `is_incremental()` answers in it.
mod Keys
unfoldable pub use Keys.*
mod Outcomes
pub mod Written
pub mod Failures
mod Samples
use Prim.Native.String as Str
use fast_flow_transform.Prelude.{
  ℕ, zero, suc, ◌+◌, ◌-◌, ◌*◌, ◌/◌, ◌%◌, ◌^◌, ◌≤◌, ◌<◌, min, max, String, ◌≡◌, refl, sym, ap, ◌∙◌,
  ◌≢◌, ◌↔◌, ◌⊎◌, inl, inr, Bool, true, false, not, ◌&&◌, ◌||◌, Option, none, some, List, [], ◌∷◌,
  ◌++◌, map, foldl, arith, ltb, leb, ◌==◌, if◌then◌else◌, Bool-cases, ltb→lt, lt→ltb, length,
  length-append, is_empty, filter, concat, Option-cases, List-cases, all, any, All,
}
use fast_flow_transform.Prelude.Names.{
  Name, same, same_iff, same_lem, same_refl, member, add, set_of, IsNodup, member-add, add-IsNodup,
  member-set_of, set_of-IsNodup, member-append, member-filter, filter-IsNodup, IsSubset,
  length-subset, update, update-same, update-other,
}
use mathlib.Core.Option
use fast_flow_transform.Prelude.Words.{contains}
use fast_flow_transform.Registry.{relation_for}
use Keys.{
  Exc, raised, model_execution_error, MetaText, IncrementalMeta, Policy, ignore,
  is_incremental_model, normalize_unique_key, get_schema_sync_policy, increment_sql,
}

pub data Render : Type 0 where
  rendered : (sql : Name) → Render
  render_error : Exc → Render

-- The environment given, and its overlays where `is_incremental()` is false or true.
pub data Env : Type 0 where
  given_env : Env
  incremental_env : Bool → Env

-- An executor with its optional hooks. A statement changes the state and may raise. `C` is the type of
-- contracts.
pub record Executor (S C : Type 0) : Type 0 where
  pub exists_relation : S → Name → Option Bool
  pub render_resolved : Env → Render
  pub render_plain : Env → Render
  pub full_refresh_table : Option (Name → Name → S → S × Option Exc)
  pub qualify : Option (Name → Option Name)
  pub create_table_as : Name → Name → S → S × Option Exc
  pub execute_sql : Name → S → S × Option Exc
  pub alter_table_sync_schema : Option (Name → Name → Policy → S → S × Option Exc)
  pub incremental_merge : Name → Name → List Name → S → S × Option Exc
  pub incremental_insert : Name → Name → S → S × Option Exc
  pub runtime : Option (Name → Option C → S → S × Option Exc)
  pub contracts : Name → Option C
  pub has_project_contracts : Bool
  pub format_relation : Option (Name → Name)

-- One statement after another, unless the first raises.
unfoldable pub and_then : {S : Type 0} → S × Option Exc → (S → S × Option Exc) → S × Option Exc
and_then (s, none) f = f s
and_then (s, some e) f = (s, some e)

-- `try: ... except Exception as e: ...`
unfoldable pub on_error :
    {S : Type 0} → S × Option Exc → (Exc → S → S × Option Exc) → S × Option Exc
on_error (s, none) f = (s, none)
on_error (s, some e) f = f e s

-- `wrap_and_raise(e)`, at the end of a `try`.
abbrev pub wrapped : {S : Type 0} → Name → S × Option Exc → S × Option Exc
wrapped sql r = on_error r (λ e s. (s, some (model_execution_error e sql)))

-- `_is_merge_not_supported_error`
unfoldable pub is_merge_not_supported_error : MetaText → Exc → Bool
unfolding contains
is_merge_not_supported_error text e =
    contains "merge into table is not supported" (text.lower (text.str e))
    || contains "merge into is not supported" (text.lower (text.str e))

-- The end of `run_or_dispatch`, which lets a `ModelExecutionError` pass.
unfoldable pub wrapped_once : {S : Type 0} → Name → S × Option Exc → S × Option Exc
wrapped_once sql (s, some (raised message)) = (s, some (model_execution_error (raised message) sql))
wrapped_once sql r = r

-- `fallback_sql or rendered_sql`
unfoldable pub or_sql : Name → Name → Name
or_sql fallback sql = if same fallback "" then sql else fallback

module _ {S C : Type 0} (x : Executor S C) where
  -- `_safe_exists`: `none` is an exception.
  unfoldable pub safe_exists : S → Name → Bool
  safe_exists s relation = Option.get_or (x.exists_relation s relation) false

  -- `_render_sql_safe`
  unfoldable pub render_sql_safe : Env → Render
  render_sql_safe env = elim (x.render_resolved env) [
    | rendered sql ↦ rendered sql
    | render_error e ↦ x.render_plain env
  ]

  -- The target of the last resort of `_full_refresh_table`.
  pub target_of : Name → Name
  target_of relation = elim x.qualify [
    | none ↦ relation
    | some q ↦ Option.get_or (q relation) relation
  ]

  abbrev pub replace_sql : Name → Name → Name
  replace_sql relation sql =
      Str.◌++◌ "create or replace table " (Str.◌++◌ (target_of relation) (Str.◌++◌ " as " sql))

  -- `_full_refresh_table`, which is also `_create_table_as_or_replace`.
  unfoldable pub full_refresh_table : Name → Name → S → S × Option Exc
  unfolding on_error target_of
  full_refresh_table relation sql s = elim x.full_refresh_table [
    | some refresh ↦ refresh relation sql s
    | none ↦
        on_error (x.create_table_as relation sql s) (λ e. x.execute_sql (replace_sql relation sql))
  ]

  abbrev pub alter_with :
      Option (Name → Name → Policy → S → S × Option Exc) → Name → Name → Policy → S → S × Option Exc
  alter_with none relation sql policy s = (s, none)
  alter_with (some alter) relation sql policy s = alter relation sql policy s

  -- `_maybe_schema_sync`
  unfoldable pub maybe_schema_sync : Name → Name → Policy → S → S × Option Exc
  maybe_schema_sync relation sql ignore s = (s, none)
  maybe_schema_sync relation sql policy s =
      alter_with x.alter_table_sync_schema relation sql policy s

  pub contract_of : Name → Option C
  contract_of name = elim (x.contracts (relation_for name)) [
    | none ↦ x.contracts name
    | some c ↦ some c
  ]

  pub physical_of : Name → Name → Name
  physical_of name relation = elim x.format_relation [ none ↦ relation | some f ↦ f name ]

  abbrev pub verify_with :
      Option (Name → Option C → S → S × Option Exc) → Name → Option C → S → S × Option Exc
  verify_with none physical contract s = (s, none)
  verify_with (some verify) physical none s =
      if x.has_project_contracts then verify physical none s else (s, none)
  verify_with (some verify) physical (some c) s = verify physical (some c) s

  -- `_apply_runtime_contracts_after_incremental`, for a model of this name.
  unfoldable pub apply_runtime_contracts : Name → Name → S → S × Option Exc
  unfolding contract_of physical_of
  apply_runtime_contracts name relation s =
      verify_with x.runtime (physical_of name relation) (contract_of name) s

  -- `_merge_or_insert_with_fallback`, with the handler that `run_or_dispatch` gives it.
  unfoldable pub merge_or_insert_with_fallback :
      MetaText → Name → Name → List Name → Name → S → S × Option Exc
  unfolding on_error full_refresh_table is_merge_not_supported_error or_sql
  merge_or_insert_with_fallback text relation sql [] fallback s =
      let full = or_sql fallback sql in
      on_error (x.incremental_insert relation sql s)
        (λ e s. wrapped full (full_refresh_table relation full s))
  merge_or_insert_with_fallback text relation sql (k ∷ keys) fallback s =
      let full = or_sql fallback sql in
      on_error (x.incremental_merge relation sql (k ∷ keys) s) (λ e s.
        if is_merge_not_supported_error text e
        then wrapped full (full_refresh_table relation full s)
        else (s, some e))

  -- What `run_or_dispatch` does once the relation exists.
  unfoldable pub run_increment :
      MetaText → IncrementalMeta → Name → Name → Name → S → S × Option Exc
  unfolding maybe_schema_sync merge_or_insert_with_fallback apply_runtime_contracts
      normalize_unique_key get_schema_sync_policy and_then wrapped_once
  run_increment text meta name sql fallback s =
      let relation = relation_for name in
      and_then (maybe_schema_sync relation sql (get_schema_sync_policy text meta) s) (λ s.
        wrapped_once sql (
          and_then
            (merge_or_insert_with_fallback text relation sql
              (normalize_unique_key text meta.unique_key) fallback s)
            (apply_runtime_contracts name relation)))

  -- The rendering fails: nothing was executed.
  abbrev pub with_sql : Render → S → (Name → S × Option Exc) → S × Option Exc
  with_sql (rendered sql) s f = f sql
  with_sql (render_error e) s f = (s, some e)

  -- The three ways of `run_or_dispatch`: no incremental model, a relation that is not there, and one that is.
  unfoldable pub run_plain : Name → S → S × Option Exc
  unfolding render_sql_safe full_refresh_table on_error relation_for
  run_plain name s =
      with_sql (render_sql_safe given_env) s
        (λ sql. wrapped sql (full_refresh_table (relation_for name) sql s))

  unfoldable pub run_first : Name → S → S × Option Exc
  unfolding render_sql_safe full_refresh_table apply_runtime_contracts and_then on_error
      relation_for
  run_first name s = with_sql (render_sql_safe (incremental_env false)) s (λ sql. wrapped sql (
      and_then (full_refresh_table (relation_for name) sql s)
        (apply_runtime_contracts name (relation_for name))))

  unfoldable pub run_next : MetaText → IncrementalMeta → Name → S → S × Option Exc
  unfolding render_sql_safe increment_sql run_increment
  run_next text meta name s = with_sql (render_sql_safe (incremental_env true)) s (λ base.
      with_sql (render_sql_safe (incremental_env false)) s
        (λ fallback. run_increment text meta name (increment_sql text meta base) fallback s))

  -- `run_or_dispatch`
  unfoldable pub run_or_dispatch : MetaText → IncrementalMeta → Name → S → S × Option Exc
  unfolding is_incremental_model safe_exists relation_for run_plain run_first run_next
  run_or_dispatch text meta name s =
      if not (is_incremental_model meta)
      then run_plain name s
      else if safe_exists s (relation_for name)
      then run_next text meta name s
      else run_first name s
