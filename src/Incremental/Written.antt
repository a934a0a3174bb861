-- ===== src/Incremental/Written.antt =====
-- What a run of a model that raises nothing has executed.
use fast_flow_transform.Prelude.{◌≡◌, ◌≢◌, true, false, Option, none, some, List, []}
use fast_flow_transform.Prelude.Names.{Name}
use fast_flow_transform.Registry.{relation_for}
use fast_flow_transform.Incremental.{
  Exc, MetaText, IncrementalMeta, is_incremental_model, normalize_unique_key,
  get_schema_sync_policy, increment_sql, rendered, given_env, incremental_env, Executor,
  is_merge_not_supported_error, or_sql, render_sql_safe, replace_sql, full_refresh_table,
  maybe_schema_sync, apply_runtime_contracts,
}

module _ {S C : Type 0} (x : Executor S C) (text : MetaText) (meta : IncrementalMeta)
    (name : Name) where
  abbrev relation : Name
  relation = relation_for name

  abbrev keys : List Name
  keys = normalize_unique_key text meta.unique_key

  -- The statement that fills the relation from a query, from `s` to `s'`: the executor's own, or else one
  -- that creates the table, or after its failure one that replaces it.
  pub data Refreshed (sql : Name) (s s' : S) : Type 0 where
    by_executor :
        (refresh : Name → Name → S → S × Option Exc)
        → x.full_refresh_table ≡ some refresh
        → refresh relation sql s ≡ (s', none)
        → Refreshed sql s s'
    by_creation :
        x.full_refresh_table ≡ none
        → x.create_table_as relation sql s ≡ (s', none)
        → Refreshed sql s s'
    by_replacement :
        (s1 : S) (c : Exc)
        → x.full_refresh_table ≡ none
        → x.create_table_as relation sql s ≡ (s1, some c)
        → x.execute_sql (replace_sql x relation sql) s1 ≡ (s', none)
        → Refreshed sql s s'

  -- From `s0` to `s'`: the increment was merged by the keys, or inserted where there are none; or that
  -- failed (a merge since it is not supported) and the relation was filled from the whole query.
  pub data Incremented (sql whole : Name) (s0 s' : S) : Type 0 where
    merged :
        keys ≢ []
        → x.incremental_merge relation sql keys s0 ≡ (s', none)
        → Incremented sql whole s0 s'
    inserted :
        keys ≡ [] → x.incremental_insert relation sql s0 ≡ (s', none) → Incremented sql whole s0 s'
    not_merged :
        (s1 : S) (c : Exc)
        → keys ≢ []
        → x.incremental_merge relation sql keys s0 ≡ (s1, some c)
        → is_merge_not_supported_error text c ≡ true
        → Refreshed whole s1 s'
        → Incremented sql whole s0 s'
    not_inserted :
        (s1 : S) (c : Exc)
        → keys ≡ []
        → x.incremental_insert relation sql s0 ≡ (s1, some c)
        → Refreshed whole s1 s'
        → Incremented sql whole s0 s'

  -- The statements of a run from `s` to `s'`.
  pub data Written (s s' : S) : Type 0 where
    replaced :
        (sql : Name)
        → is_incremental_model meta ≡ false
        → render_sql_safe x given_env ≡ rendered sql
        → Refreshed sql s s'
        → Written s s'
    created :
        (sql : Name) (s1 : S)
        → is_incremental_model meta ≡ true
        → x.exists_relation s relation ≢ some true
        → render_sql_safe x (incremental_env false) ≡ rendered sql
        → Refreshed sql s s1
        → apply_runtime_contracts x name relation s1 ≡ (s', none)
        → Written s s'
    updated :
        (base full : Name) (s0 s1 : S)
        → is_incremental_model meta ≡ true
        → x.exists_relation s relation ≡ some true
        → render_sql_safe x (incremental_env true) ≡ rendered base
        → render_sql_safe x (incremental_env false) ≡ rendered full
        → maybe_schema_sync x relation
            (increment_sql text meta base)
            (get_schema_sync_policy text meta)
            s
          ≡ (s0, none)
        → Incremented
            (increment_sql text meta base)
            (or_sql full (increment_sql text meta base))
            s0
            s1
        → apply_runtime_contracts x name relation s1 ≡ (s', none)
        → Written s s'
