-- ===== src/Incremental/Keys.antt =====
-- incremental.py: what the meta data of a model asks for.
use fast_flow_transform.Prelude.{
  Bool, true, false, ◌&&◌, Option, none, some, List, [], ◌∷◌, ◌++◌, if◌then◌else◌,
}
use fast_flow_transform.Prelude.Names.{Name, same}
use mathlib.Core.Option

-- An exception: one that another part raised, by its class and text, or `ModelExecutionError`, which is
-- made from its cause and the SQL that it shows the end of.
pub data Exc : Type 0 where
  raised : (message : Name) → Exc
  model_execution_error : (cause : Exc) (rendered_sql : Name) → Exc

-- `str.strip`, `str.lower`, and `str` of an exception.
pub record MetaText : Type 0 where
  pub strip : Name → Name
  pub lower : Name → Name
  pub str : Exc → Name

-- The value of `incremental`: absent, a Boolean, a dict with its `enabled` (as a truth value) and its
-- `schema_sync`, or something else.
pub data IncrementalConfig : Type 0 where
  no_config other_config : IncrementalConfig
  flag : Bool → IncrementalConfig
  block : (enabled : Option Bool) (schema_sync : Option Name) → IncrementalConfig

-- The value of `unique_key`: a text, a sequence with `none` for what is no text, or something else.
pub data UniqueKey : Type 0 where
  no_key : UniqueKey
  one_key : Name → UniqueKey
  key_list : List (Option Name) → UniqueKey

pub data Policy : Type 0 where
  ignore append_new_columns sync_all_columns : Policy

pub record IncrementalMeta : Type 0 where
  pub materialized : Option Name
  pub incremental : IncrementalConfig
  pub delta_sql : Option Name
  pub unique_key : UniqueKey
  pub schema_sync : Option Name
  pub on_schema_change : Option Name

-- The beginning of `run_or_dispatch`: `incr_enabled` and `is_incremental_model`.
pub incr_enabled : IncrementalConfig → Bool
incr_enabled no_config = false
incr_enabled other_config = false
incr_enabled (flag b) = b
incr_enabled (block enabled schema_sync) = Option.get_or enabled true

pub is_given_config : IncrementalConfig → Bool
is_given_config no_config = false
is_given_config other_config = true
is_given_config (flag b) = true
is_given_config (block enabled schema_sync) = true

unfoldable pub is_incremental_model : IncrementalMeta → Bool
unfolding incr_enabled is_given_config
is_incremental_model meta = elim meta.materialized [
  | none ↦ incr_enabled meta.incremental
  | some m ↦
      same m "incremental"
      && (if is_given_config meta.incremental then incr_enabled meta.incremental else true)
]

abbrev pub or_given : Option Name → Option Name → Option Name
or_given none other = other
or_given (some a) other = some a

pub sync_of_config : IncrementalConfig → Option Name
sync_of_config no_config = none
sync_of_config other_config = none
sync_of_config (flag b) = none
sync_of_config (block enabled schema_sync) = schema_sync

module _ (text : MetaText) where
  abbrev pub stripped_key : Name → List Name
  stripped_key s = let t = text.strip s in if same t "" then [] else t ∷ []

  pub stripped_keys : List (Option Name) → List Name
  stripped_keys [] = []
  stripped_keys (none ∷ keys) = stripped_keys keys
  stripped_keys (some s ∷ keys) = stripped_key s ++ stripped_keys keys

  -- `_normalize_unique_key`
  unfoldable pub normalize_unique_key : UniqueKey → List Name
  unfolding stripped_keys
  normalize_unique_key no_key = []
  normalize_unique_key (one_key s) = stripped_key s
  normalize_unique_key (key_list keys) = stripped_keys keys

  -- `_get_schema_sync_policy`
  unfoldable pub get_schema_sync_policy : IncrementalMeta → Policy
  unfolding sync_of_config
  get_schema_sync_policy meta =
      let raw =
        or_given meta.schema_sync
          (or_given (sync_of_config meta.incremental) meta.on_schema_change) in
      let given = Option.get_or raw "" in
      let v = text.lower (text.strip (if same given "" then "ignore" else given)) in
      if same v "append_new_columns"
      then append_new_columns
      else if same v "sync_all_columns"
      then sync_all_columns
      else ignore

  -- The SQL of the increment, where the relation exists: `delta_sql` unless it is blank, else what was
  -- rendered.
  unfoldable pub increment_sql : IncrementalMeta → Name → Name
  increment_sql meta base_sql = elim meta.delta_sql [
    | none ↦ base_sql
    | some d ↦ let delta = text.strip d in if same delta "" then base_sql else delta
  ]
