-- ===== src/Utest/Context.antt =====
-- utest.py: what a run of the unit tests is given, its state and its results.
use fast_flow_transform.Prelude.{ℕ, Bool, Option, none, some, List, if◌then◌else◌}
use fast_flow_transform.Prelude.Names.{Name, same}
use fast_flow_transform.Prelude.Results.{Result}
use fast_flow_transform.Registry.{Node, Nodes}
use fast_flow_transform.Cache.{Fingerprints}
use fast_flow_transform.RunEngine.{Payload}
use fast_flow_transform.Utest.Spec.{RowSpec, UnitSpec}
use fast_flow_transform.Utest.Compare.{Frame, Pandas, AssertError}

pub data UtestMode : Type 0 where
  utest_off utest_ro utest_rw : UtestMode

-- `_normalize_cache_mode`, of the lower-case text.
unfoldable pub normalize_cache_mode : Name → Option UtestMode
normalize_cache_mode v =
    if same v "off"
    then some utest_off
    else if same v "ro"
    then some utest_ro
    else if same v "rw"
    then some utest_rw
    else none

pub data CaseStatus : Type 0 where
  case_pass case_fail case_error : CaseStatus

pub data CaseMessage : Type 0 where
  no_message model_not_found input_load_failure : CaseMessage
  execution_failed : Name → CaseMessage
  cannot_read : (relation : Name) → Name → CaseMessage
  not_equal : AssertError → CaseMessage

pub record CaseResult : Type 0 where
  pub model : Name
  pub case : Name
  pub status : CaseStatus
  pub message : CaseMessage
  pub cache_hit : Bool
  pub target_relation : Name
  pub spec_path : Name

-- What `_fingerprint_case_inputs` hashes of an input.
pub record InputItem : Type 0 where
  pub rows : Option (List RowSpec)
  pub csv_path : Option Name
  pub csv_sha256 : Option Name

-- `reset` is `utest_clean_target`, whose errors are suppressed; `run` is `run_sql` or `run_python`, with the
-- error that it raises; `loads` tells whether a load raised nothing.
pub record UtestWorld (D : Type 0) : Type 0 where
  pub engine_name : Name
  pub nodes : Nodes
  pub mode : UtestMode
  pub cache : Option Fingerprints
  pub reuse_meta : Bool
  pub pandas : Pandas
  pub reset : Name → D → D
  pub load_rows : Name → List RowSpec → D → D × Bool
  pub run : Node → D → D × Option Name
  pub read_relation : Name → D → Result Name Frame
  pub relation_exists : D → Name → Bool
  pub delete_meta : Name → D → D
  pub csv_path : UnitSpec → Name → Name
  pub read_csv : Name → Option (List RowSpec)
  pub digest_file : Name → Option Name
  pub hash_inputs : List (Name × InputItem) → Name
  pub env_ctx : Name
  pub rendered_sql : D → Node → Option Name
  pub func_src : Node → Option Name
  pub hash_hex : Payload → Name

pub record UtestState (D : Type 0) : Type 0 where
  pub db : D
  pub computed_fps : Fingerprints
  pub failures : ℕ
  pub results : List CaseResult
