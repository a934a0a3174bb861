-- ===== src/RunEngine/Stats.antt =====
-- executors/base.py: the statistics of the queries of one node.
use fast_flow_transform.Prelude.{ℕ, ◌+◌, Bool, false, Option, none, some, List, [], ◌∷◌, foldl}

pub record QueryStats : Type 0 where
  pub bytes_processed : Option ℕ
  pub rows : Option ℕ
  pub duration_ms : Option ℕ

-- The dict of totals. `cached` is the entry that a skipped node has.
pub record NodeStats : Type 0 where
  pub bytes_scanned : ℕ
  pub rows : ℕ
  pub query_duration_ms : ℕ
  pub cached : Bool

unfoldable pub zero_stats : NodeStats
zero_stats = record { bytes_scanned = 0; rows = 0; query_duration_ms = 0; cached = false }

abbrev pub or_zero : Option ℕ → ℕ
or_zero none = 0
or_zero (some n) = n

-- One step of the loop over the buffer.
unfoldable pub add_query : NodeStats → QueryStats → NodeStats
add_query t q = record t {
  bytes_scanned = t.bytes_scanned + or_zero q.bytes_processed;
  rows = t.rows + or_zero q.rows;
  query_duration_ms = t.query_duration_ms + or_zero q.duration_ms;
}

-- `get_node_stats`, which also empties the buffer: `none` is the empty dict.
unfoldable pub get_node_stats : List QueryStats → Option NodeStats
unfolding add_query zero_stats
get_node_stats [] = none
get_node_stats (q ∷ qs) = some (foldl add_query zero_stats (q ∷ qs))
