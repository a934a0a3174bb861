-- ===== src/Http/Stats.antt =====
-- api/context.py: what is recorded of the requests of a node.
use fast_flow_transform.Prelude.{
  ℕ, ◌+◌, Bool, false, ◌||◌, Option, none, some, List, [], ◌∷◌, if◌then◌else◌,
}
use fast_flow_transform.Prelude.Names.{Name, same}

pub record HttpStats : Type 0 where
  pub node : Option Name
  pub requests : ℕ
  pub cache_hits : ℕ
  pub bytes : ℕ
  pub hashes : List Name
  pub keys : List Name
  pub used_offline : Bool

-- A new context, which is also the empty snapshot.
abbrev pub no_stats : HttpStats
no_stats = record {
  node = none;
  requests = 0;
  cache_hits = 0;
  bytes = 0;
  hashes = [];
  keys = [];
  used_offline = false;
}

-- `_HttpStats.reset_for_node`
pub reset_for_node : Name → HttpStats → HttpStats
reset_for_node name stats = record no_stats { node = some name }

-- `if x and (not xs or xs[-1] != x): xs.append(x)`
unfoldable pub append_new : Name → List Name → List Name
append_new x [] = if same x "" then [] else x ∷ []
append_new x (y ∷ []) = if same x "" || same y x then y ∷ [] else y ∷ x ∷ []
append_new x (y ∷ z ∷ zs) = y ∷ append_new x (z ∷ zs)

-- `record`
unfoldable pub record_io : Name → Name → Bool → ℕ → Bool → HttpStats → HttpStats
unfolding append_new
record_io io_key content_hash cache_hit byte_len offline s = record s {
  requests = s.requests + 1;
  cache_hits = if cache_hit then s.cache_hits + 1 else s.cache_hits;
  bytes = s.bytes + byte_len;
  keys = append_new io_key s.keys;
  hashes = append_new content_hash s.hashes;
  used_offline = s.used_offline || offline;
}
