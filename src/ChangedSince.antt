-- ===== src/ChangedSince.antt =====
-- ci/changed_since.py: the models that a change affects.
pub mod Affected
mod Samples
use fast_flow_transform.Prelude.{
  ℕ, zero, suc, ◌+◌, ◌-◌, ◌*◌, ◌/◌, ◌%◌, ◌^◌, ◌≤◌, ◌<◌, min, max, String, ◌≡◌, refl, sym, ap, ◌∙◌,
  ◌≢◌, ◌↔◌, ◌⊎◌, inl, inr, Bool, true, false, not, ◌&&◌, ◌||◌, Option, none, some, List, [], ◌∷◌,
  ◌++◌, map, foldl, arith, ltb, leb, ◌==◌, if◌then◌else◌, Bool-cases, ltb→lt, lt→ltb, length,
  length-append, is_empty, filter, concat, Option-cases, List-cases, all, any, All,
}
use fast_flow_transform.Prelude.Names.{
  Name, same, same_iff, same_lem, same_refl, member, add, set_of, IsNodup, member-add, add-IsNodup,
  member-set_of, set_of-IsNodup, member-append, member-filter, filter-IsNodup, IsSubset,
  length-subset, update, update-same, update-other,
}
use fast_flow_transform.Registry.{Node, Nodes, names, find}
use fast_flow_transform.Walk.{Walk, walk}

-- `{d for d in (node.deps or []) if d in nodes}`
pub known_deps : Nodes → Node → List Name
known_deps ns n = set_of (filter (λ d. member d (names ns)) n.deps)

-- The dict `upstream` at a key.
unfoldable pub upstream : Nodes → Name → List Name
unfolding known_deps find set_of
upstream ns k = elim (find k ns) [ none ↦ [] | some n ↦ known_deps ns n ]

-- The dict `downstream` at a key.
unfoldable pub downstream : Nodes → Name → List Name
unfolding known_deps
downstream ns k = map (λ n. n.name) (filter (λ n. member k (known_deps ns n)) ns)

-- The set `affected` after the first loop.
unfoldable pub ancestors : Nodes → List Name → List Name
unfolding upstream walk
ancestors ns changed =
    (walk (upstream ns) (length (changed ++ names ns))
      (record { seen = changed; stack = changed })).seen

-- `compute_affected_models`. The second loop goes on with the set of the first; for no changes the code
-- returns the empty set at once, which is what the loops give.
unfoldable pub compute_affected_models : List Name → Nodes → List Name
unfolding ancestors downstream walk
compute_affected_models changed ns =
    (walk (downstream ns) (length (changed ++ names ns))
      (record { seen = ancestors ns changed; stack = changed })).seen
