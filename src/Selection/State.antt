-- ===== src/Selection/State.antt =====
-- cli/selectors.py: `state:modified` tokens.
pub mod Modified
use fast_flow_transform.Prelude.{
  ℕ, zero, suc, ◌+◌, ◌-◌, ◌*◌, ◌/◌, ◌%◌, ◌^◌, ◌≤◌, ◌<◌, min, max, String, ◌≡◌, refl, sym, ap, ◌∙◌,
  ◌≢◌, ◌↔◌, ◌⊎◌, inl, inr, Bool, true, false, not, ◌&&◌, ◌||◌, Option, none, some, List, [], ◌∷◌,
  ◌++◌, map, foldl, arith, ltb, leb, ◌==◌, if◌then◌else◌, Bool-cases, ltb→lt, lt→ltb, length,
  length-append, is_empty, filter, concat, Option-cases, List-cases, all, any, All,
}
use fast_flow_transform.Prelude.Names.{
  Name, same, same_iff, same_lem, same_refl, member, add, set_of, IsNodup, member-add, add-IsNodup,
  member-set_of, set_of-IsNodup, member-append, member-filter, filter-IsNodup, IsSubset,
  length-subset, update, update-same, update-other,
}
use fast_flow_transform.Registry.{Node, Nodes}
use fast_flow_transform.Selection.{downstream_closure}

-- `text.startswith(prefix)`
unfoldable pub starts_with : Name → Name → Bool
starts_with String.[] text = true
starts_with (String.◌∷◌ c prefix) String.[] = false
starts_with (String.◌∷◌ c prefix) (String.◌∷◌ d text) =
    let rest = starts_with prefix text in
    same (String.◌∷◌ c String.[]) (String.◌∷◌ d String.[]) && rest

abbrev pub is_state : Name → Bool
is_state t = starts_with "state:modified" t

abbrev pub is_state_plus : Name → Bool
is_state_plus t = starts_with "state:modified+" t

-- The set `state_set`.
unfoldable pub state_set : Nodes → List Name → List Name → List Name
unfolding downstream_closure starts_with
state_set ns tokens modified =
    if any is_state_plus tokens then downstream_closure ns modified else modified

-- `augment_with_state_modified`: the predicate that it returns, at a node.
unfoldable pub augment_with_state_modified :
    Nodes → List Name → (Node → Bool) → List Name → Node → Bool
unfolding state_set starts_with
augment_with_state_modified ns tokens base_pred modified n =
    if not (any is_state tokens)
    then base_pred n
    else if is_empty (filter (λ t. not (is_state t)) tokens)
    then member n.name (state_set ns tokens modified)
    else member n.name (state_set ns tokens modified) && base_pred n
