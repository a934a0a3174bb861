-- ===== src/Selection/State/Modified.antt =====
-- What the downstream closure and the `state:modified` tokens select.
use fast_flow_transform.Prelude.{
  ◌≡◌, ◌↔◌, ◌⊎◌, inl, inr, Bool, true, not, List, [], ◌∷◌, ◌++◌, map, arith, Bool-cases, length,
  is_empty, filter, any,
}
use fast_flow_transform.Prelude.Names.{Name, same, member, IsNodup, member-append, IsSubset}
use fast_flow_transform.Registry.{Node, Nodes, names}
use fast_flow_transform.Walk.{Reach, at_start}
use fast_flow_transform.Walk.Reached.{walk-reached}
use fast_flow_transform.Selection.{dependents, dependents_of_node, downstream_closure}
use fast_flow_transform.Selection.State.{
  is_state, is_state_plus, state_set, augment_with_state_modified,
}

map-name :
    (n : Node) (ds : List Name) (x : Name)
    → member x (map (λ _. n.name) ds) ≡ true
    → same x n.name ≡ true
map-name n [] x m = absurd (ground arith)
map-name n (d ∷ ds) x m = ground (arith, map-name n ds x)

dependents-names : (ns : Nodes) (u : Name) → IsSubset (dependents ns u) (names ns)
unfolding dependents dependents_of_node
dependents-names [] u x m = m
dependents-names (n ∷ ns) u x m =
    let one = filter (λ d. same d u) n.deps in
    ground (
      arith,
      member-append x (map (λ _. n.name) one) (dependents ns u),
      map-name n one x,
      dependents-names ns u x,
    )

-- The downstream closure of distinct names holds exactly the names that are reached from them along
-- dependents.
downstream_closure_iff :
    (ns : Nodes) (start : List Name) (x : Name)
    → IsNodup start
    → (member x (downstream_closure ns start) ≡ true) ↔ Reach (dependents ns) start x
unfolding downstream_closure
downstream_closure_iff ns start x distinct =
    (walk-reached (dependents ns) start (start ++ names ns) (length (start ++ names ns)) distinct
        (λ a m. ground (arith, member-append a start (names ns)))
        (λ u a m. ground (arith, member-append a start (names ns), dependents-names ns u a m))
        (omega arith)).2
      x

state_set_iff :
    (ns : Nodes) (tokens modified : List Name) (x : Name)
    → IsNodup modified
    → (member x (state_set ns tokens modified) ≡ true) ↔ (
        (member x modified ≡ true)
        ⊎ ((any is_state_plus tokens ≡ true) × Reach (dependents ns) modified x))
unfolding state_set
state_set_iff ns tokens modified x distinct =
    let (there, back) = downstream_closure_iff ns modified x distinct in
    elim (Bool-cases (any is_state_plus tokens)) [
      | inl plus ↦ (
        λ h. inr (plus, there (ground arith)),
        λ h. let m = back (elim h [ inl m ↦ at_start m | inr (_, r) ↦ r ]) in ground arith,
      )
      | inr plain ↦ (
        λ h. inl (ground arith),
        λ h. elim h [ inl m ↦ ground arith | inr (plus, _) ↦ absurd (ground arith) ],
      )
    ]

-- With a token that starts with `state:modified`, whatever follows it, a node is selected exactly when it was modified, or it is reached from a
-- modified one and a token starts with `state:modified+`; and the other selectors hold of it, if there are
-- any.
pub augment_with_state_modified_iff :
    (ns : Nodes) (tokens : List Name) (base_pred : Node → Bool) (modified : List Name) (n : Node)
    → IsNodup modified
    → any is_state tokens ≡ true
    → (augment_with_state_modified ns tokens base_pred modified n ≡ true) ↔ (
        ((member n.name modified ≡ true)
          ⊎ ((any is_state_plus tokens ≡ true) × Reach (dependents ns) modified n.name))
        × ((is_empty (filter (λ t. not (is_state t)) tokens) ≡ true) ⊎ (base_pred n ≡ true)))
unfolding augment_with_state_modified
augment_with_state_modified_iff ns tokens base_pred modified n distinct some_state =
    let (there, back) = state_set_iff ns tokens modified n.name distinct in
    elim (Bool-cases (is_empty (filter (λ t. not (is_state t)) tokens))) [
      | inl alone ↦ (λ h. (there (ground arith), inl alone), λ h. let m = back h.0 in ground arith)
      | inr others ↦ (
        λ h. (there (ground arith), inr (ground arith)),
        λ h. let m = back h.0 in let b = h.1 in ground arith,
      )
    ]
