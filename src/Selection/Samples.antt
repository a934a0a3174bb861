-- ===== src/Selection/Samples.antt =====
-- A selection in a small project.
use fast_flow_transform.Prelude.{
  ◌≡◌, refl, ◌↔◌, ◌⊎◌, Bool, true, false, not, none, List, [], ◌∷◌, arith, is_empty, filter, any,
}
use fast_flow_transform.Prelude.Names.{Name, same, member}
use fast_flow_transform.Registry.{Node, Nodes}
use fast_flow_transform.Dag.Samples.{model}
use fast_flow_transform.Selection.{matching, seeds_of, selected_subgraph_names}
use fast_flow_transform.Walk.{Reach}
use fast_flow_transform.Selection.{dependents, downstream_closure}
use fast_flow_transform.Selection.State.{
  starts_with, is_state, is_state_plus, augment_with_state_modified,
}
use fast_flow_transform.Selection.State.Modified.{augment_with_state_modified_iff}
use fast_flow_transform.Selection.Subgraph.{IsSelection, selected_subgraph_names-IsSelection}

abbrev project : Nodes
project =
    model "raw" []
    ∷ model "clean" ("raw" ∷ [])
    ∷ model "report" ("clean" ∷ [])
    ∷ model "other" ("raw" ∷ [])
    ∷ []

abbrev is_named : Name → Node → Bool
is_named k n = same n.name k

selected :
    selected_subgraph_names project (λ _. true) (is_named "clean") none ≡ "other" ∷ "raw" ∷ []
unfolding selected_subgraph_names
selected = refl

selected_upstream :
    selected_subgraph_names project (is_named "report") (λ _. false) none
    ≡ "raw" ∷ "clean" ∷ "report" ∷ []
unfolding selected_subgraph_names
selected_upstream = refl

selected_subgraph_names-IsSelection_example :
    IsSelection project
      (matching (is_named "clean") project)
      (seeds_of project none (λ _. true))
      (selected_subgraph_names project (λ _. true) (is_named "clean") none)
selected_subgraph_names-IsSelection_example =
    selected_subgraph_names-IsSelection project (ground arith) (λ _. true) (is_named "clean") none

closure : downstream_closure project ("clean" ∷ []) ≡ "report" ∷ "clean" ∷ []
unfolding downstream_closure
closure = refl

abbrev tokens : List Name
tokens = "state:modified+" ∷ "tag:daily" ∷ []

state_tokens : any is_state tokens ≡ true
unfolding starts_with
state_tokens = refl

augment_with_state_modified_iff_example :
    (augment_with_state_modified project tokens
        (λ _. true)
        ("clean" ∷ [])
        (model "report" ("clean" ∷ []))
      ≡ true)
    ↔ (((member "report" ("clean" ∷ []) ≡ true)
          ⊎ ((any is_state_plus tokens ≡ true)
              × Reach (dependents project) ("clean" ∷ []) "report"))
        × ((is_empty (filter (λ t. not (is_state t)) tokens) ≡ true) ⊎ (true ≡ true)))
augment_with_state_modified_iff_example =
    augment_with_state_modified_iff project tokens (λ _. true) ("clean" ∷ [])
      (model "report" ("clean" ∷ [])) (refl, tt) state_tokens
