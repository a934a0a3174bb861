-- ===== src/ChangedSince/Samples.antt =====
-- Small changes.
use fast_flow_transform.Prelude.{◌≡◌, refl, ap, ◌↔◌, ◌⊎◌, true, false, [], ◌∷◌, arith}
use fast_flow_transform.Prelude.Names.{Name, same_lem, member}
use fast_flow_transform.Registry.{Nodes}
use fast_flow_transform.Dag.Samples.{model, shop}
use fast_flow_transform.Walk.{Reach, at_start, along}
use fast_flow_transform.ChangedSince.{upstream, downstream, ancestors, compute_affected_models}
use fast_flow_transform.ChangedSince.Affected.{avoiding, compute_affected_models_iff}

abbrev chain : Nodes
chain =
    model "c" []
    ∷ model "x" ("c" ∷ [])
    ∷ model "y" ("x" ∷ [])
    ∷ model "z" ("c" ∷ [])
    ∷ model "w" ("x" ∷ [])
    ∷ []

-- "c" and "y" changed: "x" stands between them, so that the descendant "w" of "c" is not found.
affected-chain : member "w" (compute_affected_models ("c" ∷ "y" ∷ []) chain) ≡ false
unfolding compute_affected_models
affected-chain = refl

affected-one : compute_affected_models ("x" ∷ []) chain ≡ "w" ∷ "y" ∷ "c" ∷ "x" ∷ []
unfolding compute_affected_models
affected-one = refl

compute_affected_models_iff_example :
    (member "w" (compute_affected_models ("c" ∷ "y" ∷ []) chain) ≡ true) ↔ (
      Reach (upstream chain) ("c" ∷ "y" ∷ []) "w"
      ⊎ Reach (avoiding (ancestors chain ("c" ∷ "y" ∷ [])) (downstream chain)) ("c" ∷ "y" ∷ []) "w")
compute_affected_models_iff_example =
    compute_affected_models_iff chain ("c" ∷ "y" ∷ []) (ground arith) "w"

Reach-alone : (y : Name) → Reach (upstream shop) ("audit" ∷ []) y → member y ("audit" ∷ []) ≡ true
unfolding upstream
Reach-alone y (at_start m) = m
Reach-alone y (along {u = u} p m) =
    let q : u ≡ "audit" = ground (arith, Reach-alone u p, same_lem u "audit") in
    absurd (ground (arith, ap (λ k. member y (upstream shop k)) q))
