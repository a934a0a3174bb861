-- ===== src/Cache/Skip.antt =====
-- When a node may be skipped, and which nodes count as modified.
use fast_flow_transform.Prelude.{
  ◌≡◌, ap, ◌↔◌, ◌⊎◌, inl, inr, Bool, true, Option, none, some, arith, Bool-cases,
}
use fast_flow_transform.Prelude.Names.{Name, same, same_iff, same_lem, same_refl}
use fast_flow_transform.Registry.{relation_for}
use fast_flow_transform.Cache.{Fingerprints, get, is_fp, can_skip_node}

is_fp_iff : (fp : Name) (o : Option Name) → (is_fp fp o ≡ true) ↔ (o ≡ some fp)
unfolding is_fp
is_fp_iff fp none = (λ h. absurd (ground arith), λ h. absurd (ground arith))
is_fp_iff fp (some old) =
    (λ h. ap (λ t. some t) (same_lem old fp h), λ h. ground (arith, same_refl old, same_iff old fp))

-- A node may be skipped exactly when its fingerprint is the saved one, and it is ephemeral or its relation
-- exists.
pub can_skip_node_iff :
    (exists : Name → Bool) (cache : Fingerprints) (node_name new_fp materialized : Name)
    → (can_skip_node exists cache node_name new_fp materialized ≡ true) ↔ (
        (get cache node_name ≡ some new_fp)
        × ((materialized ≡ "ephemeral") ⊎ (exists (relation_for node_name) ≡ true)))
unfolding can_skip_node
can_skip_node_iff exists cache node_name new_fp materialized =
    let saved = is_fp_iff new_fp (get cache node_name) in
    (
      λ h. (
        saved.0 (ground arith),
        elim (Bool-cases (same materialized "ephemeral")) [
          | inl e ↦ inl (same_lem materialized "ephemeral" e)
          | inr e ↦ inr (ground arith)
        ],
      ),
      λ h. ground (arith, saved.1 h.0, h.1, same_iff materialized "ephemeral"),
    )
