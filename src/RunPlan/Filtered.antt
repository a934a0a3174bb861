-- ===== src/RunPlan/Filtered.antt =====
-- The nodes of a wanted set, as a registry of their own.
use fast_flow_transform.Prelude.{
  ℕ, ◌≡◌, refl, ap, inl, inr, true, ◌&&◌, List, [], ◌∷◌, arith, if◌then◌else◌, Bool-cases,
}
use fast_flow_transform.Prelude.Names.{Name, same, same_lem, member, IsNodup}
use fast_flow_transform.Registry.{Nodes, names}
use fast_flow_transform.Dag.Edges.{deps_of}
use fast_flow_transform.Dag.Ends.{IsComplete, IsRanking}
use fast_flow_transform.RunPlan.{sub_nodes}

pub member-sub_nodes :
    (ns : Nodes) (wanted : List Name) (k : Name)
    → member k (names (sub_nodes ns wanted)) ≡ (member k (names ns) && member k wanted)
unfolding sub_nodes
member-sub_nodes [] wanted k = refl
member-sub_nodes (n ∷ ns) wanted k = elim (Bool-cases (same k n.name)) [
  | inl e ↦
      ground (arith, member-sub_nodes ns wanted k, ap (λ x. member x wanted) (same_lem k n.name e))
  | inr e ↦ ground (arith, member-sub_nodes ns wanted k)
]

pub sub_nodes-IsNodup :
    (ns : Nodes) (wanted : List Name) → IsNodup (names ns) → IsNodup (names (sub_nodes ns wanted))
unfolding sub_nodes
sub_nodes-IsNodup [] wanted h = tt
sub_nodes-IsNodup (n ∷ ns) wanted h =
    ground (arith, sub_nodes-IsNodup ns wanted h.1, member-sub_nodes ns wanted n.name)

pub deps_of-sub_nodes :
    (ns : Nodes) (wanted : List Name) (k : Name)
    → deps_of (sub_nodes ns wanted) k ≡ (if member k wanted then deps_of ns k else [])
unfolding sub_nodes deps_of
deps_of-sub_nodes [] wanted k = ground arith
deps_of-sub_nodes (n ∷ ns) wanted k = elim (Bool-cases (same n.name k)) [
  | inl e ↦
      ground (arith, deps_of-sub_nodes ns wanted k, ap (λ x. member x wanted) (same_lem n.name k e))
  | inr e ↦ ground (arith, deps_of-sub_nodes ns wanted k)
]

module _ (ns : Nodes) (wanted : List Name) where
  pub sub_nodes-IsComplete :
      IsComplete ns
      → ((k d : Name)
          → member k wanted ≡ true
          → member d (deps_of ns k) ≡ true
          → member d wanted ≡ true)
      → IsComplete (sub_nodes ns wanted)
  sub_nodes-IsComplete complete closed k d m =
      let given = deps_of-sub_nodes ns wanted k in
      elim (Bool-cases (member k wanted)) [
        | inl w ↦
            let e : deps_of (sub_nodes ns wanted) k ≡ deps_of ns k = ground arith in
            let m' = rw e at m in
            ground (arith, member-sub_nodes ns wanted d, closed k d w m', complete k d m')
        | inr w ↦
            let e : deps_of (sub_nodes ns wanted) k ≡ [] = ground arith in
            absurd (ground (arith, ap (member d) e))
      ]

  pub sub_nodes-IsRanking :
      (rank : Name → ℕ) → IsRanking ns rank → IsRanking (sub_nodes ns wanted) rank
  sub_nodes-IsRanking rank ranking k d m =
      let given = deps_of-sub_nodes ns wanted k in
      elim (Bool-cases (member k wanted)) [
        | inl w ↦
            let e : deps_of (sub_nodes ns wanted) k ≡ deps_of ns k = ground arith in
            ranking k d (rw e at m)
        | inr w ↦
            let e : deps_of (sub_nodes ns wanted) k ≡ [] = ground arith in
            absurd (ground (arith, ap (member d) e))
      ]
