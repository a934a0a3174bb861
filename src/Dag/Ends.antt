-- ===== src/Dag/Ends.antt =====
-- How a search ends: with no ready name left, either every node is finished, or the nodes that are left
-- wait for one another.
use fast_flow_transform.Prelude.{
  ℕ, zero, suc, ◌<◌, ◌≡◌, refl, sym, ap, ◌∙◌, ◌≢◌, inl, inr, Bool, true, false, not, ◌&&◌, List, [],
  ◌∷◌, arith, Bool-cases, length, concat, any,
}
use fast_flow_transform.Prelude.Names.{
  Name, same, same_lem, same_refl, member, IsNodup, member-filter, length-subset,
}
use fast_flow_transform.Prelude.Sorting.{sorted, member-sorted}
use fast_flow_transform.Registry.{Nodes, names}
use fast_flow_transform.Dag.{with_degree, positive, missing_map}
use fast_flow_transform.Dag.Edges.{deps_of, deps_of-here, deps_of-there, deps_of-nonempty}
use fast_flow_transform.Dag.Degrees.{open_deps-some}
use fast_flow_transform.Dag.Round.{done_in}
use fast_flow_transform.Dag.Invariant.{Inv, length-done-le}

-- Every dependency is a node.
abbrev pub IsComplete : Nodes → Type 0
IsComplete ns = (k d : Name) → member d (deps_of ns k) ≡ true → member d (names ns) ≡ true

-- Nodes of which each waits for one of them, itself perhaps.
pub record IsBlocked (ns : Nodes) (bad : List Name) : Type 0 where
  pub some_node : bad ≢ []
  pub are_nodes : (k : Name) → member k bad ≡ true → member k (names ns) ≡ true
  pub waits :
      (k : Name)
      → member k bad ≡ true
      → (d : Name) × (member d (deps_of ns k) ≡ true) × (member d bad ≡ true)

all-member :
    (d : Name) (test : Name → Bool) (ds : List Name)
    → any test ds ≡ false
    → member d ds ≡ true
    → test d ≡ false
all-member d test [] h m = cc
all-member d test (x ∷ ds) h m = elim (Bool-cases (same d x)) [
  | inl e ↦ rw (same_lem d x e) (ground arith)
  | inr e ↦ ground (arith, all-member d test ds)
]

missing_map_complete :
    (known : List Name) (ns : Nodes) (k d : Name)
    → missing_map known ns ≡ []
    → member d (deps_of ns k) ≡ true
    → member d known ≡ true
unfolding missing_map deps_of
missing_map_complete known [] k d e m = absurd (ground arith)
missing_map_complete known (n ∷ ns) k d e m =
    ground
      (arith, missing_map_complete known ns k d, all-member d (λ x. not (member x known)) n.deps)

pub missing_map-IsComplete : (ns : Nodes) → missing_map (names ns) ns ≡ [] → IsComplete ns
missing_map-IsComplete ns e k d m = missing_map_complete (names ns) ns k d e m

any-member :
    (test : Name → Bool) (ds : List Name)
    → any test ds ≡ true
    → (d : Name) × (member d ds ≡ true) × (test d ≡ true)
any-member test [] h = absurd (ground arith)
any-member test (x ∷ ds) h = elim (Bool-cases (test x)) [
  | inl e ↦ (x, ground (arith, same_refl x), e)
  | inr e ↦ let (d, m, t) = any-member test ds (ground arith) in (d, ground arith, t)
]

complete_missing_map :
    (known : List Name) (ns : Nodes)
    → IsNodup (names ns)
    → ((k d : Name) → member d (deps_of ns k) ≡ true → member d known ≡ true)
    → missing_map known ns ≡ []
unfolding missing_map
complete_missing_map known [] n h = refl
complete_missing_map known (x ∷ ns) n h =
    elim (Bool-cases (any (λ d. not (member d known)) x.deps)) [
      | inl e ↦
          let (d, m, t) = any-member (λ d. not (member d known)) x.deps e in
          absurd (
            ground
              (arith, h x.name d (ap (member d) (deps_of-here x ns x.name (same_refl x.name)) ∙ m)))
      | inr e ↦ rw e (complete_missing_map known ns n.1 (λ k d m. h k d (there k d m)))
    ]
  where
    there : (k d : Name) → member d (deps_of ns k) ≡ true → member d (deps_of (x ∷ ns) k) ≡ true
    there k d m = elim (Bool-cases (same x.name k)) [
      | inl e ↦ absurd (
          ground (
            arith,
            n.0,
            deps_of-nonempty ns k d m,
            ap (λ j. member j (names ns)) (same_lem x.name k e),
          ))
      | inr e ↦ ap (member d) (deps_of-there x ns k e) ∙ m
    ]

pub IsComplete-missing_map :
    (ns : Nodes) → IsNodup (names ns) → IsComplete ns → missing_map (names ns) ns ≡ []
IsComplete-missing_map ns n c = complete_missing_map (names ns) ns n c

pub length-names : (ns : Nodes) → length (names ns) ≡ length ns
length-names [] = refl
length-names (n ∷ ns) = ap suc (length-names ns)

none-member : (xs : List Name) → xs ≡ [] → (a : Name) → member a xs ≡ false
none-member xs e a = rw e

-- A ranking of the nodes along their dependencies: the graph has no cycle.
abbrev pub IsRanking : Nodes → (Name → ℕ) → Type 0
IsRanking ns rank = (k d : Name) → member d (deps_of ns k) ≡ true → rank d < rank k

none_below :
    (ns : Nodes) (rank : Name → ℕ) (bad : List Name)
    → IsRanking ns rank
    → IsBlocked ns bad
    → (n : ℕ) (k : Name) → rank k < n
    → member k bad ≡ false
none_below ns rank bad r b zero k h = absurd (omega arith)
none_below ns rank bad r b (suc n) k h = elim (Bool-cases (member k bad)) [
  | inl m ↦
      let (d, dep, also) = b.waits k m in
      absurd (ground (arith, r k d dep, none_below ns rank bad r b n d))
  | inr m ↦ m
]

-- A graph with a ranking has no nodes that wait for one another.
pub not-IsBlocked :
    (ns : Nodes) (rank : Name → ℕ) (bad : List Name) → IsRanking ns rank → ¬ IsBlocked ns bad
not-IsBlocked ns rank [] r b = b.some_node refl
not-IsBlocked ns rank (x ∷ bad) r b =
    let h = none_below ns rank (x ∷ bad) r b (suc (rank x)) x (omega arith) in
    ground (arith, same_refl x)

module _ (ns : Nodes) (lvls : List (List Name)) (indeg : Name → ℕ) (i : Inv ns lvls indeg []) where
  pub done-names :
      length (concat lvls) ≡ length (names ns)
      → (k : Name) → member k (concat lvls) ≡ member k (names ns)
  done-names full k = elim (Bool-cases (member k (concat lvls))) [
    | inl m ↦ ground (arith, i.ready_iff k)
    | inr m ↦ elim (Bool-cases (member k (names ns))) [
      | inl n ↦
          let longer =
            length-subset (k ∷ concat lvls) (names ns) (m, i.done_distinct) (λ a q. within a q n) in
          absurd (omega arith)
      | inr n ↦ m ∙ sym n
    ]
  ]
    where
      within :
          (a : Name)
          → member a (k ∷ concat lvls) ≡ true
          → member k (names ns) ≡ true
          → member a (names ns) ≡ true
      within a q n = elim (Bool-cases (same a k)) [
        | inl e ↦ rw (same_lem a k e) n
        | inr e ↦ ground (arith, i.ready_iff a)
      ]

  left : List Name
  left = sorted (with_degree positive indeg ns)

  member-left : (k : Name) → member k left ≡ (member k (names ns) && positive (indeg k))
  unfolding left
  member-left k =
      member-sorted k (with_degree positive indeg ns)
      ∙ member-filter (λ j. positive (indeg j)) k (names ns)

  pub left-IsBlocked :
      IsComplete ns
      → IsNodup (names ns)
      → length (concat lvls) ≢ length (names ns)
      → IsBlocked ns (sorted (with_degree positive indeg ns))
  unfolding left
  left-IsBlocked complete distinct more = record {
    some_node = λ e. more (
        omega (
          arith,
          length-done-le ns lvls indeg [] i,
          length-subset (names ns) (concat lvls) distinct (λ a m.
              ground (arith, none-member left e a, member-left a, i.counts a, i.ready_iff a)),
        ));
    are_nodes = λ k m. ground (arith, member-left k);
    waits = λ k m.
        let (d, dep, open_dep) =
          open_deps-some ns (done_in lvls) k (ground (arith, member-left k, i.counts k)) in
        (d, dep, ground (arith, member-left d, i.counts d, i.ready_iff d, complete k d dep));
  }
