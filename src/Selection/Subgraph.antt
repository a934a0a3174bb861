-- ===== src/Selection/Subgraph.antt =====
-- What `_selected_subgraph_names` selects.
use fast_flow_transform.Prelude.{
  ◌≡◌, ap, ◌↔◌, inl, inr, Bool, true, not, Option, none, some, List, [], ◌∷◌, arith, Bool-cases,
  length, filter,
}
use fast_flow_transform.Prelude.Names.{
  Name, same, same_iff, member, IsNodup, member-set_of, member-filter, IsSubset,
}
use fast_flow_transform.Registry.{Node, Nodes, names}
use fast_flow_transform.Walk.{Reach, at_start, along}
use fast_flow_transform.Walk.Reached.{walk-reached}
use fast_flow_transform.Selection.{
  deps_map, rev_map, removed_names, matching, seeds_of, selected_subgraph_names,
}
use fast_flow_transform.Selection.Upstream.{needs, climb_end}

matching-names :
    (test : Node → Bool) (ns : Nodes) (k : Name)
    → member k (matching test ns) ≡ true
    → member k (names ns) ≡ true
unfolding matching
matching-names test [] k m = m
matching-names test (n ∷ ns) k m = ground (arith, matching-names test ns k)

matching-IsNodup :
    (test : Node → Bool) (ns : Nodes) → IsNodup (names ns) → IsNodup (matching test ns)
unfolding matching
matching-IsNodup test [] h = tt
matching-IsNodup test (n ∷ ns) h =
    ground (arith, matching-IsNodup test ns h.1, matching-names test ns n.name)

rev_map-names : (ns : Nodes) (u : Name) → IsSubset (rev_map ns u) (names ns)
unfolding rev_map matching
rev_map-names ns u k m = matching-names (λ n. member u n.deps) ns k m

rev_map-deps_map :
    (ns : Nodes) (x d : Name) → member d (deps_map ns x) ≡ true → member x (rev_map ns d) ≡ true
unfolding rev_map deps_map
rev_map-deps_map [] x d m = m
rev_map-deps_map (n ∷ ns) x d m = elim (Bool-cases (same n.name x)) [
  | inl e ↦ ground (arith, member-set_of d n.deps, same_iff n.name x, same_iff x n.name)
  | inr e ↦ ground (arith, rev_map-deps_map ns x d)
]

seeds_of-names :
    (ns : Nodes) (given : Option (List Name)) (select : Node → Bool)
    → IsSubset (seeds_of ns given select) (names ns)
unfolding seeds_of
seeds_of-names ns (some given) select k m =
    ground (arith, member-filter (λ j. member j (names ns)) k given)
seeds_of-names ns none select k m = matching-names select ns k m

module _ (ns : Nodes) (distinct : IsNodup (names ns)) (exclude : Node → Bool) where
  removed_iff :
      (x : Name)
      → (member x (removed_names ns (matching exclude ns)) ≡ true)
        ↔ Reach (rev_map ns) (matching exclude ns) x
  unfolding removed_names
  removed_iff =
      (walk-reached (rev_map ns) (matching exclude ns) (names ns) (length (names ns))
        (matching-IsNodup exclude ns distinct) (matching-names exclude ns) (rev_map-names ns)
        (omega arith)).2

-- A selection: distinct nodes, with every node that a selected one depends on, without the excluded
-- nodes and what depends on them, with every other seed, and with nothing that no seed needs.
pub record IsSelection (ns : Nodes) (excluded seeds result : List Name) : Type 0 where
  pub distinct : IsNodup result
  pub are_nodes : IsSubset result (names ns)
  pub closed :
      (x d : Name)
      → member x result ≡ true
      → member d (deps_map ns x) ≡ true
      → member d (names ns) ≡ true
      → member d result ≡ true
  pub not_excluded : (x : Name) → member x result ≡ true → ¬ Reach (rev_map ns) excluded x
  pub keeps_seeds :
      (x : Name) → member x seeds ≡ true → ¬ Reach (rev_map ns) excluded x → member x result ≡ true
  pub needed : (x : Name) → member x result ≡ true → Reach (deps_map ns) seeds x

weaken :
    (ns : Nodes) (remaining : List Name) {seeds more : List Name} {x : Name}
    → IsSubset seeds more
    → Reach (needs ns remaining seeds) seeds x
    → Reach (deps_map ns) more x
weaken ns remaining f (at_start m) = at_start (f _ m)
weaken ns remaining f (along {u = u} {v = v} r m) =
    along (weaken ns remaining f r)
      (ground (arith, member-filter (λ d. member d remaining) v (deps_map ns u)))

module _ (ns : Nodes) (distinct : IsNodup (names ns)) (select exclude : Node → Bool)
    (given : Option (List Name)) where
  -- Whatever the selectors are, the selection holds distinct nodes, with every node that one of them
  -- depends on. It holds no excluded node and none that depends on one, every seed but those, and
  -- only what a seed is or needs.
  -- The names of the nodes are distinct.
  pub selected_subgraph_names-IsSelection :
      IsSelection ns
        (matching exclude ns)
        (seeds_of ns given select)
        (selected_subgraph_names ns select exclude given)
  unfolding selected_subgraph_names
  selected_subgraph_names-IsSelection =
      let removed : List Name = removed_names ns (matching exclude ns) in
      let keep : Name → Bool = (λ k. not (member k removed)) in
      let remaining : List Name = filter keep (names ns) in
      let seeds : List Name = filter keep (seeds_of ns given select) in
      let in_seeds = (λ (k : Name). member-filter keep k (seeds_of ns given select)) in
      let in_rest = (λ (k : Name). member-filter keep k (names ns)) in
      let removed_iff' = removed_iff ns distinct exclude in
      let (i, done) =
        climb_end ns remaining seeds
          (λ k m. ground (arith, in_seeds k, in_rest k, seeds_of-names ns given select k)) in
      record {
        distinct = i.distinct;
        are_nodes = λ x m. ground (arith, i.kept x m, in_rest x);
        closed = λ x d m e n. elim (Bool-cases (member d removed)) [
          | inl out ↦ absurd (
              ground (
                arith,
                in_rest x,
                i.kept x m,
                (removed_iff' x).1 (along ((removed_iff' d).0 out) (rev_map-deps_map ns x d e)),
              ))
          | inr stays ↦ ground (
            arith,
            i.closed x d m,
            in_rest d,
            member-filter (λ j. member j remaining) d (deps_map ns x),
            ap (member d) done,
          )
        ];
        not_excluded =
            λ x m r. absurd (ground (arith, i.kept x m, in_rest x, (removed_iff' x).1 r));
        keeps_seeds = λ x m f. elim (Bool-cases (member x removed)) [
          | inl out ↦ absurd (f ((removed_iff' x).0 out))
          | inr stays ↦ ground (arith, i.starts x, in_seeds x, ap (member x) done)
        ];
        needed = λ x m. weaken ns remaining (λ k n. ground (arith, in_seeds k)) (i.wanted x m);
      }
