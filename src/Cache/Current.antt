-- ===== src/Cache/Current.antt =====
-- The fingerprints that `compute_current` gives to a project.
use fast_flow_transform.Prelude.{
  ◌≡◌, refl, sym, ap, ◌∙◌, inl, inr, Bool, true, false, none, some, List, [], ◌∷◌, ◌++◌, map, foldl,
  arith, Bool-cases, Option-cases,
}
use fast_flow_transform.Prelude.Names.{
  Name, same, same_iff, same_lem, same_refl, member, IsNodup, member-append, IsSubset,
}
use mathlib.Core.Option
use mathlib.Core.List.{append_assoc, append-nil}
use fast_flow_transform.Registry.{Node, Nodes, names, find}
use fast_flow_transform.Dag.{DagResult, ordered, missing_deps, cycle, topo_sort}
use fast_flow_transform.Dag.Edges.{deps_of}
use fast_flow_transform.Dag.Topo.{IsTopological, topo_sort-IsTopoOrder}
use fast_flow_transform.Cache.{
  Sources, Fingerprints, get, set, get-set, blob, found_fps, fingerprint_step, compute_current,
}

has : Fingerprints → Name → Bool
unfolding get
has es k = elim (get es k) [ none ↦ false | some v ↦ true ]

-- The fingerprint of a name, or the empty text.
abbrev pub fp_of : Fingerprints → Name → Name
fp_of current d = Option.get_or (get current d) ""

-- Each node has a fingerprint, and nothing else has one. The fingerprint of a node is the hash of its
-- kind, its name, its text, the environment and the fingerprints of all of its dependencies.
pub record IsFingerprinted (sources : Sources) (hash : List Name → Name) (env : Name) (ns : Nodes)
    (current : Fingerprints) : Type 0 where
  pub only_nodes : (k : Name) → member k (names ns) ≡ false → get current k ≡ none
  pub chained :
      (k : Name) (n : Node)
      → find k ns ≡ some n
      → get current k ≡ some (hash (blob sources env n (map (fp_of current) n.deps)))

find-names :
    (k : Name) (ns : Nodes) → member k (names ns) ≡ true → (n : Node) × (find k ns ≡ some n)
unfolding find
find-names k [] h = absurd (ground arith)
find-names k (n ∷ ns) h = elim (Bool-cases (same n.name k)) [
  | inl e ↦ (n, ground arith)
  | inr e ↦
      let (m, q) = find-names k ns (ground (arith, same_iff n.name k, same_iff k n.name)) in
      (m, ground arith)
]

names-find : (k : Name) (ns : Nodes) (n : Node) → find k ns ≡ some n → member k (names ns) ≡ true
unfolding find
names-find k [] n h = absurd (ground arith)
names-find k (m ∷ ns) n h = ground (arith, names-find k ns n, same_iff m.name k, same_iff k m.name)

found_fps-all :
    (current : Fingerprints) (ds : List Name)
    → ((d : Name) → member d ds ≡ true → has current d ≡ true)
    → found_fps current ds ≡ map (fp_of current) ds
unfolding found_fps has
found_fps-all current [] h = refl
found_fps-all current (d ∷ ds) h =
    let rest = found_fps-all current ds (λ x m. h x (ground arith)) in
    let first = h d (ground (arith, same_refl d)) in
    elim (Option-cases (get current d)) [
      | inl e ↦ absurd (ground arith)
      | inr (v, e) ↦ rw (e, found_fps) (ap (λ t. v ∷ t) rest)
    ]

same-apart :
    (x k : Name) (xs : List Name) → member x xs ≡ false → member k xs ≡ true → same x k ≡ false
same-apart x k xs f t = elim (Bool-cases (same x k)) [
  | inl e ↦ absurd (ground (arith, ap (λ y. member y xs) (same_lem x k e)))
  | inr e ↦ e
]

map-fp_of :
    (current : Fingerprints) (x v : Name) (ds : List Name)
    → member x ds ≡ false
    → map (fp_of (set current x v)) ds ≡ map (fp_of current) ds
map-fp_of current x v [] h = refl
map-fp_of current x v (d ∷ ds) h =
    let rest = map-fp_of current x v ds (ground arith) in
    let other : same x d ≡ false = ground arith in rw (get-set current x v d, other, rest) refl

module _ (sources : Sources) (hash : List Name → Name) (env : Name) (ns : Nodes) where
  record Inv (before : List Name) (current : Fingerprints) : Type 0 where
    known : (k : Name) → has current k ≡ member k before
    placed :
        (k d : Name)
        → member k before ≡ true
        → member d (deps_of ns k) ≡ true
        → member d before ≡ true
    hashed :
        (k : Name) (n : Node)
        → member k before ≡ true
        → find k ns ≡ some n
        → get current k ≡ some (hash (blob sources env n (map (fp_of current) n.deps)))

  not_in_deps :
      (before : List Name) (x : Name) (current : Fingerprints) (k : Name) (n : Node)
      → Inv before current
      → member x before ≡ false
      → member k before ≡ true
      → find k ns ≡ some n
      → member x n.deps ≡ false
  unfolding deps_of
  not_in_deps before x current k n i new old q = elim (Bool-cases (member x n.deps)) [
    | inl d ↦ absurd (ground (arith, i.placed k x old (rw (q, deps_of) d)))
    | inr d ↦ d
  ]

  step-Inv :
      (before : List Name) (x : Name) (current : Fingerprints) (m : Node)
      → find x ns ≡ some m
      → member x before ≡ false
      → ((d : Name) → member d (deps_of ns x) ≡ true → member d before ≡ true)
      → Inv before current
      → Inv (before ++ x ∷ []) (fingerprint_step sources hash env ns current x)
  unfolding fingerprint_step has deps_of
  step-Inv before x current m e new deps i =
      let v = hash (blob sources env m (found_fps current m.deps)) in
      let before_all : (d : Name) → member d m.deps ≡ true → member d before ≡ true =
        (λ d q. deps d (rw (e, deps_of) q)) in
      let value : v ≡ hash (blob sources env m (map (fp_of current) m.deps)) =
        ap (λ t. hash (blob sources env m t))
          (found_fps-all current m.deps (λ d q. i.known d ∙ before_all d q)) in
      let after : fingerprint_step sources hash env ns current x ≡ set current x v =
        rw (e, fingerprint_step) refl in
      rw after (record {
        known = λ k. ground (
          arith,
          get-set current x v k,
          i.known k,
          member-append k before (x ∷ []),
          same_iff x k,
          same_iff k x,
        );
        placed = λ k d b q. elim (Bool-cases (member k before)) [
          | inl old ↦ ground (arith, i.placed k d old q, member-append d before (x ∷ []))
          | inr last ↦
              let same_name : k ≡ x =
                ground (arith, member-append k before (x ∷ []), same_lem k x) in
              ground (arith, deps d (rw (← same_name) q), member-append d before (x ∷ []))
        ];
        hashed = λ k n b q. elim (Bool-cases (member k before)) [
          | inl old ↦
              let other = same-apart x k before new old in
              let apart : member x n.deps ≡ false = not_in_deps before x current k n i new old q in
              rw (get-set current x v k, other, map-fp_of current x v n.deps apart)
                (i.hashed k n old q)
          | inr last ↦
              let same_name : k ≡ x =
                ground (arith, member-append k before (x ∷ []), same_lem k x) in
              let same_node : n ≡ m =
                ap (λ o. Option.get_or o m) (sym q ∙ ap (λ y. find y ns) same_name ∙ e) in
              let apart : member x m.deps ≡ false = elim (Bool-cases (member x m.deps)) [
                | inl d ↦ absurd (ground (arith, before_all x d))
                | inr d ↦ d
              ] in
              rw
                (
                  same_name,
                  same_node,
                  get-set current x v x,
                  same_refl x,
                  map-fp_of current x v m.deps apart,
                )
                (ap some value)
        ];
      })

  steps-Inv :
      (order before : List Name) (current : Fingerprints)
      → IsSubset order (names ns)
      → IsNodup order
      → ((k : Name) → member k order ≡ true → member k before ≡ false)
      → IsTopological ns before order
      → Inv before current
      → Inv (before ++ order) (foldl (fingerprint_step sources hash env ns) current order)
  steps-Inv [] before current f h a t i = rw append-nil i
  steps-Inv (x ∷ order) before current f h a t i =
      let new : member x before ≡ false = a x (ground (arith, same_refl x)) in
      let (m, e) = find-names x ns (f x (ground (arith, same_refl x))) in
      rw (← append_assoc before (x ∷ []) order) (
        steps-Inv order (before ++ x ∷ []) (fingerprint_step sources hash env ns current x)
          (λ k q. f k (ground arith)) h.1
          (λ k q. ground (
            arith,
            member-append k before (x ∷ []),
            a k,
            same-apart x k order h.0 q,
            same_iff x k,
            same_iff k x,
          ))
          t.1 (step-Inv before x current m e new t.0 i))

  -- When `compute_current` gives fingerprints, every node has one and nothing else has. The one of a
  -- node is the hash of its kind, its name, its text, the environment and the fingerprints of all of its
  -- dependencies.
  -- The names of the nodes are distinct.
  pub compute_current-IsFingerprinted :
      (current : Fingerprints)
      → IsNodup (names ns)
      → compute_current sources hash env ns ≡ ordered current
      → IsFingerprinted sources hash env ns current
  unfolding compute_current has get deps_of
  compute_current-IsFingerprinted current distinct h = by_order (topo_sort ns) refl
    where
      by_order :
          (r : DagResult (List Name))
          → topo_sort ns ≡ r
          → IsFingerprinted sources hash env ns current
      by_order (ordered order) q =
          let o = topo_sort-IsTopoOrder ns distinct order q in
          let i =
            steps-Inv order [] [] (λ k m. sym (o.all_nodes k) ∙ m) o.once (λ k m. refl)
              o.topological
              (record {
                known = λ k. refl;
                placed = λ k d m. absurd (ground arith);
                hashed = λ k n m. absurd (ground arith);
              }) in
          let same_fps : foldl (fingerprint_step sources hash env ns) [] order ≡ current =
            ground arith in
          let j : Inv order current = rw (← same_fps) i in
          record {
            only_nodes = λ k m. ground (arith, j.known k, o.all_nodes k);
            chained = λ k n e. j.hashed k n (o.all_nodes k ∙ names-find k ns n e) e;
          }
      by_order (missing_deps m) q = absurd (ground arith)
      by_order (cycle bad) q = absurd (ground arith)
