-- ===== src/Registry/Lookup.antt =====
-- Lookups in the registry after a registration, and physical relation names.
use fast_flow_transform.Prelude.{
  ℕ, suc, ◌≤◌, String, ◌≡◌, refl, sym, ap, ◌∙◌, ◌≢◌, ◌↔◌, ◌⊎◌, inl, inr, false, ◌||◌, none, some,
  [], ◌∷◌, arith, if◌then◌else◌, Bool-cases, Option-cases,
}
use fast_flow_transform.Prelude.Names.{Name, same, same_iff, same_lem, same_refl, member, IsNodup}
use Prim.Native.String as Str
use Prim.Native.String.append
use Prim.Native.Char.{Char}
use fast_flow_transform.Registry.{
  AddResult, Node, Nodes, names, find, put, added, duplicate, add_node_or_fail, strip_suffix,
  relation_for, get_node,
}

pub find-put :
    (k : Name) (m : Node) (ns : Nodes)
    → find k (put m ns) ≡ (if same m.name k then some m else find k ns)
unfolding find put
find-put k m [] = refl
find-put k m (n ∷ ns) =
    ground (arith, find-put k m ns, same_iff m.name k, same_iff n.name k, same_iff n.name m.name)

member-names-put :
    (k : Name) (m : Node) (ns : Nodes)
    → member k (names (put m ns)) ≡ (same k m.name || member k (names ns))
unfolding put
member-names-put k m [] = refl
member-names-put k m (n ∷ ns) =
    ground
      (arith, member-names-put k m ns, same_iff k m.name, same_iff k n.name, same_iff n.name m.name)

put-IsNodup : (m : Node) (ns : Nodes) → IsNodup (names ns) → IsNodup (names (put m ns))
unfolding put
put-IsNodup m [] h = (refl, tt)
put-IsNodup m (n ∷ ns) h =
    ground (arith, put-IsNodup m ns h.1, member-names-put n.name m ns, same_iff n.name m.name)

pub find-eq-name : (k : Name) (ns : Nodes) (n : Node) → find k ns ≡ some n → n.name ≡ k
unfolding find
find-eq-name k [] n h = cc
find-eq-name k (m ∷ ns) n h = ground (arith, find-eq-name k ns n, same_iff m.name k)

add_node_or_fail-keeps :
    (new : Node) (ns after : Nodes)
    → IsNodup (names ns)
    → add_node_or_fail new ns ≡ added after
    → IsNodup (names after)
      × ((k : Name) → find k after ≡ (if same new.name k then some new else find k ns))
unfolding add_node_or_fail
add_node_or_fail-keeps new ns after h e =
    let same_nodes : put new ns ≡ after = ground arith in
    rw (← same_nodes) (put-IsNodup new ns h, λ k. find-put k new ns)

-- A node of the main project stands under the name of the new one, which is the main project's too.
pub record IsConflict (new : Node) (ns : Nodes) (old_path new_path : Name) : Type 0 where
  pub old : Node
  pub registered : find new.name ns ≡ some old
  pub old_local : old.package_name ≡ none
  pub new_local : new.package_name ≡ none
  pub old_place : old.path ≡ old_path
  pub new_place : new.path ≡ new_path

add_node_or_fail-duplicate :
    (new : Node) (ns : Nodes) (old_path new_path : Name)
    → (add_node_or_fail new ns ≡ duplicate old_path new_path) ↔ IsConflict new ns old_path new_path
unfolding add_node_or_fail
add_node_or_fail-duplicate new ns old_path new_path = (
  λ h. elim (Option-cases (find new.name ns)) [
    | inl e ↦ absurd (ground arith)
    | inr (old, e) ↦ record {
      old = old;
      registered = e;
      old_local = ground arith;
      new_local = ground arith;
      old_place = ground arith;
      new_place = ground arith;
    }
  ],
  λ c. let e = c.registered in ground arith,
)

-- A registration fails exactly when the name is taken and both nodes are the main project's, and the error
-- names both files. Else it returns a registry whose names are distinct, which finds the new node under its
-- name, in place of a node of a package or of the main project that had it, and every other node as before.
-- The names are distinct at first.
pub add_node_or_fail_outcome :
    (new : Node) (ns : Nodes)
    → IsNodup (names ns)
    → ((old_path : Name) × (new_path : Name) × IsConflict new ns old_path new_path
        × (add_node_or_fail new ns ≡ duplicate old_path new_path))
      ⊎ (((old_path new_path : Name) → ¬ IsConflict new ns old_path new_path)
          × ((after : Nodes) × (add_node_or_fail new ns ≡ added after)
              × IsNodup (names after)
              × ((k : Name) → find k after ≡ (if same new.name k then some new else find k ns))))
add_node_or_fail_outcome new ns h = by_result (add_node_or_fail new ns) refl
  where
    by_result :
        (r : AddResult)
        → add_node_or_fail new ns ≡ r
        → ((old_path : Name) × (new_path : Name) × IsConflict new ns old_path new_path
            × (add_node_or_fail new ns ≡ duplicate old_path new_path))
          ⊎ (((old_path new_path : Name) → ¬ IsConflict new ns old_path new_path)
              × ((after : Nodes) × (add_node_or_fail new ns ≡ added after)
                  × IsNodup (names after)
                  × ((k : Name)
                      → find k after ≡ (if same new.name k then some new else find k ns))))
    by_result (duplicate old_path new_path) e =
        inl (old_path, new_path, (add_node_or_fail-duplicate new ns old_path new_path).0 e, e)
    by_result (added after) e =
        let (a, b) = add_node_or_fail-keeps new ns after h e in
        inr (
          λ old_path new_path c.
              let q = sym ((add_node_or_fail-duplicate new ns old_path new_path).1 c) ∙ e in
              ground (arith, q),
          (after, e, a, b),
        )

-- `get_node` answers with a node of the registry whose name is the given one or that one with ".ff",
-- and the exact name comes first.
get_node-name :
    (name : Name) (ns : Nodes) (n : Node)
    → get_node name ns ≡ some n
    → (n.name ≡ name) ⊎ ((find name ns ≡ none) × (n.name ≡ Str.◌++◌ name ".ff"))
unfolding get_node
get_node-name name ns n h =
    ground (arith, find-eq-name name ns n, find-eq-name (Str.◌++◌ name ".ff") ns n)

count : Name → ℕ
count String.[] = 0
count (String.◌∷◌ c s) = suc (count s)

count-append : (s t : Name) → count t ≤ count (Str.◌++◌ s t)
unfolding count
count-append String.[] t = rw (append.nil t) (omega arith)
count-append (String.◌∷◌ c s) t = rw (append.cons c s t) (omega (arith, count-append s t))

longer : (c : Char) (s t : Name) → same (String.◌∷◌ c (Str.◌++◌ s t)) t ≡ false
unfolding count
longer c s t = elim (Bool-cases (same (String.◌∷◌ c (Str.◌++◌ s t)) t)) [
  | inl e ↦
      absurd
        (omega (arith, ap count (same_lem (String.◌∷◌ c (Str.◌++◌ s t)) t e), count-append s t))
  | inr e ↦ e
]

strip_suffix_self : (suffix : Name) → strip_suffix suffix suffix ≡ some String.[]
unfolding strip_suffix
strip_suffix_self String.[] = ground (arith, same_refl String.[])
strip_suffix_self (String.◌∷◌ c s) = ground (arith, same_refl (String.◌∷◌ c s))

strip_suffix-append : (suffix s : Name) → strip_suffix suffix (Str.◌++◌ s suffix) ≡ some s
unfolding strip_suffix
strip_suffix-append suffix String.[] = rw (append.nil suffix) (strip_suffix_self suffix)
strip_suffix-append suffix (String.◌∷◌ c s) =
    rw (append.cons c s suffix) (rw (longer c s suffix) (rw (strip_suffix-append suffix s) refl))

strip_suffix-eq :
    (suffix s : Name) (p : Name) → strip_suffix suffix s ≡ some p → s ≡ Str.◌++◌ p suffix
unfolding strip_suffix
strip_suffix-eq suffix String.[] p h = ground (arith, same_iff String.[] suffix, append.nil suffix)
strip_suffix-eq suffix (String.◌∷◌ c s) p h = elim (Bool-cases (same (String.◌∷◌ c s) suffix)) [
  | inl e ↦ ground (arith, same_iff (String.◌∷◌ c s) suffix, append.nil suffix)
  | inr e ↦ elim (Option-cases (strip_suffix suffix s)) [
    | inl f ↦ absurd (ground arith)
    | inr (q, f) ↦ ground (arith, strip_suffix-eq suffix s q f, append.cons c q suffix)
  ]
]

-- `relation_for` drops one ".ff" at the end of a name, and returns a name that does not end with ".ff"
-- unchanged.
relation_for_lem :
    (name : Name)
    → (relation_for (Str.◌++◌ name ".ff") ≡ name)
      × (((p : Name) → name ≢ Str.◌++◌ p ".ff") → relation_for name ≡ name)
unfolding relation_for
relation_for_lem name = (
  rw (strip_suffix-append ".ff" name),
  λ other. elim (Option-cases (strip_suffix ".ff" name)) [
    | inl e ↦ rw e
    | inr (p, e) ↦ absurd (other p (strip_suffix-eq ".ff" name p e))
  ],
)
