-- ===== src/Selection/Upstream.antt =====
-- The last loop of `_selected_subgraph_names` ends with enough fuel, and collects what the seeds need.
use fast_flow_transform.Prelude.{
  ℕ, zero, suc, ◌+◌, ◌≤◌, ◌<◌, ◌≡◌, refl, ap, inl, inr, Bool, true, false, ◌||◌, List, [], ◌∷◌,
  arith, if◌then◌else◌, Bool-cases, length, length-append, filter, List-cases,
}
use fast_flow_transform.Prelude.Names.{
  Name, same, same_lem, same_refl, member, add, set_of, IsNodup, member-append, member-filter,
  IsSubset,
}
use fast_flow_transform.Registry.{Nodes}
use fast_flow_transform.Walk.{Reach, at_start, along}
use fast_flow_transform.Selection.{deps_map, Climb, climb_visit, climb, edge_count}

length-set_of : (xs : List Name) → length (set_of xs) ≤ length xs
unfolding set_of add
length-set_of [] = omega arith
length-set_of (x ∷ xs) = ground (arith, length-set_of xs)

-- the edges of the nodes that are not in `result`
open_edges : List Name → Nodes → ℕ
open_edges result [] = 0
open_edges result (n ∷ ns) =
    (if member n.name result then 0 else length n.deps) + open_edges result ns

open_edges-start : (ns : Nodes) → open_edges [] ns ≡ edge_count ns
unfolding open_edges edge_count
open_edges-start [] = refl
open_edges-start (n ∷ ns) = omega (arith, open_edges-start ns)

open_edges-le :
    (cur : Name) (result : List Name) (ns : Nodes)
    → open_edges (cur ∷ result) ns ≤ open_edges result ns
unfolding open_edges
open_edges-le cur result [] = omega arith
open_edges-le cur result (n ∷ ns) = ground (arith, open_edges-le cur result ns)

open_edges-cons :
    (cur : Name) (result : List Name) (ns : Nodes)
    → member cur result ≡ false
    → open_edges (cur ∷ result) ns + length (deps_map ns cur) ≤ open_edges result ns
unfolding open_edges deps_map
open_edges-cons cur result [] h = omega arith
open_edges-cons cur result (n ∷ ns) h = elim (Bool-cases (same n.name cur)) [
  | inl e ↦ ground (
    arith,
    length-set_of n.deps,
    open_edges-le cur result ns,
    same_lem n.name cur e,
    ap (λ k. member k result) (same_lem n.name cur e),
  )
  | inr e ↦ ground (arith, open_edges-cons cur result ns h)
]

length-filter-le : (keep : Name → Bool) (xs : List Name) → length (filter keep xs) ≤ length xs
length-filter-le keep [] = omega arith
length-filter-le keep (x ∷ xs) = ground (arith, length-filter-le keep xs)

module _ (ns : Nodes) (remaining seeds : List Name) where
  abbrev pub needs : Name → List Name
  needs k = filter (λ d. member d remaining) (deps_map ns k)

  pub record ClimbInv (c : Climb) : Type 0 where
    pub kept : IsSubset c.result remaining
    pub wanted : (x : Name) → member x c.result ≡ true → Reach needs seeds x
    pub open_wanted : (x : Name) → member x c.pending ≡ true → Reach needs seeds x
    pub starts :
        (x : Name) → member x seeds ≡ true → (member x c.result || member x c.pending) ≡ true
    pub closed :
        (u d : Name)
        → member u c.result ≡ true
        → member d (needs u) ≡ true
        → (member d c.result || member d c.pending) ≡ true
    pub distinct : IsNodup c.result

  module _ (inside : IsSubset seeds remaining) where
    Reach-remaining : {x : Name} → Reach needs seeds x → member x remaining ≡ true
    Reach-remaining (at_start m) = inside _ m
    Reach-remaining (along {u = u} {v = v} r m) =
        ground (arith, member-filter (λ d. member d remaining) v (deps_map ns u))

    visit-ClimbInv :
        (c : Climb) (cur : Name) (rest : List Name)
        → c.pending ≡ cur ∷ rest
        → ClimbInv c
        → ClimbInv (climb_visit ns remaining c cur rest)
    unfolding climb_visit
    visit-ClimbInv c cur rest e i =
        let reached : Reach needs seeds cur =
          i.open_wanted cur (rw e (ground (arith, same_refl cur))) in
        let keep = Reach-remaining reached in
        let split : (x : Name) → member x c.pending ≡ (same x cur || member x rest) =
          (λ x. ap (member x) e) in
        elim (Bool-cases (member cur c.result)) [
          | inl old ↦ rw old (record {
            kept = i.kept;
            wanted = i.wanted;
            open_wanted = λ x m. i.open_wanted x (ground (arith, split x));
            starts = λ x m. moved x old (i.starts x m) (split x);
            closed = λ u d m n. moved d old (i.closed u d m n) (split d);
            distinct = i.distinct;
          })
          | inr new ↦
              rw (new, keep)
                (record {
                  kept = λ x m. elim (Bool-cases (same x cur)) [
                    | inl q ↦ rw (same_lem x cur q) keep
                    | inr q ↦ i.kept x (ground arith)
                  ];
                  wanted = λ x m. elim (Bool-cases (same x cur)) [
                    | inl q ↦ rw (same_lem x cur q) reached
                    | inr q ↦ i.wanted x (ground arith)
                  ];
                  open_wanted = λ x m. elim (Bool-cases (member x (needs cur))) [
                    | inl q ↦ along reached q
                    | inr q ↦
                        i.open_wanted x (ground (arith, split x, member-append x (needs cur) rest))
                  ];
                  starts = λ x m.
                      ground (arith, i.starts x m, split x, member-append x (needs cur) rest);
                  closed = λ u d m n. elim (Bool-cases (same u cur)) [
                    | inl q ↦ ground (
                      arith,
                      ap (λ y. member d (needs y)) (same_lem u cur q),
                      member-append d (needs cur) rest,
                    )
                    | inr q ↦
                        ground (arith, i.closed u d, split d, member-append d (needs cur) rest)
                  ];
                  distinct = (new, i.distinct);
                })
        ]
      where
        moved :
            (x : Name)
            → member cur c.result ≡ true
            → (member x c.result || member x c.pending) ≡ true
            → member x c.pending ≡ (same x cur || member x rest)
            → (member x c.result || member x rest) ≡ true
        moved x old m s = elim (Bool-cases (same x cur)) [
          | inl q ↦ ground (arith, ap (λ y. member y c.result) (same_lem x cur q))
          | inr q ↦ ground arith
        ]

    abbrev room : Climb → ℕ
    room c = length c.pending + open_edges c.result ns

    visit-room :
        (c : Climb) (cur : Name) (rest : List Name)
        → c.pending ≡ cur ∷ rest
        → room (climb_visit ns remaining c cur rest) < room c
    unfolding climb_visit
    visit-room c cur rest e = elim (Bool-cases (member cur c.result)) [
      | inl old ↦ rw old (omega (arith, ap length e))
      | inr new ↦ elim (Bool-cases (member cur remaining)) [
        | inl keep ↦
            rw (new, keep)
              (omega (
                arith,
                ap length e,
                length-append (needs cur) rest,
                length-filter-le (λ d. member d remaining) (deps_map ns cur),
                open_edges-cons cur c.result ns new,
              ))
        | inr drop ↦ rw (new, drop) (omega (arith, ap length e))
      ]
    ]

    climb-ClimbInv :
        (fuel : ℕ) (c : Climb)
        → room c ≤ fuel
        → ClimbInv c
        → ClimbInv (climb ns remaining fuel c) × ((climb ns remaining fuel c).pending ≡ [])
    unfolding climb
    climb-ClimbInv zero c h i = (i, emptied)
      where
        emptied : c.pending ≡ []
        emptied = elim (List-cases c.pending) [
          | inl e ↦ e
          | inr (u, us, e) ↦ absurd (omega (arith, ap length e))
        ]
    climb-ClimbInv (suc fuel) c h i = elim (List-cases c.pending) [
      | inl e ↦ rw (e, climb) (i, e)
      | inr (u, us, e) ↦
          rw (e, climb)
            (climb-ClimbInv fuel (climb_visit ns remaining c u us)
              (omega (arith, visit-room c u us e)) (visit-ClimbInv c u us e i))
    ]

    -- From seeds that remain, the loop ends with nothing pending, and with its invariant.
    pub climb_end :
        ClimbInv (
          climb ns remaining
            (length seeds + edge_count ns)
            (record { result = []; pending = seeds }))
        × ((climb ns remaining
              (length seeds + edge_count ns)
              (record { result = []; pending = seeds })).pending
            ≡ [])
    climb_end =
        climb-ClimbInv (length seeds + edge_count ns) (record { result = []; pending = seeds })
          (omega (arith, open_edges-start ns))
          (record {
            kept = λ x m. absurd (ground arith);
            wanted = λ x m. absurd (ground arith);
            open_wanted = λ x m. at_start m;
            starts = λ x m. m;
            closed = λ u d m n. absurd (ground arith);
            distinct = tt;
          })
