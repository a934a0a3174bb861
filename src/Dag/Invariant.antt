-- ===== src/Dag/Invariant.antt =====
-- The invariant of the searches: the levels so far, the degrees and the ready names.
use fast_flow_transform.Prelude.{
  ℕ, ◌+◌, ◌≤◌, ◌≡◌, refl, sym, ap, ◌∙◌, Bool, true, false, ◌&&◌, ◌||◌, List, [], ◌∷◌, ◌++◌, arith,
  ◌==◌, length, length-append, filter, concat,
}
use fast_flow_transform.Prelude.Names.{
  Name, same_refl, member, IsNodup, member-append, member-filter, filter-IsNodup, length-subset,
}
use fast_flow_transform.Registry.{Nodes, names}
use fast_flow_transform.Prelude.Sorting.{sorted, member-sorted, sorted-IsNodup}
use fast_flow_transform.Dag.{build_graph, visit_all, with_degree}
use fast_flow_transform.Dag.Edges.{deps_of, build_graph_indeg}
use fast_flow_transform.Dag.Degrees.{open_deps, settled, settled-done, open_deps-start}
use fast_flow_transform.Dag.Relax.{IsPush}
use fast_flow_transform.Dag.Round.{IsLayered, done_in, concat-snoc, visit_all-Processed}

pub record Inv (ns : Nodes) (lvls : List (List Name)) (indeg : Name → ℕ) (ready : List Name)
    : Type 0 where
  pub counts : (k : Name) → indeg k ≡ open_deps ns (done_in lvls) k
  pub ready_iff :
      (k : Name)
      → (member k (concat lvls) || member k ready)
        ≡ (member k (names ns) && settled ns (done_in lvls) k)
  pub fresh : (k : Name) → member k ready ≡ true → member k (concat lvls) ≡ false
  pub ready_distinct : IsNodup ready
  pub done_distinct : IsNodup (concat lvls)
  pub layered : IsLayered ns [] lvls

IsLayered-snoc :
    (ns : Nodes) (before : List Name) (ls : List (List Name)) (us : List Name)
    → IsLayered ns before ls
    → ((k d : Name)
        → member k us ≡ true
        → member d (deps_of ns k) ≡ true
        → (member d before || member d (concat ls)) ≡ true)
    → IsLayered ns before (ls ++ us ∷ [])
IsLayered-snoc ns before [] us h f = (λ k d m e. ground (arith, f k d m e), tt)
IsLayered-snoc ns before (l ∷ ls) us h f = (
  h.0,
  IsLayered-snoc ns (before ++ l) ls us h.1 (λ k d m e.
      ground (arith, f k d m e, member-append d before l, member-append d l (concat ls))),
)

pub append-IsNodup :
    (xs ys : List Name)
    → IsNodup xs
    → IsNodup ys
    → ((k : Name) → member k ys ≡ true → member k xs ≡ false)
    → IsNodup (xs ++ ys)
append-IsNodup [] ys hx hy f = hy
append-IsNodup (x ∷ xs) ys hx hy f = (
  ground (arith, member-append x xs ys, f x, same_refl x),
  append-IsNodup xs ys hx.1 hy (λ k m. ground (arith, f k m)),
)

member-concat-snoc :
    (k : Name) (xss : List (List Name)) (ys : List Name)
    → member k (concat (xss ++ ys ∷ [])) ≡ (member k (concat xss) || member k ys)
member-concat-snoc k xss ys = ap (member k) (concat-snoc xss ys) ∙ member-append k (concat xss) ys

module _ (ns : Nodes) (distinct : IsNodup (names ns)) {push : Name → List Name → List Name}
    (p : IsPush push) where
  -- One round: `us` are finished, `rest` stay ready.
  pub round-Inv :
      (lvls : List (List Name)) (indeg : Name → ℕ) (ready us rest : List Name)
      → Inv ns lvls indeg ready
      → ((k : Name) → member k ready ≡ (member k us || member k rest))
      → ((k : Name) → member k us ≡ true → member k rest ≡ false)
      → IsNodup us
      → IsNodup rest
      → let s =
          visit_all push (build_graph ns).out (record { indeg = indeg; zero_names = rest }) us in
        Inv ns (lvls ++ us ∷ []) s.indeg s.zero_names
  round-Inv lvls indeg ready us rest i split apart du dr =
      let done : Name → Bool = done_in lvls in
      let done' : Name → Bool = done_in (lvls ++ us ∷ []) in
      let pr =
        visit_all-Processed ns distinct p us done done'
          (record { indeg = indeg; zero_names = rest }) du
          (λ u m. i.fresh u (ground (arith, split u)))
          (λ d. ground (arith, member-concat-snoc d lvls us)) i.counts
          (λ k m. ground (arith, i.counts k, i.ready_iff k, split k)) dr in
      record {
        counts = pr.counts;
        ready_iff = λ k.
            ground
              (arith, pr.newly k, pr.fewer k, i.ready_iff k, split k, member-concat-snoc k lvls us);
        fresh = λ k m. ground (
          arith,
          pr.newly k,
          i.ready_iff k,
          i.fresh k,
          split k,
          apart k,
          member-concat-snoc k lvls us,
        );
        ready_distinct = pr.still_distinct;
        done_distinct = rw (concat-snoc lvls us) (
            append-IsNodup (concat lvls) us i.done_distinct du
              (λ k m. i.fresh k (ground (arith, split k))));
        layered =
            IsLayered-snoc ns [] lvls us i.layered
              (λ k d m e. settled-done ns done k d (ground (arith, i.ready_iff k, split k)) e);
      }

pub sorted-Inv :
    (ns : Nodes) (lvls : List (List Name)) (indeg : Name → ℕ) (ready : List Name)
    → Inv ns lvls indeg ready
    → Inv ns lvls indeg (sorted ready)
sorted-Inv ns lvls indeg ready i = record {
  counts = i.counts;
  ready_iff = λ k. rw (member-sorted k ready) (i.ready_iff k);
  fresh = λ k m. i.fresh k (sym (member-sorted k ready) ∙ m);
  ready_distinct = sorted-IsNodup ready i.ready_distinct;
  done_distinct = i.done_distinct;
  layered = i.layered;
}

pub start_Inv :
    (ns : Nodes)
    → IsNodup (names ns)
    → Inv ns []
        (build_graph ns).indeg
        (sorted (with_degree (λ deg. deg == 0) (build_graph ns).indeg ns))
start_Inv ns distinct =
    let indeg : Name → ℕ = (build_graph ns).indeg in
    let at_zero : Name → Bool = (λ k. indeg k == 0) in
    let counts : (k : Name) → indeg k ≡ open_deps ns (λ _. false) k =
      (λ k. build_graph_indeg ns distinct k ∙ sym (open_deps-start ns k)) in
    sorted-Inv ns [] indeg (filter at_zero (names ns)) (record {
      counts = counts;
      ready_iff = λ k. ground (arith, member-filter at_zero k (names ns), counts k);
      fresh = λ k m. refl;
      ready_distinct = filter-IsNodup at_zero (names ns) distinct;
      done_distinct = tt;
      layered = tt;
    })

-- Finished and ready names are distinct nodes, so there are no more of them than nodes.
pub length-done-le :
    (ns : Nodes) (lvls : List (List Name)) (indeg : Name → ℕ) (ready : List Name)
    → Inv ns lvls indeg ready
    → length (concat lvls) + length ready ≤ length (names ns)
length-done-le ns lvls indeg ready i =
    let all_distinct =
      append-IsNodup (concat lvls) ready i.done_distinct i.ready_distinct (λ k m. i.fresh k m) in
    omega (
      arith,
      length-append (concat lvls) ready,
      length-subset (concat lvls ++ ready) (names ns) all_distinct
          (λ k m. ground (arith, i.ready_iff k, member-append k (concat lvls) ready)),
    )
