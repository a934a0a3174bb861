-- ===== src/Dag/Round.antt =====
-- The invariant that `levels` and `topo_sort` share: one round finishes a batch of ready names.
use mathlib.Core.List.{append_assoc, append-nil}
use fast_flow_transform.Prelude.{
  ◌≤◌, ◌≡◌, sym, ap, ◌∙◌, inl, inr, Bool, true, false, not, ◌&&◌, ◌||◌, List, [], ◌∷◌, ◌++◌, arith,
  Bool-cases, concat,
}
use fast_flow_transform.Prelude.Names.{Name, same, same_iff, same_lem, same_refl, member, IsNodup}
use fast_flow_transform.Registry.{Nodes, names}
use fast_flow_transform.Dag.{build_graph, Search, visit, visit_all}
use fast_flow_transform.Dag.Edges.{
  deps_of, deps_of-nonempty, build_graph_out, build_graph_out-IsNodup,
}
use fast_flow_transform.Dag.Degrees.{open_deps, settled, mark, open_deps-ext, open_deps-mark}
use fast_flow_transform.Dag.Relax.{
  IsPush, ReadyAreZero, visit_indeg, visit_zero, visit_distinct, visit-ReadyAreZero,
}

-- Every dependency of a name of a level stands in `before` or in an earlier level.
abbrev pub IsLayered : Nodes → List Name → List (List Name) → Type 0
IsLayered ns before [] = Unit
IsLayered ns before (l ∷ ls) =
    ((k d : Name) → member k l ≡ true → member d (deps_of ns k) ≡ true → member d before ≡ true)
    × IsLayered ns (before ++ l) ls

abbrev pub done_in : List (List Name) → Name → Bool
done_in lvls d = member d (concat lvls)

pub concat-snoc :
    (xss : List (List Name)) (ys : List Name) → concat (xss ++ ys ∷ []) ≡ concat xss ++ ys
concat-snoc [] ys = append-nil ys
concat-snoc (xs ∷ xss) ys =
    ap (λ l. xs ++ l) (concat-snoc xss ys) ∙ sym (append_assoc xs (concat xss) ys)

module _ (ns : Nodes) (distinct : IsNodup (names ns)) {push : Name → List Name → List Name}
    (p : IsPush push) where
  abbrev pub out : Name → List Name
  out = (build_graph ns).out

  -- What finishing the names `us` does to the search.
  pub record Processed (done done' : Name → Bool) (s s' : Search) : Type 0 where
    pub counts : (k : Name) → s'.indeg k ≡ open_deps ns done' k
    pub fewer : (k : Name) → open_deps ns done' k ≤ open_deps ns done k
    pub newly :
        (k : Name)
        → member k s'.zero_names ≡ (
            member k s.zero_names
            || (member k (names ns) && (settled ns done' k && not (settled ns done k))))
    pub still_zero : ReadyAreZero p s'
    pub still_distinct : IsNodup s'.zero_names

  visit-Processed :
      (done : Name → Bool) (s : Search) (u : Name)
      → done u ≡ false
      → ((k : Name) → s.indeg k ≡ open_deps ns done k)
      → ReadyAreZero p s
      → IsNodup s.zero_names
      → Processed done (mark u done) s (visit push out s u)
  visit-Processed done s u fresh counts ready z =
      let h = build_graph_out-IsNodup ns u in
      record {
        counts = λ k. ground (
          arith,
          visit_indeg p out s u k h,
          build_graph_out ns distinct k u,
          open_deps-mark ns u done k fresh,
          counts k,
        );
        fewer = λ k. ground (arith, open_deps-mark ns u done k fresh);
        newly = λ k. ground (
          arith,
          visit_zero p out s u k h,
          build_graph_out ns distinct k u,
          open_deps-mark ns u done k fresh,
          counts k,
          deps_of-nonempty ns k u,
        );
        still_zero = visit-ReadyAreZero p out s u ready;
        still_distinct = visit_distinct p out s u ready z;
      }

  pub visit_all-Processed :
      (us : List Name) (done done' : Name → Bool) (s : Search)
      → IsNodup us
      → ((u : Name) → member u us ≡ true → done u ≡ false)
      → ((d : Name) → done' d ≡ (member d us || done d))
      → ((k : Name) → s.indeg k ≡ open_deps ns done k)
      → ReadyAreZero p s
      → IsNodup s.zero_names
      → Processed done done' s (visit_all push out s us)
  unfolding visit_all
  visit_all-Processed [] done done' s n fresh e counts ready z = record {
    counts = λ k. ground (arith, counts k, open_deps-ext ns done' done k e);
    fewer = λ k. ground (arith, open_deps-ext ns done' done k e);
    newly = λ k. ground (arith, open_deps-ext ns done' done k e);
    still_zero = ready;
    still_distinct = z;
  }
  visit_all-Processed (u ∷ us) done done' s n fresh e counts ready z =
      let one = visit-Processed done s u (fresh u (ground (arith, same_refl u))) counts ready z in
      let rest =
        visit_all-Processed us (mark u done) done' (visit push out s u) n.1 (λ v m. not_done v m)
          (λ d. ground (arith, e d, same_iff d u, same_iff u d)) one.counts one.still_zero
          one.still_distinct in
      record {
        counts = rest.counts;
        fewer = λ k. omega (arith, rest.fewer k, one.fewer k);
        newly = λ k. ground (arith, rest.newly k, one.newly k, rest.fewer k, one.fewer k);
        still_zero = rest.still_zero;
        still_distinct = rest.still_distinct;
      }
    where
      not_done : (v : Name) → member v us ≡ true → mark u done v ≡ false
      not_done v m = elim (Bool-cases (same v u)) [
        | inl q ↦ absurd (ground (arith, n.0, ap (λ x. member x us) (same_lem v u q)))
        | inr q ↦ ground (arith, fresh v)
      ]
