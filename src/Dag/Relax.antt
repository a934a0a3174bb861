-- ===== src/Dag/Relax.antt =====
-- What the loop over the dependents of a finished node does to the degrees and to the ready names.
use fast_flow_transform.Prelude.{
  ◌-◌, ◌≡◌, refl, ap, inl, inr, true, false, ◌&&◌, ◌||◌, List, [], ◌∷◌, foldl, arith, ◌==◌,
  if◌then◌else◌, Bool-cases,
}
use fast_flow_transform.Prelude.Names.{
  Name, same, same_iff, same_lem, member, add, IsNodup, member-add, add-IsNodup, update,
}
use fast_flow_transform.Prelude.Sorting.{
  name_leb, sorted, member-sorted, sorted-IsNodup, member-insert, insert-IsNodup,
}
use fast_flow_transform.Dag.{Search, relax, visit, heappush}

-- What the search asks of the container of ready names: the set of `levels`, the heap of `topo_sort`.
pub record IsPush (push : Name → List Name → List Name) : Type 0 where
  pub member_push : (k a : Name) (xs : List Name) → member k (push a xs) ≡ (same k a || member k xs)
  pub push_distinct :
      (a : Name) (xs : List Name) → member a xs ≡ false → IsNodup xs → IsNodup (push a xs)

pub add-IsPush : IsPush add
add-IsPush = record { member_push = member-add; push_distinct = λ a xs _ h. add-IsNodup a xs h }

pub heappush-IsPush : IsPush heappush
heappush-IsPush = record {
  member_push = member-insert name_leb;
  push_distinct = insert-IsNodup name_leb;
}

module _ {push : Name → List Name → List Name} (p : IsPush push) where
  open p use {member_push, push_distinct}

  relax_all : Search → List Name → Search
  relax_all s vs = foldl (relax push) s vs

  relax_all_indeg :
      (vs : List Name) (s : Search) (k : Name)
      → IsNodup vs
      → (relax_all s vs).indeg k ≡ (if member k vs then s.indeg k - 1 else s.indeg k)
  unfolding relax_all update
  relax_all_indeg [] s k h = refl
  relax_all_indeg (v ∷ vs) s k h = elim (Bool-cases (same k v)) [
    | inl e ↦
        let q : k ≡ v = same_lem k v e in
        ground (
          arith,
          relax_all_indeg vs (relax push s v) k h.1,
          rw (← q) at (h.0),
          same_iff v k,
          ap s.indeg q,
        )
    | inr e ↦ ground (arith, relax_all_indeg vs (relax push s v) k h.1, same_iff v k, same_iff k v)
  ]

  relax_all_zero :
      (vs : List Name) (s : Search) (k : Name)
      → IsNodup vs
      → member k (relax_all s vs).zero_names
        ≡ (member k s.zero_names || (member k vs && s.indeg k == 1))
  unfolding relax_all update
  relax_all_zero [] s k h = ground arith
  relax_all_zero (v ∷ vs) s k h = elim (Bool-cases (same k v)) [
    | inl e ↦
        let q : k ≡ v = same_lem k v e in
        ground (
          arith,
          relax_all_zero vs (relax push s v) k h.1,
          rw (← q) at (h.0),
          same_iff v k,
          ap s.indeg q,
          member_push k v s.zero_names,
        )
    | inr e ↦ ground (
      arith,
      relax_all_zero vs (relax push s v) k h.1,
      same_iff v k,
      same_iff k v,
      member_push k v s.zero_names,
    )
  ]

  abbrev pub ReadyAreZero : Search → Type 0
  ReadyAreZero s = (k : Name) → member k s.zero_names ≡ true → s.indeg k ≡ 0

  relax-ReadyAreZero : (s : Search) (v : Name) → ReadyAreZero s → ReadyAreZero (relax push s v)
  unfolding update
  relax-ReadyAreZero s v f k m = elim (Bool-cases (same v k)) [
    | inl e ↦
        ground (arith, f k, member_push k v s.zero_names, same_iff v k, ap s.indeg (same_lem v k e))
    | inr e ↦ ground (arith, f k, member_push k v s.zero_names, same_iff v k, same_iff k v)
  ]

  -- A name that is ready has no degree left to lose, so none is pushed twice.
  relax_all_distinct :
      (vs : List Name) (s : Search)
      → ReadyAreZero s
      → IsNodup s.zero_names
      → IsNodup (relax_all s vs).zero_names
  unfolding relax_all
  relax_all_distinct [] s f z = z
  relax_all_distinct (v ∷ vs) s f z =
      relax_all_distinct vs (relax push s v) (relax-ReadyAreZero s v f)
        (ground (arith, f v, push_distinct v s.zero_names, Bool-cases (member v s.zero_names)))

  relax_all-ReadyAreZero :
      (vs : List Name) (s : Search) → ReadyAreZero s → ReadyAreZero (relax_all s vs)
  unfolding relax_all
  relax_all-ReadyAreZero [] s f = f
  relax_all-ReadyAreZero (v ∷ vs) s f =
      relax_all-ReadyAreZero vs (relax push s v) (relax-ReadyAreZero s v f)

  -- The same facts of `visit`, for distinct dependents.
  module _ (out : Name → List Name) (s : Search) (u : Name) where
    pub visit_indeg :
        (k : Name)
        → IsNodup (out u)
        → (visit push out s u).indeg k ≡ (if member k (out u) then s.indeg k - 1 else s.indeg k)
    unfolding visit relax_all
    visit_indeg k h =
        rw (← member-sorted k (out u)) (relax_all_indeg (sorted (out u)) s k (sorted-IsNodup _ h))

    pub visit_zero :
        (k : Name)
        → IsNodup (out u)
        → member k (visit push out s u).zero_names
          ≡ (member k s.zero_names || (member k (out u) && s.indeg k == 1))
    unfolding visit relax_all
    visit_zero k h =
        rw (← member-sorted k (out u)) (relax_all_zero (sorted (out u)) s k (sorted-IsNodup _ h))

    pub visit_distinct :
        ReadyAreZero s → IsNodup s.zero_names → IsNodup (visit push out s u).zero_names
    unfolding visit relax_all
    visit_distinct = relax_all_distinct (sorted (out u)) s

    pub visit-ReadyAreZero : ReadyAreZero s → ReadyAreZero (visit push out s u)
    unfolding visit relax_all
    visit-ReadyAreZero = relax_all-ReadyAreZero (sorted (out u)) s
