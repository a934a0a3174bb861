-- ===== src/Walk/Reached.antt =====
-- The walk ends with enough fuel, and has then seen exactly what is reached.
use fast_flow_transform.Prelude.{
  ℕ, zero, suc, ◌+◌, ◌≤◌, ◌≡◌, refl, ap, ◌↔◌, inl, inr, true, false, not, ◌&&◌, ◌||◌, List, [], ◌∷◌,
  foldl, arith, Bool-cases, length, List-cases,
}
use fast_flow_transform.Prelude.Names.{
  Name, same, same_lem, same_refl, member, IsNodup, IsSubset, length-subset,
}
use fast_flow_transform.Walk.{Walk, offer, expand, walk, Reach, at_start, along}

offer_all-seen :
    (vs : List Name) (w : Walk) (x : Name)
    → member x (foldl offer w vs).seen ≡ (member x w.seen || member x vs)
unfolding offer
offer_all-seen [] w x = ground arith
offer_all-seen (v ∷ vs) w x = elim (Bool-cases (same x v)) [
  | inl e ↦
      ground (arith, offer_all-seen vs (offer w v) x, ap (λ y. member y w.seen) (same_lem x v e))
  | inr e ↦ ground (arith, offer_all-seen vs (offer w v) x)
]

offer_all-stack :
    (vs : List Name) (w : Walk) (x : Name)
    → member x (foldl offer w vs).stack
      ≡ (member x w.stack || (member x vs && not (member x w.seen)))
unfolding offer
offer_all-stack [] w x = ground arith
offer_all-stack (v ∷ vs) w x = elim (Bool-cases (same x v)) [
  | inl e ↦
      ground (arith, offer_all-stack vs (offer w v) x, ap (λ y. member y w.seen) (same_lem x v e))
  | inr e ↦ ground (arith, offer_all-stack vs (offer w v) x)
]

offer_all-IsNodup : (vs : List Name) (w : Walk) → IsNodup w.seen → IsNodup (foldl offer w vs).seen
unfolding offer
offer_all-IsNodup [] w h = h
offer_all-IsNodup (v ∷ vs) w h = offer_all-IsNodup vs (offer w v) (ground arith)

length-offer_all :
    (vs : List Name) (w : Walk)
    → length (foldl offer w vs).stack + length w.seen
      ≡ length w.stack + length (foldl offer w vs).seen
unfolding offer
length-offer_all [] w = refl
length-offer_all (v ∷ vs) w = ground (arith, length-offer_all vs (offer w v))

module _ (next : Name → List Name) (start universe : List Name) where
  record WalkInv (w : Walk) : Type 0 where
    sound : (x : Name) → member x w.seen ≡ true → Reach next start x
    starts : (x : Name) → member x start ≡ true → member x w.seen ≡ true
    closed :
        (u v : Name)
        → member u w.seen ≡ true
        → member u w.stack ≡ false
        → member v (next u) ≡ true
        → member v w.seen ≡ true
    pending : (x : Name) → member x w.stack ≡ true → member x w.seen ≡ true
    within : IsSubset w.seen universe
    distinct : IsNodup w.seen

  module _ (next_within : (u : Name) → IsSubset (next u) universe) where
    expand-WalkInv :
        (w : Walk) (cur : Name) (rest : List Name)
        → w.stack ≡ cur ∷ rest
        → WalkInv w
        → WalkInv (expand next w cur rest)
    unfolding expand
    expand-WalkInv w cur rest e i =
        let w' : Walk = record { seen = w.seen; stack = rest } in
        let seen_iff = offer_all-seen (next cur) w' in
        let stack_iff = offer_all-stack (next cur) w' in
        let reached : Reach next start cur =
          i.sound cur (i.pending cur (rw e (ground (arith, same_refl cur)))) in
        record {
          sound = λ x m. elim (Bool-cases (member x w.seen)) [
            | inl s ↦ i.sound x s
            | inr s ↦ along reached (ground (arith, seen_iff x))
          ];
          starts = λ x m. ground (arith, seen_iff x, i.starts x m);
          closed = λ u v s t m. elim (Bool-cases (same u cur)) [
            | inl q ↦ ground (arith, seen_iff v, ap (λ y. member v (next y)) (same_lem u cur q))
            | inr q ↦
                ground (arith, seen_iff u, seen_iff v, stack_iff u, i.closed u v, ap (member u) e)
          ];
          pending = λ x m. ground (arith, seen_iff x, stack_iff x, i.pending x, ap (member x) e);
          within = λ x m. ground (arith, seen_iff x, i.within x, next_within cur x);
          distinct = offer_all-IsNodup (next cur) w' i.distinct;
        }

    walk-WalkInv :
        (fuel : ℕ) (w : Walk)
        → length w.stack + length universe ≤ fuel + length w.seen
        → WalkInv w
        → WalkInv (walk next fuel w) × ((walk next fuel w).stack ≡ [])
    unfolding walk
    walk-WalkInv zero w h i = (i, emptied)
      where
        emptied : w.stack ≡ []
        emptied = elim (List-cases w.stack) [
          | inl e ↦ e
          | inr (u, us, e) ↦
              absurd (omega (arith, ap length e, length-subset w.seen universe i.distinct i.within))
        ]
    walk-WalkInv (suc fuel) w h i = elim (List-cases w.stack) [
      | inl e ↦ rw (e, walk) (i, e)
      | inr (u, us, e) ↦
          rw (e, walk)
            (walk-WalkInv fuel (expand next w u us) (len u us e) (expand-WalkInv w u us e i))
    ]
      where
        len :
            (u : Name) (us : List Name)
            → w.stack ≡ u ∷ us
            → length (expand next w u us).stack + length universe
              ≤ fuel + length (expand next w u us).seen
        len u us e =
            unfold expand in
            omega
              (arith, ap length e, length-offer_all (next u) (record { seen = w.seen; stack = us }))

Reach-seen :
    (next : Name → List Name) (seen : List Name) {start : List Name} {x : Name}
    → ((y : Name) → member y start ≡ true → member y seen ≡ true)
    → ((u v : Name) → member u seen ≡ true → member v (next u) ≡ true → member v seen ≡ true)
    → Reach next start x
    → member x seen ≡ true
Reach-seen next seen f g (at_start m) = f _ m
Reach-seen next seen f g (along r m) = g _ _ (Reach-seen next seen f g r) m

-- From distinct names, with fuel for every name of a list that holds the start and what `next` gives,
-- the stack is empty at the end, the names seen are distinct and they are those that are reached.
pub walk-reached :
    (next : Name → List Name) (start universe : List Name) (fuel : ℕ)
    → IsNodup start
    → IsSubset start universe
    → ((u : Name) → IsSubset (next u) universe)
    → length universe ≤ fuel
    → let w = walk next fuel (record { seen = start; stack = start }) in
      (w.stack ≡ []) × IsNodup w.seen × ((x : Name) → (member x w.seen ≡ true) ↔ Reach next start x)
walk-reached next start universe fuel distinct inside next_inside enough =
    let (i, done) =
      walk-WalkInv next start universe next_inside fuel (record { seen = start; stack = start })
        (omega arith)
        (record {
          sound = λ x m. at_start m;
          starts = λ x m. m;
          closed = λ u v s t m. absurd (ground arith);
          pending = λ x m. m;
          within = inside;
          distinct = distinct;
        }) in
    (
      done,
      i.distinct,
      λ x. (i.sound x, Reach-seen next _ i.starts (λ u v s m. i.closed u v s (rw done) m)),
    )
