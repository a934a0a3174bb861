-- ===== src/ChangedSince/Affected.antt =====
-- Which models `compute_affected_models` returns.
use fast_flow_transform.Prelude.{
  ℕ, zero, suc, ◌≡◌, refl, ap, ◌∙◌, ◌↔◌, ◌⊎◌, inl, inr, Bool, true, false, not, ◌||◌, List, [], ◌∷◌,
  ◌++◌, map, foldl, arith, Bool-cases, length, filter, Option-cases, List-cases,
}
use fast_flow_transform.Prelude.Names.{
  Name, member, IsNodup, member-set_of, member-append, member-filter, IsSubset,
}
use fast_flow_transform.Registry.{Node, Nodes, names, find}
use fast_flow_transform.Walk.{Walk, offer, expand, walk, Reach, at_start, along}
use fast_flow_transform.Walk.Reached.{walk-reached}
use fast_flow_transform.ChangedSince.{
  known_deps, upstream, downstream, ancestors, compute_affected_models,
}

-- `next` without the names of a list.
abbrev pub avoiding : List Name → (Name → List Name) → Name → List Name
avoiding known next u = filter (λ v. not (member v known)) (next u)

module _ (next : Name → List Name) (known : List Name) where
  -- The walk that has already seen `known`, and the walk that avoids it.
  record Alike (w v : Walk) : Type 0 where
    same_stack : w.stack ≡ v.stack
    seen_iff : (x : Name) → member x w.seen ≡ (member x known || member x v.seen)

  offer-Alike :
      (y : Name) (w v : Walk) → member y known ≡ false → Alike w v → Alike (offer w y) (offer v y)
  unfolding offer
  offer-Alike y w v e a = elim (Bool-cases (member y v.seen)) [
    | inl m ↦ let seen : member y w.seen ≡ true = ground (arith, a.seen_iff y) in rw (m, seen) a
    | inr m ↦
        let new : member y w.seen ≡ false = ground (arith, a.seen_iff y) in
        rw (m, new)
          (record {
            same_stack = ap (λ s. y ∷ s) a.same_stack;
            seen_iff = λ x. ground (arith, a.seen_iff x);
          })
  ]

  offer_all-Alike :
      (vs : List Name) (w v : Walk)
      → Alike w v
      → Alike (foldl offer w vs) (foldl offer v (filter (λ y. not (member y known)) vs))
  unfolding offer
  offer_all-Alike [] w v a = a
  offer_all-Alike (y ∷ vs) w v a = elim (Bool-cases (member y known)) [
    | inl e ↦
        let seen : member y w.seen ≡ true = ground (arith, a.seen_iff y) in
        rw (e, seen) (offer_all-Alike vs w v a)
    | inr e ↦ rw e (offer_all-Alike vs (offer w y) (offer v y) (offer-Alike y w v e a))
  ]

  walk-Alike :
      (fuel : ℕ) (w v : Walk)
      → Alike w v
      → Alike (walk next fuel w) (walk (avoiding known next) fuel v)
  unfolding walk expand
  walk-Alike zero w v a = a
  walk-Alike (suc fuel) w v a = elim (List-cases v.stack) [
    | inl e ↦ let e' : w.stack ≡ [] = a.same_stack ∙ e in rw (e', e, walk) a
    | inr (u, us, e) ↦
        let e' : w.stack ≡ u ∷ us = a.same_stack ∙ e in
        rw (e', e, walk)
          (walk-Alike fuel (expand next w u us) (expand (avoiding known next) v u us) (
            offer_all-Alike (next u) (record { seen = w.seen; stack = us })
              (record { seen = v.seen; stack = us })
              (record { same_stack = refl; seen_iff = a.seen_iff })))
  ]

upstream-names : (ns : Nodes) (u : Name) → IsSubset (upstream ns u) (names ns)
unfolding upstream known_deps
upstream-names ns u x m = elim (Option-cases (find u ns)) [
  | inl e ↦ absurd (ground arith)
  | inr (n, e) ↦ ground (
    arith,
    member-set_of x (filter (λ d. member d (names ns)) n.deps),
    member-filter (λ d. member d (names ns)) x n.deps,
  )
]

filter-names :
    (test : Node → Bool) (ns : Nodes) → IsSubset (map (λ n. n.name) (filter test ns)) (names ns)
filter-names test [] x m = m
filter-names test (n ∷ ns) x m = ground (arith, filter-names test ns x)

downstream-names : (ns : Nodes) (u : Name) → IsSubset (downstream ns u) (names ns)
unfolding downstream
downstream-names ns u = filter-names (λ n. member u (known_deps ns n)) ns

member-left : (xs ys : List Name) → IsSubset xs (xs ++ ys)
member-left xs ys x m = ground (arith, member-append x xs ys)

member-right : (xs ys : List Name) → IsSubset ys (xs ++ ys)
member-right xs ys x m = ground (arith, member-append x xs ys)

Reach-avoiding :
    (next : Name → List Name) (known : List Name) {start : List Name} {x : Name}
    → Reach (avoiding known next) start x
    → Reach next start x
Reach-avoiding next known (at_start m) = at_start m
Reach-avoiding next known (along {u = u} {v = v} r m) =
    along (Reach-avoiding next known r)
      (ground (arith, member-filter (λ y. not (member y known)) v (next u)))

module _ (ns : Nodes) (changed : List Name) (distinct : IsNodup changed) where
  ancestors_iff :
      (x : Name) → (member x (ancestors ns changed) ≡ true) ↔ Reach (upstream ns) changed x
  unfolding ancestors
  ancestors_iff =
      (walk-reached (upstream ns) changed (changed ++ names ns) (length (changed ++ names ns))
        distinct (member-left changed (names ns))
        (λ u x m. member-right changed (names ns) x (upstream-names ns u x m)) (omega arith)).2

  abbrev free : Name → List Name
  free = avoiding (ancestors ns changed) (downstream ns)

  affected_iff :
      (x : Name)
      → member x (compute_affected_models changed ns) ≡ (
          member x (ancestors ns changed)
          || member x
              (walk free
                (length (changed ++ names ns))
                (record { seen = changed; stack = changed })).seen)
  unfolding compute_affected_models
  affected_iff =
      (walk-Alike (downstream ns) (ancestors ns changed) (length (changed ++ names ns))
        (record { seen = ancestors ns changed; stack = changed })
        (record { seen = changed; stack = changed })
        (record {
          same_stack = refl;
          seen_iff = λ x. elim (Bool-cases (member x changed)) [
            | inl e ↦ let s = (ancestors_iff x).1 (at_start e) in ground arith
            | inr e ↦ ground arith
          ];
        })).seen_iff

  free_iff :
      (x : Name)
      → (member x
            (walk free
              (length (changed ++ names ns))
              (record { seen = changed; stack = changed })).seen
          ≡ true)
        ↔ Reach free changed x
  free_iff =
      (walk-reached free changed (changed ++ names ns) (length (changed ++ names ns)) distinct
        (member-left changed (names ns))
        (λ u x m. member-right changed (names ns) x (
          downstream-names ns u x (
            ground (
              arith,
              member-filter (λ y. not (member y (ancestors ns changed))) x (downstream ns u),
            ))))
        (omega arith)).2

  -- The models returned are those that lead to a changed one, and those that are reached from a changed
  -- one along dependents without meeting a model that leads to a changed one.
  pub compute_affected_models_iff :
      (x : Name)
      → (member x (compute_affected_models changed ns) ≡ true) ↔ (
          Reach (upstream ns) changed x
          ⊎ Reach (avoiding (ancestors ns changed) (downstream ns)) changed x)
  compute_affected_models_iff x = (
    λ m. elim (Bool-cases (member x (ancestors ns changed))) [
      | inl e ↦ inl ((ancestors_iff x).0 e)
      | inr e ↦ inr ((free_iff x).0 (ground (arith, affected_iff x)))
    ],
    λ r. elim r [
      | inl up ↦ let m = (ancestors_iff x).1 up in ground (arith, affected_iff x)
      | inr down ↦ let m = (free_iff x).1 down in ground (arith, affected_iff x)
    ],
  )

  Reach-free :
      ((y : Name)
        → Reach (upstream ns) changed y
        → Reach (downstream ns) changed y
        → member y changed ≡ true)
      → {x : Name} → Reach (downstream ns) changed x
      → Reach free changed x
  Reach-free apart (at_start m) = at_start m
  Reach-free apart (along {u = u} {v = v} r m) =
      elim (Bool-cases (member v (ancestors ns changed))) [
        | inl e ↦ at_start (apart v ((ancestors_iff v).0 e) (along r m))
        | inr e ↦ along (Reach-free apart r) (
            ground (
              arith,
              member-filter (λ y. not (member y (ancestors ns changed))) v (downstream ns u),
            ))
      ]

  -- When every model between two changed ones is itself changed, the models returned are those that lead
  -- to a changed one and those that a changed one leads to.
  compute_affected_models_complete :
      ((y : Name)
        → Reach (upstream ns) changed y
        → Reach (downstream ns) changed y
        → member y changed ≡ true)
      → (x : Name)
      → (member x (compute_affected_models changed ns) ≡ true)
        ↔ (Reach (upstream ns) changed x ⊎ Reach (downstream ns) changed x)
  compute_affected_models_complete apart x = (
    λ m. elim ((compute_affected_models_iff x).0 m) [
      | inl up ↦ inl up
      | inr down ↦ inr (Reach-avoiding (downstream ns) (ancestors ns changed) down)
    ],
    λ r.
        (compute_affected_models_iff x).1
          (elim r [ inl up ↦ inl up | inr down ↦ inr (Reach-free apart down) ]),
  )
