-- ===== src/Dag/Degrees.antt =====
-- The degree of a name is the number of its distinct dependencies that are not done yet.
use mathlib.Core.Path.{fun_ext}
use fast_flow_transform.Prelude.{
  ℕ, suc, ◌+◌, ◌<◌, ◌≡◌, refl, sym, ap, ◌∙◌, inl, inr, Bool, true, false, not, ◌||◌, List, [], ◌∷◌,
  arith, ◌==◌, if◌then◌else◌, Bool-cases, length, filter,
}
use fast_flow_transform.Prelude.Names.{
  Name, same, same_iff, same_lem, same_refl, member, set_of, IsNodup, member-set_of, set_of-IsNodup,
}
use fast_flow_transform.Registry.{Nodes}
use fast_flow_transform.Dag.Edges.{deps_of}

-- the items of `ds` that are not done
open_among : (Name → Bool) → List Name → ℕ
open_among done ds = length (filter (λ d. not (done d)) ds)

-- the number of dependencies of `k` that are not done
pub open_deps : Nodes → (Name → Bool) → Name → ℕ
unfolding open_among
open_deps ns done k = open_among done (set_of (deps_of ns k))

-- All dependencies of `k` are done.
abbrev pub settled : Nodes → (Name → Bool) → Name → Bool
settled ns done k = open_deps ns done k == 0

abbrev pub mark : Name → (Name → Bool) → Name → Bool
mark u done d = same d u || done d

pub open_deps-ext :
    (ns : Nodes) (p q : Name → Bool) (k : Name)
    → ((d : Name) → p d ≡ q d)
    → open_deps ns p k ≡ open_deps ns q k
open_deps-ext ns p q k h = ap (λ f. open_deps ns f k) (fun_ext h)

open_among-mark :
    (u : Name) (done : Name → Bool) (ds : List Name)
    → done u ≡ false
    → IsNodup ds
    → open_among (mark u done) ds + (if member u ds then 1 else 0) ≡ open_among done ds
unfolding open_among
open_among-mark u done [] h n = omega arith
open_among-mark u done (d ∷ ds) h n = elim (Bool-cases (same u d)) [
  | inl e ↦
      let p : u ≡ d = same_lem u d e in
      ground (arith, open_among-mark u done ds h n.1, rw p at h, rw (← p) at (n.0))
  | inr e ↦ ground (arith, open_among-mark u done ds h n.1, same_iff d u, same_iff u d)
]

open_among-none :
    (done : Name → Bool) (ds : List Name) (d : Name)
    → open_among done ds ≡ 0
    → member d ds ≡ true
    → done d ≡ true
unfolding open_among
open_among-none done [] d h m = cc
open_among-none done (x ∷ ds) d h m = elim (Bool-cases (same d x)) [
  | inl e ↦ rw (same_lem d x e) (ground arith)
  | inr e ↦ ground (arith, open_among-none done ds d)
]

open_among-some :
    (done : Name → Bool) (ds : List Name)
    → 0 < open_among done ds
    → (d : Name) × (member d ds ≡ true) × (done d ≡ false)
unfolding open_among
open_among-some done [] h = absurd (omega arith)
open_among-some done (x ∷ ds) h = elim (Bool-cases (done x)) [
  | inl e ↦ let (d, m, o) = open_among-some done ds (ground arith) in (d, ground arith, o)
  | inr e ↦ (x, ground (arith, same_refl x), e)
]

module _ (ns : Nodes) where
  -- Marking a new name lowers the degree of its dependents by one, and no other.
  pub open_deps-mark :
      (u : Name) (done : Name → Bool) (k : Name)
      → done u ≡ false
      → open_deps ns (mark u done) k + (if member u (deps_of ns k) then 1 else 0)
        ≡ open_deps ns done k
  unfolding open_deps
  open_deps-mark u done k h =
      rw (← member-set_of u (deps_of ns k))
        (open_among-mark u done (set_of (deps_of ns k)) h (set_of-IsNodup (deps_of ns k)))

  pub settled-done :
      (done : Name → Bool) (k d : Name)
      → settled ns done k ≡ true
      → member d (deps_of ns k) ≡ true
      → done d ≡ true
  unfolding open_deps
  settled-done done k d h m =
      open_among-none done (set_of (deps_of ns k)) d (ground arith)
        (member-set_of d (deps_of ns k) ∙ m)

  pub open_deps-some :
      (done : Name → Bool) (k : Name)
      → 0 < open_deps ns done k
      → (d : Name) × (member d (deps_of ns k) ≡ true) × (done d ≡ false)
  unfolding open_deps
  open_deps-some done k h =
      let (d, m, o) = open_among-some done (set_of (deps_of ns k)) h in
      (d, sym (member-set_of d (deps_of ns k)) ∙ m, o)

  filter-true : (xs : List Name) → length (filter (λ d. not false) xs) ≡ length xs
  filter-true [] = refl
  filter-true (x ∷ xs) = ap suc (filter-true xs)

  pub open_deps-start : (k : Name) → open_deps ns (λ _. false) k ≡ length (set_of (deps_of ns k))
  unfolding open_deps
  open_deps-start k = filter-true (set_of (deps_of ns k))
