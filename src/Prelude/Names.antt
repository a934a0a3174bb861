-- ===== src/Prelude/Names.antt =====
-- Names are texts. A Python set of names is a list without duplicates, read by `member`; a dict from
-- names is a function, or the list of its items in insertion order.
use Prim.Native.Nat.{◌≤◌, ◌<◌}
use Prim.Native.String.{String}
use mathlib.Core.Path.{◌≡◌, refl, ap}
use mathlib.Core.Logic.{inl, inr}
use mathlib.Core.Bool.{Bool, true, false, not, ◌&&◌, ◌||◌}
use mathlib.Core.List.{List, [], ◌∷◌, ◌++◌}
use native.Mathlib.Omega.{arith}
pub use text.Mathlib.Text.{◌==◌ as same}
pub use text.Mathlib.TextEquality.{eq_iff as same_iff}
use fast_flow_transform.Prelude.Tests.{if◌then◌else◌, Bool-cases}
use fast_flow_transform.Prelude.Lists.{length, filter}

abbrev pub Name : Type 0
Name = String

pub same_lem : (a b : Name) → same a b ≡ true → a ≡ b
same_lem a b h = (same_iff a b).0 h

pub same_refl : (a : Name) → same a a ≡ true
same_refl a = (same_iff a a).1 refl

-- `x in xs`
abbrev pub member : Name → List Name → Bool
member a [] = false
member a (x ∷ xs) = same a x || member a xs

-- `xs.add(x)` of a set
unfoldable pub add : Name → List Name → List Name
add a xs = if member a xs then xs else a ∷ xs

-- `set(xs)`
unfoldable pub set_of : List Name → List Name
unfolding add
set_of [] = []
set_of (x ∷ xs) = add x (set_of xs)

-- No name stands twice.
abbrev pub IsNodup : List Name → Type 0
IsNodup [] = Unit
IsNodup (x ∷ xs) = (member x xs ≡ false) × IsNodup xs

pub member-add : (a b : Name) (xs : List Name) → member a (add b xs) ≡ (same a b || member a xs)
unfolding add
member-add a b xs = ground (arith, same_iff a b)

pub add-IsNodup : (a : Name) (xs : List Name) → IsNodup xs → IsNodup (add a xs)
unfolding add
add-IsNodup a xs h = ground arith

pub member-set_of : (a : Name) (xs : List Name) → member a (set_of xs) ≡ member a xs
unfolding set_of
member-set_of a [] = refl
member-set_of a (x ∷ xs) = ground (arith, member-add a x (set_of xs), member-set_of a xs)

pub set_of-IsNodup : (xs : List Name) → IsNodup (set_of xs)
unfolding set_of
set_of-IsNodup [] = tt
set_of-IsNodup (x ∷ xs) = add-IsNodup x (set_of xs) (set_of-IsNodup xs)

pub member-append :
    (a : Name) (xs ys : List Name) → member a (xs ++ ys) ≡ (member a xs || member a ys)
member-append a [] ys = refl
member-append a (x ∷ xs) ys = ground (arith, member-append a xs ys)

pub member-filter :
    (keep : Name → Bool) (a : Name) (xs : List Name)
    → member a (filter keep xs) ≡ (member a xs && keep a)
member-filter keep a [] = refl
member-filter keep a (x ∷ xs) = elim (Bool-cases (same a x)) [
  | inl e ↦ let p : a ≡ x = same_lem a x e in ground (arith, member-filter keep a xs, ap keep p)
  | inr e ↦ ground (arith, member-filter keep a xs)
]

pub filter-IsNodup : (keep : Name → Bool) (xs : List Name) → IsNodup xs → IsNodup (filter keep xs)
filter-IsNodup keep [] h = tt
filter-IsNodup keep (x ∷ xs) h = ground (arith, filter-IsNodup keep xs h.1, member-filter keep x xs)

abbrev pub IsSubset : List Name → List Name → Type 0
IsSubset xs ys = (a : Name) → member a xs ≡ true → member a ys ≡ true

-- `xs` without the occurrences of `a`
abbrev pub without : Name → List Name → List Name
without a xs = filter (λ x. not (same a x)) xs

length-without-le : (a : Name) (xs : List Name) → length (without a xs) ≤ length xs
length-without-le a [] = omega arith
length-without-le a (x ∷ xs) = ground (arith, length-without-le a xs)

length-without-lt :
    (a : Name) (xs : List Name) → member a xs ≡ true → length (without a xs) < length xs
length-without-lt a [] h = cc
length-without-lt a (x ∷ xs) h = ground (arith, length-without-le a xs, length-without-lt a xs)

-- Distinct names of a list are at most as many as the list is long.
pub length-subset : (xs ys : List Name) → IsNodup xs → IsSubset xs ys → length xs ≤ length ys
length-subset [] ys n h = omega arith
length-subset (x ∷ xs) ys n h =
    let fewer = length-subset xs (without x ys) n.1 (λ a m. kept a m) in
    omega (arith, fewer, length-without-lt x ys (h x (ground (arith, same_refl x))))
  where
    kept : (a : Name) → member a xs ≡ true → member a (without x ys) ≡ true
    kept a m = elim (Bool-cases (same x a)) [
      | inl e ↦ absurd (ground (arith, n.0, ap (λ b. member b xs) (same_lem x a e)))
      | inr e ↦ ground (arith, member-filter (λ b. not (same x b)) a ys, h a)
    ]

unfoldable pub update {ℓ} : {V : Type ℓ} → (Name → V) → Name → V → Name → V
update f k v j = if same k j then v else f j

pub update-same {ℓ} :
    {V : Type ℓ} (f : Name → V) (k : Name) (v : V) (j : Name) → same k j ≡ true → update f k v j ≡ v
unfolding update
update-same f k v j h = rw h

pub update-other {ℓ} :
    {V : Type ℓ} (f : Name → V) (k : Name) (v : V) (j : Name)
    → same k j ≡ false
    → update f k v j ≡ f j
unfolding update
update-other f k v j h = rw h
