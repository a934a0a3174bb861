-- ===== src/Prelude/Sorting.antt =====
-- `sorted` and `list.sort`: stable sorting by a Boolean order, and the order of texts.
use Prim.Native.Nat.{ℕ, Ordering, compare as compare_ℕ}
use Prim.Native.Char.{code}
use Prim.Native.String.compare
use Prim.Native.String.{String, compare, then as in_turn}
use mathlib.Core.Path.{◌≡◌, refl, ◌∙◌}
use mathlib.Core.Bool.{Bool, true, false, ◌||◌}
use mathlib.Core.List.Perm
use mathlib.Core.List.{List, [], ◌∷◌, Perm}
use native.Mathlib.Omega.{arith}
use text.Mathlib.TextEquality.{eq_iff as same_iff}
use fast_flow_transform.Prelude.Tests.{if◌then◌else◌}
use fast_flow_transform.Prelude.Names.{Name, same, member, IsNodup}

module _ {ℓ} {A : Type ℓ} where
  -- `sorted` keeps the order of items that the order calls equal: an item goes before its equals,
  -- which stood behind it.
  unfoldable pub insert : (A → A → Bool) → A → List A → List A
  insert le a [] = a ∷ []
  insert le a (x ∷ xs) = let rest = insert le a xs in if le a x then a ∷ x ∷ xs else x ∷ rest

  unfoldable pub sort : (A → A → Bool) → List A → List A
  unfolding insert
  sort le [] = []
  sort le (x ∷ xs) = insert le x (sort le xs)

  insert-perm : (le : A → A → Bool) (a : A) (xs : List A) → Perm (insert le a xs) (a ∷ xs)
  unfolding insert
  insert-perm le a [] = Perm.refl _
  insert-perm le a (x ∷ xs) = ground (
    arith,
    Perm.refl (a ∷ x ∷ xs),
    Perm.trans (Perm.cons x (insert-perm le a xs)) (Perm.swap a x xs),
  )

  pub sort-perm : (le : A → A → Bool) (xs : List A) → Perm (sort le xs) xs
  unfolding sort
  sort-perm le [] = Perm.refl _
  sort-perm le (x ∷ xs) = Perm.trans (insert-perm le x (sort le xs)) (Perm.cons x (sort-perm le xs))

  abbrev pub IsSorted : (A → A → Bool) → List A → Type 0
  IsSorted le [] = Unit
  IsSorted le (x ∷ []) = Unit
  IsSorted le (x ∷ y ∷ xs) = (le x y ≡ true) × IsSorted le (y ∷ xs)

  module _ (le : A → A → Bool) (total : (a b : A) → le a b ≡ false → le b a ≡ true) where
    insert-IsSorted : (a : A) (xs : List A) → IsSorted le xs → IsSorted le (insert le a xs)
    unfolding insert
    insert-IsSorted a [] h = tt
    insert-IsSorted a (x ∷ []) h = ground (arith, total a x)
    insert-IsSorted a (x ∷ y ∷ xs) h =
        ground (arith, total a x, total a y, insert-IsSorted a (y ∷ xs) h.1)

    pub sort-IsSorted : (xs : List A) → IsSorted le (sort le xs)
    unfolding sort
    sort-IsSorted [] = tt
    sort-IsSorted (x ∷ xs) = insert-IsSorted x (sort le xs) (sort-IsSorted xs)

-- Python compares texts by code points.
unfoldable pub name_leb : Name → Name → Bool
name_leb a b = elim (compare a b) [ Ordering.gt ↦ false | _ ↦ true ]

-- `sorted(names)`
unfoldable pub sorted : List Name → List Name
unfolding sort name_leb
sorted = sort name_leb

pub member-insert :
    (le : Name → Name → Bool) (a b : Name) (xs : List Name)
    → member a (insert le b xs) ≡ (same a b || member a xs)
unfolding insert
member-insert le a b [] = refl
member-insert le a b (x ∷ xs) = ground (arith, member-insert le a b xs)

pub member-sort :
    (le : Name → Name → Bool) (a : Name) (xs : List Name) → member a (sort le xs) ≡ member a xs
unfolding sort
member-sort le a [] = refl
member-sort le a (x ∷ xs) = ground (arith, member-insert le a x (sort le xs), member-sort le a xs)

pub insert-IsNodup :
    (le : Name → Name → Bool) (a : Name) (xs : List Name)
    → member a xs ≡ false
    → IsNodup xs
    → IsNodup (insert le a xs)
unfolding insert
insert-IsNodup le a [] m h = (refl, tt)
insert-IsNodup le a (x ∷ xs) m h =
    ground (arith, insert-IsNodup le a xs, member-insert le x a xs, same_iff a x, same_iff x a)

sort-IsNodup : (le : Name → Name → Bool) (xs : List Name) → IsNodup xs → IsNodup (sort le xs)
unfolding sort
sort-IsNodup le [] h = tt
sort-IsNodup le (x ∷ xs) h =
    insert-IsNodup le x (sort le xs) (member-sort le x xs ∙ h.0) (sort-IsNodup le xs h.1)

pub member-sorted : (a : Name) (xs : List Name) → member a (sorted xs) ≡ member a xs
unfolding sorted
member-sorted = member-sort name_leb

pub sorted-IsNodup : (xs : List Name) → IsNodup xs → IsNodup (sorted xs)
unfolding sorted
sorted-IsNodup = sort-IsNodup name_leb

flip : Ordering → Ordering
flip Ordering.lt = Ordering.gt
flip Ordering.eq = Ordering.eq
flip Ordering.gt = Ordering.lt

compare_ℕ-flip : (m n : ℕ) → compare_ℕ m n ≡ flip (compare_ℕ n m)
unfolding flip
compare_ℕ-flip m n = ground arith

in_turn-flip : (o p q r : Ordering) → o ≡ flip p → q ≡ flip r → in_turn o q ≡ flip (in_turn p r)
unfolding flip
in_turn-flip o p q r e f = ground arith

compare-flip : (a b : Name) → compare a b ≡ flip (compare b a)
unfolding flip
compare-flip String.[] String.[] = refl
compare-flip String.[] (String.◌∷◌ d b) = rw (compare.nil-cons d b, compare.cons-nil d b)
compare-flip (String.◌∷◌ c a) String.[] = rw (compare.nil-cons c a, compare.cons-nil c a)
compare-flip (String.◌∷◌ c a) (String.◌∷◌ d b) =
    rw (compare.cons-cons c d a b, compare.cons-cons d c b a)
      (in_turn-flip _ _ _ _ (compare_ℕ-flip (code c) (code d)) (compare-flip a b))

pub name_leb_total : (a b : Name) → name_leb a b ≡ false → name_leb b a ≡ true
unfolding name_leb flip
name_leb_total a b h = ground (arith, compare-flip a b)
