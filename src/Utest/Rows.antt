-- ===== src/Utest/Rows.antt =====
-- Sorting rows by all their columns: an order of normalized rows under which frames with the same rows
-- become equal.
use Prim.Native.String as Str
use Prim.Native.Char.{code}
use text.Mathlib.TextEquality.{Char-path}
use mathlib.Core.Path.{ap₂}
use mathlib.Core.List.Permᴰ
use mathlib.Core.List.{Permᴰ}
use fast_flow_transform.Prelude.{
  ℕ, ◌≡◌, refl, sym, ap, ◌∙◌, inl, inr, Bool, true, false, not, ◌||◌, List, [], ◌∷◌, map, arith,
  leb, if◌then◌else◌, Bool-cases,
}
use fast_flow_transform.Prelude.Names.{Name}
use fast_flow_transform.Prelude.Sorting.{insert, sort}
use fast_flow_transform.Utest.{Cell, Frame, normalize_cell, normalize_rows}

-- A test that orders the values of a type.
record Ordered {A : Type 0} (le : A → A → Bool) : Type 0 where
  total : (x y : A) → le x y ≡ false → le y x ≡ true
  antisym : (x y : A) → le x y ≡ true → le y x ≡ true → x ≡ y
  transitive : (x y z : A) → le x y ≡ true → le y z ≡ true → le x z ≡ true

unfoldable lex : {A : Type 0} → (A → A → Bool) → List A → List A → Bool
lex le [] ys = true
lex le (x ∷ xs) [] = false
lex le (x ∷ xs) (y ∷ ys) = let rest = lex le xs ys in if le x y then not (le y x) || rest else false

module _ {A : Type 0} (le : A → A → Bool) (o : Ordered le) where
  lex_total : (xs ys : List A) → lex le xs ys ≡ false → lex le ys xs ≡ true
  unfolding lex
  lex_total [] ys h = absurd (ground (arith, h))
  lex_total (x ∷ xs) [] h = refl
  lex_total (x ∷ xs) (y ∷ ys) h = ground (arith, lex_total xs ys, o.total x y)

  lex_antisym : (xs ys : List A) → lex le xs ys ≡ true → lex le ys xs ≡ true → xs ≡ ys
  unfolding lex
  lex_antisym [] [] h k = refl
  lex_antisym [] (y ∷ ys) h k = absurd (ground (arith, k))
  lex_antisym (x ∷ xs) [] h k = absurd (ground (arith, h))
  lex_antisym (x ∷ xs) (y ∷ ys) h k =
      ap₂ (λ a b. a ∷ b) (o.antisym x y (ground arith) (ground arith))
        (lex_antisym xs ys (ground arith) (ground arith))

  lex_transitive :
      (xs ys zs : List A) → lex le xs ys ≡ true → lex le ys zs ≡ true → lex le xs zs ≡ true
  unfolding lex
  lex_transitive [] ys zs h k = refl
  lex_transitive (x ∷ xs) [] zs h k = absurd (ground (arith, h))
  lex_transitive (x ∷ xs) (y ∷ ys) [] h k = absurd (ground (arith, k))
  lex_transitive (x ∷ xs) (y ∷ ys) (z ∷ zs) h k = ground (
    arith,
    h,
    k,
    lex_transitive xs ys zs,
    o.transitive x y z,
    o.transitive z x y,
    o.transitive y z x,
  )

  lex-Ordered : Ordered (lex le)
  lex-Ordered = record { total = lex_total; antisym = lex_antisym; transitive = lex_transitive }

leb-Ordered : Ordered leb
leb-Ordered = record {
  total = λ x y h. ground (arith, h);
  antisym = λ x y h k. ground (arith, h, k);
  transitive = λ x y z h k. ground (arith, h, k);
}

codes : Name → List ℕ
codes Str.[] = []
codes (Str.◌∷◌ c s) = code c ∷ codes s

codes_injective : (s t : Name) → codes s ≡ codes t → s ≡ t
unfolding codes
codes_injective Str.[] Str.[] h = refl
codes_injective Str.[] (Str.◌∷◌ d t) h = absurd (ground (arith, h))
codes_injective (Str.◌∷◌ c s) Str.[] h = absurd (ground (arith, h))
codes_injective (Str.◌∷◌ c s) (Str.◌∷◌ d t) h =
    let same_code : code c ≡ code d = cc in
    let same_codes : codes s ≡ codes t = cc in
    ap₂ (λ a b. Str.◌∷◌ a b) (Char-path c d same_code) (codes_injective s t same_codes)

row_codes : List Cell → List (List ℕ)
row_codes row = map codes (map normalize_cell row)

rows_le : List (List ℕ) → List (List ℕ) → Bool
rows_le = lex (lex leb)

rows_le-Ordered : Ordered rows_le
unfolding rows_le
rows_le-Ordered = lex-Ordered (lex leb) (lex-Ordered leb leb-Ordered)

module _ {A : Type 0} (le : A → A → Bool) (o : Ordered le) where
  insert_commutes :
      (a b : A) (xs : List A) → insert le a (insert le b xs) ≡ insert le b (insert le a xs)
  unfolding insert
  insert_commutes a b [] = elim (Bool-cases (le a b)) [
    | inl e ↦ elim (Bool-cases (le b a)) [
      | inl f ↦ rw (o.antisym a b e f) refl
      | inr f ↦ rw (e, f) refl
    ]
    | inr e ↦ rw (e, o.total a b e) refl
  ]
  insert_commutes a b (x ∷ xs) = elim (Bool-cases (le a x)) [
    | inl e ↦ elim (Bool-cases (le b x)) [
      | inl f ↦ elim (Bool-cases (le a b)) [
        | inl g ↦ elim (Bool-cases (le b a)) [
          | inl h ↦
              ap (λ c. insert le c (insert le b (x ∷ xs))) (o.antisym a b g h)
              ∙ ap (λ c. insert le b (insert le c (x ∷ xs))) (sym (o.antisym a b g h))
          | inr h ↦ rw (e, f, g, h) refl
        ]
        | inr g ↦ rw (e, f, g, o.total a b g, e) refl
      ]
      | inr f ↦ elim (Bool-cases (le b a)) [
        | inl h ↦ absurd (ground (arith, o.transitive b a x h e, f))
        | inr h ↦ rw (e, f, h, e) refl
      ]
    ]
    | inr e ↦ elim (Bool-cases (le b x)) [
      | inl f ↦ elim (Bool-cases (le a b)) [
        | inl g ↦ absurd (ground (arith, o.transitive a b x g f, e))
        | inr g ↦ rw (e, f, g, e) refl
      ]
      | inr f ↦ rw (e, f, e, insert_commutes a b xs) refl
    ]
  ]

  sort_perm : {xs ys : List A} → Permᴰ xs ys → sort le xs ≡ sort le ys
  unfolding sort
  sort_perm Permᴰ.nil = refl
  sort_perm (Permᴰ.cons e p) = ap₂ (insert le) e (sort_perm p)
  sort_perm (Permᴰ.swap {a = a} {b = b} {l = l} e d) =
      rw (← e, ← d) (insert_commutes a b (sort le l))
  sort_perm (Permᴰ.trans p q) = sort_perm p ∙ sort_perm q

module _ {A B : Type 0} (f : A → B) (le : B → B → Bool) where
  abbrev by_key : A → A → Bool
  by_key x y = le (f x) (f y)

  map-insert : (a : A) (xs : List A) → map f (insert by_key a xs) ≡ insert le (f a) (map f xs)
  unfolding insert
  map-insert a [] = refl
  map-insert a (x ∷ xs) = elim (Bool-cases (le (f a) (f x))) [
    | inl e ↦ rw e refl
    | inr e ↦ rw (e, map-insert a xs) refl
  ]

  map-sort : (xs : List A) → map f (sort by_key xs) ≡ sort le (map f xs)
  unfolding sort
  map-sort [] = refl
  map-sort (x ∷ xs) = map-insert x (sort by_key xs) ∙ ap (insert le (f x)) (map-sort xs)

map_injective :
    {A B : Type 0} (f : A → B)
    → ((x y : A) → f x ≡ f y → x ≡ y)
    → (xs ys : List A) → map f xs ≡ map f ys
    → xs ≡ ys
map_injective f h [] [] e = refl
map_injective f h [] (y ∷ ys) e = absurd (ground (arith, e))
map_injective f h (x ∷ xs) [] e = absurd (ground (arith, e))
map_injective f h (x ∷ xs) (y ∷ ys) e =
    let same_head : f x ≡ f y = cc in
    let same_tail : map f xs ≡ map f ys = cc in
    ap₂ (λ a b. a ∷ b) (h x y same_head) (map_injective f h xs ys same_tail)

module _ {A : Type 0} (le : A → A → Bool) where
  inserted : (a : A) (xs : List A) → Permᴰ (insert le a xs) (a ∷ xs)
  unfolding insert
  inserted a [] = Permᴰ.refl (a ∷ [])
  inserted a (x ∷ xs) = elim (Bool-cases (le a x)) [
    | inl e ↦ rw e (Permᴰ.refl (a ∷ x ∷ xs))
    | inr e ↦ rw e (Permᴰ.trans (Permᴰ.cons refl (inserted a xs)) (Permᴰ.swap refl refl))
  ]

  reordered : (xs : List A) → Permᴰ (sort le xs) xs
  unfolding sort
  reordered [] = Permᴰ.nil
  reordered (x ∷ xs) = Permᴰ.trans (inserted x (sort le xs)) (Permᴰ.cons refl (reordered xs))

-- A sort by all columns.
pub sort_rows : Frame → Frame
sort_rows df = record df { rows = sort (by_key row_codes rows_le) df.rows }

pub sort_rows-columns : (df : Frame) → (sort_rows df).columns ≡ df.columns
unfolding sort_rows
sort_rows-columns df = refl

pub sort_rows-perm : (df : Frame) → Permᴰ (sort_rows df).rows df.rows
unfolding sort_rows
sort_rows-perm df = reordered (by_key row_codes rows_le) df.rows

codes_rows : (rows : List (List Cell)) → map (map codes) (normalize_rows rows) ≡ map row_codes rows
unfolding row_codes
codes_rows [] = refl
codes_rows (row ∷ rows) = ap (λ rs. row_codes row ∷ rs) (codes_rows rows)

pub sort_rows-canonical :
    (df df' : Frame)
    → Permᴰ df.rows df'.rows
    → normalize_rows (sort_rows df).rows ≡ normalize_rows (sort_rows df').rows
unfolding sort_rows
sort_rows-canonical df df' h =
    let same_codes : map row_codes (sort_rows df).rows ≡ map row_codes (sort_rows df').rows =
      map-sort row_codes rows_le df.rows
      ∙ sort_perm rows_le rows_le-Ordered (Permᴰ.map row_codes h)
      ∙ sym (map-sort row_codes rows_le df'.rows) in
    map_injective (map codes) (map_injective codes codes_injective) _ _
      (codes_rows (sort_rows df).rows ∙ same_codes ∙ sym (codes_rows (sort_rows df').rows))
