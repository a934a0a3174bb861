-- ===== src/Cache/Entries.antt =====
-- cache.py: the dict `entries` of `FingerprintCache`, and its methods.
use fast_flow_transform.Prelude.{
  ◌≡◌, refl, inl, inr, false, Option, none, some, List, [], ◌∷◌, map, arith, if◌then◌else◌,
  Bool-cases,
}
use fast_flow_transform.Prelude.Names.{Name, same, same_iff, member, IsNodup}

-- A dict from names to fingerprints, in insertion order.
abbrev pub Fingerprints : Type 0
Fingerprints = List (Name × Name)

unfoldable pub get : Fingerprints → Name → Option Name
get [] k = none
get ((j, v) ∷ es) k = if same j k then some v else get es k

unfoldable pub set : Fingerprints → Name → Name → Fingerprints
set [] k v = (k, v) ∷ []
set ((j, w) ∷ es) k v = if same j k then (j, v) ∷ es else (j, w) ∷ set es k v

unfoldable pub update_many : Fingerprints → Fingerprints → Fingerprints
unfolding set
update_many entries [] = entries
update_many entries ((k, v) ∷ fps) = update_many (set entries k v) fps

-- What was set is read, and nothing else changes.
pub get-set :
    (es : Fingerprints) (k v j : Name)
    → get (set es k v) j ≡ (if same k j then some v else get es j)
unfolding get set
get-set [] k v j = refl
get-set ((i, w) ∷ es) k v j =
    ground (arith, get-set es k v j, same_iff i k, same_iff i j, same_iff k j)

abbrev pub keys : Fingerprints → List Name
keys es = map (λ e. e.0) es

pub get-absent : (es : Fingerprints) (k : Name) → member k (keys es) ≡ false → get es k ≡ none
unfolding get
get-absent [] k h = refl
get-absent ((j, v) ∷ es) k h = ground (arith, get-absent es k, same_iff j k, same_iff k j)

-- A bulk update of a dict with distinct keys reads the new value where there is one, and the old one
-- elsewhere.
pub get-update_many :
    (entries fps : Fingerprints) (k : Name)
    → IsNodup (keys fps)
    → get (update_many entries fps) k ≡ elim (get fps k) [ some v ↦ some v | none ↦ get entries k ]
unfolding get update_many
get-update_many entries [] k h = refl
get-update_many entries ((j, v) ∷ fps) k h = elim (Bool-cases (same j k)) [
  | inl e ↦
      let q : k ≡ j = ground (arith, same_iff j k) in
      let none_left : get fps k ≡ none = rw q (get-absent fps j (ground arith)) in
      ground (arith, get-update_many (set entries j v) fps k h.1, get-set entries j v k)
  | inr e ↦ ground (arith, get-update_many (set entries j v) fps k h.1, get-set entries j v k)
]
