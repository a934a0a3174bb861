-- ===== src/Selection/Tokens/Prefixes.antt =====
-- The prefixes of the tokens are apart from one another.
use Prim.Native.String as Str
use Prim.Native.String.append
use fast_flow_transform.Prelude.{◌≡◌, refl, ◌≢◌, inl, inr, none, arith, Option-cases}
use fast_flow_transform.Prelude.Names.{Name}
use fast_flow_transform.Prelude.Words.{strip_prefix, strip_prefix_iff}

module _ (want : Name) where
  pub result_tag : strip_prefix "result:" (Str.◌++◌ "tag:" want) ≡ none
  unfolding strip_prefix
  result_tag = rw (append.cons "t" "ag:" want) refl

  pub result_type : strip_prefix "result:" (Str.◌++◌ "type:" want) ≡ none
  unfolding strip_prefix
  result_type = rw (append.cons "t" "ype:" want) refl

  pub result_kind : strip_prefix "result:" (Str.◌++◌ "kind:" want) ≡ none
  unfolding strip_prefix
  result_kind = rw (append.cons "k" "ind:" want) refl

  pub tag_type : strip_prefix "tag:" (Str.◌++◌ "type:" want) ≡ none
  unfolding strip_prefix
  tag_type = rw (append.cons "t" "ype:" want, append.cons "y" "pe:" want) refl

  pub tag_kind : strip_prefix "tag:" (Str.◌++◌ "kind:" want) ≡ none
  unfolding strip_prefix
  tag_kind = rw (append.cons "k" "ind:" want) refl

  pub type_kind : strip_prefix "type:" (Str.◌++◌ "kind:" want) ≡ none
  unfolding strip_prefix
  type_kind = rw (append.cons "k" "ind:" want) refl

pub strip_prefix-absent :
    (prefix tok : Name)
    → strip_prefix prefix tok ≡ none
    → (want : Name) → tok ≢ Str.◌++◌ prefix want
strip_prefix-absent prefix tok h want e =
    let there = (strip_prefix_iff prefix tok want).1 e in absurd (ground arith)

pub strip_prefix-none :
    (prefix tok : Name)
    → ((want : Name) → tok ≢ Str.◌++◌ prefix want)
    → strip_prefix prefix tok ≡ none
strip_prefix-none prefix tok f = elim (Option-cases (strip_prefix prefix tok)) [
  | inl e ↦ e
  | inr (w, e) ↦ absurd (f w ((strip_prefix_iff prefix tok w).0 e))
]
