-- ===== src/Prelude/Words.antt =====
-- Texts: prefixes, parts and words. Character classes are those of Python's `str`, and are arguments.
use Prim.Native.Char.{Char}
use Prim.Native.String as Str
use Prim.Native.String.append
use mathlib.Core.Option
use mathlib.Core.Path.{ap₂}
use text.Mathlib.TextLemmas.{cons-ne-nil, head-eq_of_cons-eq, tail-eq_of_cons-eq}
use fast_flow_transform.Prelude.{
  String, ◌≡◌, sym, ap, ◌∙◌, ◌↔◌, inl, inr, Bool, true, false, ◌||◌, Option, none, some, List, [],
  ◌∷◌, arith, if◌then◌else◌, Bool-cases,
}
use fast_flow_transform.Prelude.Names.{Name, same, same_iff}

-- `text[len(prefix):]` where `text.startswith(prefix)`.
unfoldable pub strip_prefix : Name → Name → Option Name
strip_prefix String.[] text = some text
strip_prefix (String.◌∷◌ c prefix) String.[] = none
strip_prefix (String.◌∷◌ c prefix) (String.◌∷◌ d text) =
    let rest = strip_prefix prefix text in
    if same (String.◌∷◌ c String.[]) (String.◌∷◌ d String.[]) then rest else none

unfoldable pub is_prefix : Name → Name → Bool
unfolding strip_prefix
is_prefix prefix text = elim (strip_prefix prefix text) [ none ↦ false | some _ ↦ true ]

-- `part in text`
unfoldable pub contains : Name → Name → Bool
unfolding is_prefix
contains part String.[] = is_prefix part String.[]
contains part (String.◌∷◌ c text) = is_prefix part (String.◌∷◌ c text) || contains part text

-- `text.split()`: the first word, which may be empty, and the others.
unfoldable pub split_from : (Char → Bool) → Name → Name × List Name
split_from is_space String.[] = (String.[], [])
split_from is_space (String.◌∷◌ c s) =
    let (word, words) = split_from is_space s in
    if is_space c
    then (String.[], if same word "" then words else word ∷ words)
    else (String.◌∷◌ c word, words)

unfoldable pub split_words : (Char → Bool) → Name → List Name
unfolding split_from
split_words is_space s =
    let (word, words) = split_from is_space s in if same word "" then words else word ∷ words

pub strip_prefix_iff :
    (prefix text rest : Name)
    → (strip_prefix prefix text ≡ some rest) ↔ (text ≡ Str.◌++◌ prefix rest)
unfolding strip_prefix
strip_prefix_iff String.[] text rest = (
  λ h. ap (λ o. Option.get_or o text) h ∙ sym (append.nil rest),
  λ h. ap (λ t. some t) (h ∙ append.nil rest),
)
strip_prefix_iff (String.◌∷◌ c prefix) String.[] rest = (
  λ h. absurd (ground arith),
  λ h. absurd (cons-ne-nil c (Str.◌++◌ prefix rest) (sym (h ∙ append.cons c prefix rest))),
)
strip_prefix_iff (String.◌∷◌ c prefix) (String.◌∷◌ d text) rest =
    let (there, back) = strip_prefix_iff prefix text rest in
    let (equal, one) = same_iff (String.◌∷◌ c String.[]) (String.◌∷◌ d String.[]) in
    (
      λ h. elim (Bool-cases (same (String.◌∷◌ c String.[]) (String.◌∷◌ d String.[]))) [
        | inl e ↦
            ap₂ (λ x t. String.◌∷◌ x t) (sym (head-eq_of_cons-eq (equal e))) (there (ground arith))
            ∙ sym (append.cons c prefix rest)
        | inr e ↦ absurd (ground arith)
      ],
      λ h.
          let q = h ∙ append.cons c prefix rest in
          let e = one (ap (λ x. String.◌∷◌ x String.[]) (sym (head-eq_of_cons-eq q))) in
          rw e (back (tail-eq_of_cons-eq q)),
    )
