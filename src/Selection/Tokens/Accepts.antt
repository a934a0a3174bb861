-- ===== src/Selection/Tokens/Accepts.antt =====
-- What a selector accepts, token by token.
use mathlib.Core.Option
use Prim.Native.String as Str
use Prim.Native.String.append
use fast_flow_transform.Prelude.{
  ◌≡◌, refl, ap, ◌∙◌, ◌≢◌, ◌↔◌, ◌⊎◌, inl, inr, true, false, not, Option, List, [], ◌∷◌, arith,
  Bool-cases, Option-cases, all, any, All,
}
use fast_flow_transform.Prelude.Names.{Name, same, same_iff, same_lem, member, member-filter}
use fast_flow_transform.Prelude.Words.{strip_prefix, strip_prefix_iff}
use fast_flow_transform.Registry.{Tags, no_tags, one_tag, tag_list, Node, relation_for}
use fast_flow_transform.Selection.Tokens.{
  TokenText, RunRow, parse_select, load_result_sets, result_pred, has_tag, kind_name, glob_pred,
  collect_rows, readable_rows, token_pred, build_predicates, selector, compile_selector,
}
use fast_flow_transform.Selection.Tokens.Prefixes.{
  result_tag, result_type, result_kind, tag_type, tag_kind, type_kind, strip_prefix-absent,
  strip_prefix-none,
}
use fast_flow_transform.Selection.Tokens.Results.{
  says, warns_of, collect_rows-sets, result_pred_ok, result_pred_err, result_pred_warn,
}

-- `w` is a tag of a node.
pub data HasTag : Tags → Name → Type 0 where
  only : {t w : Name} → t ≡ w → HasTag (one_tag t) w
  among : {w : Name} {ts : List Name} → member w ts ≡ true → HasTag (tag_list ts) w

has_tag_iff : (tags : Tags) (w : Name) → (has_tag tags w ≡ true) ↔ HasTag tags w
unfolding has_tag
has_tag_iff no_tags w = (λ h. absurd (ground arith), λ h. elim h [ ])
has_tag_iff (one_tag t) w =
    (λ h. only (same_lem t w h), λ h. elim h [ only e ↦ (same_iff t w).1 e ])
has_tag_iff (tag_list ts) w = (λ h. among h, λ h. elim h [ among m ↦ m ])

module _ (text : TokenText) where
  module _ (rows : List RunRow) (n : Node) where
    -- What a token asks of a node.
    pub data Accepts (tok : Name) : Type 0 where
      succeeded :
          (want : Name)
          → tok ≡ Str.◌++◌ "result:" want
          → text.lower want ≡ "ok"
          → any (says text "success" n.name) (readable_rows text rows) ≡ true
          → any (warns_of text n.name) (readable_rows text rows) ≡ false
          → Accepts tok
      failed :
          (want : Name)
          → tok ≡ Str.◌++◌ "result:" want
          → (text.lower want ≡ "error") ⊎ (text.lower want ≡ "fail")
          → any (says text "error" n.name) (readable_rows text rows) ≡ true
          → Accepts tok
      warned :
          (want : Name)
          → tok ≡ Str.◌++◌ "result:" want
          → text.lower want ≡ "warn"
          → any (warns_of text n.name) (readable_rows text rows) ≡ true
          → Accepts tok
      tagged : (want : Name) → tok ≡ Str.◌++◌ "tag:" want → HasTag n.meta.tags want → Accepts tok
      of_type :
          (want : Name)
          → tok ≡ Str.◌++◌ "type:" want
          → Option.get_or n.meta.materialized "table" ≡ want
          → Accepts tok
      of_kind : (want : Name) → tok ≡ Str.◌++◌ "kind:" want → kind_name n.kind ≡ want → Accepts tok
      globbed :
          ((want : Name)
            → (tok ≢ Str.◌++◌ "result:" want)
              × (tok ≢ Str.◌++◌ "tag:" want)
              × (tok ≢ Str.◌++◌ "type:" want)
              × (tok ≢ Str.◌++◌ "kind:" want))
          → (text.fnmatch n.name tok ≡ true) ⊎ (text.fnmatch (relation_for n.name) tok ≡ true)
          → Accepts tok

    by_result :
        (tok want : Name)
        → tok ≡ Str.◌++◌ "result:" want
        → result_pred text rows want n ≡ true
        → Accepts tok
    unfolding result_pred load_result_sets
    by_result tok want e h =
        let (oks, errs, wrns) =
          collect_rows-sets text (record { ok = []; err = []; wrn = [] }) (readable_rows text rows)
            n.name in
        let sets =
          collect_rows text (record { ok = []; err = []; wrn = [] }) (readable_rows text rows) in
        let kept = member-filter (λ k. not (member k sets.wrn)) n.name sets.ok in
        let w = text.lower want in
        elim (Bool-cases (same w "ok")) [
          | inl q ↦ succeeded want e (same_lem w "ok" q) (ground arith) (ground arith)
          | inr q ↦ elim (Bool-cases (same w "error")) [
            | inl r ↦ failed want e (inl (same_lem w "error" r)) (ground arith)
            | inr r ↦ elim (Bool-cases (same w "fail")) [
              | inl f ↦ failed want e (inr (same_lem w "fail" f)) (ground arith)
              | inr f ↦ elim (Bool-cases (same w "warn")) [
                | inl g ↦ warned want e (same_lem w "warn" g) (ground arith)
                | inr g ↦ absurd (ground arith)
              ]
            ]
          ]
        ]

    glob_cases :
        (tok : Name)
        → glob_pred text tok n ≡ true
        → (text.fnmatch n.name tok ≡ true) ⊎ (text.fnmatch (relation_for n.name) tok ≡ true)
    unfolding glob_pred
    glob_cases tok h = elim (Bool-cases (text.fnmatch n.name tok)) [
      | inl e ↦ inl e
      | inr e ↦ inr (ground arith)
    ]

    token_pred_accepted : (tok : Name) → token_pred text rows tok n ≡ true → Accepts tok
    unfolding token_pred
    token_pred_accepted tok h = elim (Option-cases (strip_prefix "result:" tok)) [
      | inr (want, e) ↦
          by_result tok want ((strip_prefix_iff "result:" tok want).0 e) (ground arith)
      | inl e1 ↦ elim (Option-cases (strip_prefix "tag:" tok)) [
        | inr (want, e) ↦
            tagged want ((strip_prefix_iff "tag:" tok want).0 e)
              ((has_tag_iff n.meta.tags want).0 (ground arith))
        | inl e2 ↦ elim (Option-cases (strip_prefix "type:" tok)) [
          | inr (want, e) ↦
              of_type want ((strip_prefix_iff "type:" tok want).0 e)
                (same_lem (Option.get_or n.meta.materialized "table") want (ground arith))
          | inl e3 ↦ elim (Option-cases (strip_prefix "kind:" tok)) [
            | inr (want, e) ↦
                of_kind want ((strip_prefix_iff "kind:" tok want).0 e)
                  (same_lem (kind_name n.kind) want (ground arith))
            | inl e4 ↦
                globbed
                  (λ want. (
                    strip_prefix-absent "result:" tok e1 want,
                    strip_prefix-absent "tag:" tok e2 want,
                    strip_prefix-absent "type:" tok e3 want,
                    strip_prefix-absent "kind:" tok e4 want,
                  ))
                  (glob_cases tok (ground arith))
          ]
        ]
      ]
    ]

    by_result_back :
        (tok want : Name)
        → tok ≡ Str.◌++◌ "result:" want
        → result_pred text rows want n ≡ true
        → token_pred text rows tok n ≡ true
    unfolding token_pred
    by_result_back tok want e h =
        let q = (strip_prefix_iff "result:" tok want).1 e in rw (token_pred, q) h

    accepted_token_pred : (tok : Name) → Accepts tok → token_pred text rows tok n ≡ true
    unfolding token_pred glob_pred
    accepted_token_pred tok (succeeded want e w a b) =
        by_result_back tok want e (result_pred_ok text rows n want w a b)
    accepted_token_pred tok (failed want e w a) =
        by_result_back tok want e (result_pred_err text rows n want w a)
    accepted_token_pred tok (warned want e w a) =
        by_result_back tok want e (result_pred_warn text rows n want w a)
    accepted_token_pred tok (tagged want e t) =
        let q0 = ap (strip_prefix "result:") e ∙ result_tag want in
        let q = (strip_prefix_iff "tag:" tok want).1 e in
        rw (token_pred, q0, q) ((has_tag_iff n.meta.tags want).1 t)
    accepted_token_pred tok (of_type want e t) =
        let q0 = ap (strip_prefix "result:") e ∙ result_type want in
        let q1 = ap (strip_prefix "tag:") e ∙ tag_type want in
        let q = (strip_prefix_iff "type:" tok want).1 e in
        rw (token_pred, q0, q1, q) ((same_iff (Option.get_or n.meta.materialized "table") want).1 t)
    accepted_token_pred tok (of_kind want e t) =
        let q0 = ap (strip_prefix "result:") e ∙ result_kind want in
        let q1 = ap (strip_prefix "tag:") e ∙ tag_kind want in
        let q2 = ap (strip_prefix "type:") e ∙ type_kind want in
        let q = (strip_prefix_iff "kind:" tok want).1 e in
        rw (token_pred, q0, q1, q2, q) ((same_iff (kind_name n.kind) want).1 t)
    accepted_token_pred tok (globbed f g) =
        let q1 = strip_prefix-none "result:" tok (λ want. (f want).0) in
        let q2 = strip_prefix-none "tag:" tok (λ want. (f want).1) in
        let q3 = strip_prefix-none "type:" tok (λ want. (f want).2) in
        let q4 = strip_prefix-none "kind:" tok (λ want. (f want).3) in
        rw (token_pred, q1, q2, q3, q4) (elim g [ inl a ↦ ground arith | inr a ↦ ground arith ])

    preds_iff :
        (tokens : List Name)
        → (all (λ q. q n) (build_predicates text rows tokens) ≡ true) ↔ All Accepts tokens
    unfolding build_predicates
    preds_iff [] = (λ h. tt, λ h. refl)
    preds_iff (tok ∷ tokens) =
        let (there, back) = preds_iff tokens in
        (
          λ h. (token_pred_accepted tok (ground arith), there (ground arith)),
          λ (a, more). let x = accepted_token_pred tok a in let y = back more in ground arith,
        )

    -- A node matches a selector exactly when every token accepts it: a result of the last run (of its rows
    -- before the first with a status that is no text), a tag, a materialization, a kind, or else a glob on its
    -- name or its relation. A row with warnings is a `result:warn`, whatever its status is.
    pub compile_selector_iff :
        (select_opt : Option (List Name))
        → ((compile_selector text rows select_opt).1 n ≡ true)
          ↔ All Accepts (parse_select text (Option.get_or select_opt []))
    unfolding compile_selector selector build_predicates
    compile_selector_iff select_opt = by_tokens (parse_select text (Option.get_or select_opt []))
      where
        by_tokens :
            (tokens : List Name)
            → (selector (build_predicates text rows tokens) n ≡ true) ↔ All Accepts tokens
        by_tokens [] = (λ h. tt, λ h. refl)
        by_tokens (tok ∷ tokens) = preds_iff (tok ∷ tokens)
