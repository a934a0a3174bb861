-- ===== src/Selection/Tokens.antt =====
-- cli/selectors.py: the tokens of `--select` and `--exclude`, and the results of the last run that
-- `result:` tokens ask for.
mod Prefixes
mod Results
pub mod Accepts
use Prim.Native.Char.{Char}
use mathlib.Core.Option
use fast_flow_transform.Prelude.{
  ℕ, zero, suc, ◌+◌, ◌-◌, ◌*◌, ◌/◌, ◌%◌, ◌^◌, ◌≤◌, ◌<◌, min, max, String, ◌≡◌, refl, sym, ap, ◌∙◌,
  ◌≢◌, ◌↔◌, ◌⊎◌, inl, inr, Bool, true, false, not, ◌&&◌, ◌||◌, Option, none, some, List, [], ◌∷◌,
  ◌++◌, map, foldl, arith, ltb, leb, ◌==◌, if◌then◌else◌, Bool-cases, ltb→lt, lt→ltb, length,
  length-append, is_empty, filter, concat, Option-cases, List-cases, all, any, All,
}
use fast_flow_transform.Prelude.Names.{
  Name, same, same_iff, same_lem, same_refl, member, add, set_of, IsNodup, member-add, add-IsNodup,
  member-set_of, set_of-IsNodup, member-append, member-filter, filter-IsNodup, IsSubset,
  length-subset, update, update-same, update-other,
}
use fast_flow_transform.Prelude.Words.{strip_prefix, contains, split_words}
use fast_flow_transform.Registry.{
  Kind, sql, python, Tags, no_tags, one_tag, tag_list, Node, relation_for,
}

-- `str.isspace` of a character, `str.lower`, and `fnmatch.fnmatch`.
pub record TokenText : Type 0 where
  pub is_space : Char → Bool
  pub lower : Name → Name
  pub fnmatch : Name → Name → Bool

-- An entry of `results` in run_results.json: `none` where the value is missing or has another type. A
-- status that is neither empty nor a text is bad.
pub record RunRow : Type 0 where
  pub row_name : Option Name
  pub status : Option Name
  pub bad_status : Bool
  pub message : Option Name
  pub warnings : Option ℕ

pub record ResultSets : Type 0 where
  pub ok : List Name
  pub err : List Name
  pub wrn : List Name

pub has_tag : Tags → Name → Bool
has_tag no_tags w = false
has_tag (one_tag t) w = same t w
has_tag (tag_list ts) w = member w ts

pub kind_name : Kind → Name
kind_name sql = "sql"
kind_name python = "python"

-- `_selector`
unfoldable pub selector : List (Node → Bool) → Node → Bool
selector [] n = true
selector (p ∷ preds) n = all (λ q. q n) (p ∷ preds)

module _ (text : TokenText) where
  -- `_parse_select`
  unfoldable pub parse_select : List Name → List Name
  unfolding split_words
  parse_select [] = []
  parse_select (p ∷ parts) = split_words text.is_space p ++ parse_select parts

  pub row_warns : RunRow → Bool
  unfolding contains
  row_warns r =
      (elim r.warnings [ none ↦ false | some n ↦ ltb 0 n ])
      || contains "warn" (text.lower (Option.get_or r.message ""))

  -- One round of the loop of `_load_result_sets` for a row with a name.
  unfoldable pub add_row : ResultSets → RunRow → Name → ResultSets
  unfolding row_warns add
  add_row sets r name =
      let status = text.lower (Option.get_or r.status "") in
      record {
        ok = if same status "success" then add name sets.ok else sets.ok;
        err =
            if same status "success"
            then sets.err
            else if same status "error"
            then add name sets.err
            else sets.err;
        wrn = if row_warns r then add name sets.wrn else sets.wrn;
      }

  -- The rows before the first whose status has no `lower`: there the loop is left.
  unfoldable pub readable_rows : List RunRow → List RunRow
  readable_rows [] = []
  readable_rows (r ∷ rows) = let rest = readable_rows rows in if r.bad_status then [] else r ∷ rest

  unfoldable pub collect_rows : ResultSets → List RunRow → ResultSets
  unfolding add_row
  collect_rows sets [] = sets
  collect_rows sets (r ∷ rows) = elim r.row_name [
    | none ↦ collect_rows sets rows
    | some name ↦ collect_rows (if same name "" then sets else add_row sets r name) rows
  ]

  -- `_load_result_sets`, from the rows of the last run; without a file there are none.
  unfoldable pub load_result_sets : List RunRow → ResultSets
  unfolding collect_rows readable_rows
  load_result_sets rows =
      let sets = collect_rows (record { ok = []; err = []; wrn = [] }) (readable_rows rows) in
      record sets { ok = filter (λ k. not (member k sets.wrn)) sets.ok }

  -- The predicate of a `result:` token; an unknown word matches nothing.
  unfoldable pub result_pred : List RunRow → Name → Node → Bool
  unfolding load_result_sets
  result_pred rows want n =
      let sets = load_result_sets rows in
      let w = text.lower want in
      if same w "ok"
      then member n.name sets.ok
      else if same w "error" || same w "fail"
      then member n.name sets.err
      else if same w "warn"
      then member n.name sets.wrn
      else false

  pub glob_pred : Name → Node → Bool
  glob_pred pat n = text.fnmatch n.name pat || text.fnmatch (relation_for n.name) pat

  -- The predicate that `_build_predicates` appends for a token.
  unfoldable pub token_pred : List RunRow → Name → Node → Bool
  unfolding strip_prefix result_pred has_tag kind_name glob_pred
  token_pred rows tok n = elim (strip_prefix "result:" tok) [
    | some want ↦ result_pred rows want n
    | none ↦ elim (strip_prefix "tag:" tok) [
      | some want ↦ has_tag n.meta.tags want
      | none ↦ elim (strip_prefix "type:" tok) [
        | some want ↦ same (Option.get_or n.meta.materialized "table") want
        | none ↦ elim (strip_prefix "kind:" tok) [
          | some want ↦ same (kind_name n.kind) want
          | none ↦ glob_pred tok n
        ]
      ]
    ]
  ]

  unfoldable pub build_predicates : List RunRow → List Name → List (Node → Bool)
  unfolding token_pred
  build_predicates rows tokens = map (token_pred rows) tokens

  -- `_compile_selector` of `--select`, absent or a list: the tokens and the predicate.
  unfoldable pub compile_selector : List RunRow → Option (List Name) → List Name × (Node → Bool)
  unfolding parse_select build_predicates selector
  compile_selector rows select_opt =
      let tokens = parse_select (Option.get_or select_opt []) in
      (tokens, selector (build_predicates rows tokens))
