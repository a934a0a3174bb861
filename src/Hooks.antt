-- ===== src/Hooks.antt =====
-- cli/run.py and hooks/registry.py: the hooks of project.yml, which run before and after a model and at the
-- start and the end of a run. Logs and the values of the context that a hook gets are not modelled, except
-- the time and the model.
mod Registered
unfoldable pub use Registered.*
pub mod Applied
mod Samples
use Prim.Native.String as Str
use fast_flow_transform.Prelude.{
  ℕ, zero, suc, ◌+◌, ◌-◌, ◌*◌, ◌/◌, ◌%◌, ◌^◌, ◌≤◌, ◌<◌, min, max, String, ◌≡◌, refl, sym, ap, ◌∙◌,
  ◌≢◌, ◌↔◌, ◌⊎◌, inl, inr, Bool, true, false, not, ◌&&◌, ◌||◌, Option, none, some, List, [], ◌∷◌,
  ◌++◌, map, foldl, arith, ltb, leb, ◌==◌, if◌then◌else◌, Bool-cases, ltb→lt, lt→ltb, length,
  length-append, is_empty, filter, concat, Option-cases, List-cases, all, any, All,
}
use fast_flow_transform.Prelude.Names.{
  Name, same, same_iff, same_lem, same_refl, member, add, set_of, IsNodup, member-add, add-IsNodup,
  member-set_of, set_of-IsNodup, member-append, member-filter, filter-IsNodup, IsSubset,
  length-subset, update, update-same, update-other,
}
use mathlib.Core.Option
use fast_flow_transform.Prelude.Results.{Result, returns, raises, ◌>>=◌}
use fast_flow_transform.Prelude.Words.{is_prefix}
use fast_flow_transform.Registry.{Node}
use fast_flow_transform.Selection.Tokens.{TokenText, RunRow, parse_select, compile_selector}
use Registered.{
  When, on_run_start, on_run_end, before_model, after_model, Hook, Hooks, HookError, no_hook_name,
  no_hooks_directory, no_hook_file, hook_raised, hook_failed, resolve_hook,
}

pub data HookKind : Type 0 where
  sql_hook python_hook : HookKind

-- An entry of a list of hooks. An absent list is the empty one, as the code treats both alike.
pub record HookSpec : Type 0 where
  pub name : Option Name
  pub kind : HookKind
  pub sql : Option Name
  pub select : Option Name
  pub engines : List Name
  pub envs : List Name

-- What the hooks meet: the engine's name in lower case and the environment's, the methods of texts, the rows
-- of the last run, the hooks directory with its *.sql files (stem and text, in the order they are found),
-- Jinja and the executor. `S` is the state of the database.
pub record HookWorld (S E : Type 0) : Type 0 where
  pub engine_name : Name
  pub env_name : Name
  pub text : TokenText
  pub strip : Name → Name
  pub lstrip : Name → Name
  pub split_lines : Name → List Name
  pub rows : List RunRow
  pub hook_files : Option (List (Name × Name))
  pub render : When → Option Node → Name → Result E Name
  pub execute_hook_sql : Name → S → S × Option E
  pub python_hooks : Hooks S E

-- `spec.select or ""`, and of other options.
abbrev pub or_empty : Option Name → Name
or_empty o = Option.get_or o ""

-- `comment.replace(";", "")`
pub without_semicolons : Name → Name
without_semicolons String.[] = String.[]
without_semicolons (String.◌∷◌ c s) =
    let rest = without_semicolons s in
    if same (String.◌∷◌ c String.[]) ";" then rest else String.◌∷◌ c rest

-- `" " * (len(line) - len(stripped))`
pub blanks_for : Name → Name → Name
blanks_for String.[] stripped = String.[]
blanks_for (String.◌∷◌ c line) String.[] = Str.◌++◌ " " (blanks_for line String.[])
blanks_for (String.◌∷◌ c line) (String.◌∷◌ d stripped) = blanks_for line stripped

pub join_lines : List Name → Name
join_lines [] = ""
join_lines (l ∷ []) = l
join_lines (l ∷ m ∷ ls) = Str.◌++◌ l (Str.◌++◌ "\n" (join_lines (m ∷ ls)))

-- The dict from stems to files: a later file takes the place of an earlier one.
unfoldable pub file_of : List (Name × Name) → Name → Option Name
file_of [] k = none
file_of ((stem, body) ∷ files) k = elim (file_of files k) [
  | some later ↦ some later
  | none ↦ if same stem k then some body else none
]

module _ {S E : Type 0} (w : HookWorld S E) where
  -- The loop of `_execute_hook_sql` over the lines.
  unfoldable pub clean_line : Name → Name
  unfolding is_prefix without_semicolons blanks_for
  clean_line line =
      let stripped = w.lstrip line in
      if is_prefix "--" stripped
      then Str.◌++◌ (blanks_for line stripped) (without_semicolons stripped)
      else line

  -- `_execute_hook_sql`
  unfoldable pub execute_sql : Name → S → S × Option E
  unfolding clean_line join_lines
  execute_sql sql s =
      if same (w.strip sql) ""
      then (s, none)
      else w.execute_hook_sql (join_lines (map clean_line (w.split_lines (w.strip sql)))) s

  -- `_load_sql_hook_body`
  unfoldable pub load_sql_hook_body : HookSpec → Result (HookError E) Name
  unfolding file_of
  load_sql_hook_body spec =
      if not (same (w.strip (or_empty spec.sql)) "")
      then returns (or_empty spec.sql)
      else elim spec.name [
        | none ↦ raises no_hook_name
        | some name ↦ elim w.hook_files [
          | none ↦ raises no_hooks_directory
          | some files ↦ elim (file_of files name) [
            | none ↦ raises no_hook_file
            | some body ↦ returns body
          ]
        ]
      ]

  -- `_hook_matches_current_env`
  unfoldable pub hook_matches_current_env : HookSpec → Bool
  hook_matches_current_env spec =
      (is_empty spec.engines || member w.engine_name (map w.text.lower spec.engines))
      && (is_empty spec.envs || member w.env_name spec.envs)

  -- `_filter_active_specs`
  unfoldable pub filter_active_specs : List HookSpec → List HookSpec
  unfolding hook_matches_current_env
  filter_active_specs specs = filter hook_matches_current_env specs

  -- The test of the loop of `_model_hooks_for_when`.
  unfoldable pub is_applicable : Node → HookSpec → Bool
  unfolding parse_select compile_selector
  is_applicable n spec =
      let sel = w.strip (or_empty spec.select) in
      same sel "" || (compile_selector w.text w.rows (some (parse_select w.text (sel ∷ [])))).1 n

  -- `_model_hooks_for_when`, from the list of the time.
  unfoldable pub model_hooks_for_when : List HookSpec → Node → List HookSpec
  unfolding is_applicable
  model_hooks_for_when all_specs n = filter (is_applicable n) all_specs

  abbrev pub raised_by : S × Option E → S × Option (HookError E)
  raised_by (s, none) = (s, none)
  raised_by (s, some e) = (s, some (hook_raised e))

  -- `_execute_sql_hook`: an empty body, or one that renders to nothing, is passed over.
  unfoldable pub execute_sql_hook : When → Option Node → HookSpec → S → S × Option (HookError E)
  unfolding load_sql_hook_body execute_sql
  execute_sql_hook when n spec s = elim (load_sql_hook_body spec) [
    | raises e ↦ (s, some e)
    | returns body ↦
        if same (w.strip body) "" then (s, none) else elim (w.render when n (w.strip body)) [
          | raises e ↦ (s, some (hook_raised e))
          | returns sql ↦ if same (w.strip sql) "" then (s, none) else raised_by (execute_sql sql s)
        ]
  ]

  -- `_execute_python_hook`
  unfoldable pub execute_python_hook : When → Option Node → HookSpec → S → S × Option (HookError E)
  unfolding resolve_hook
  execute_python_hook when n spec s =
      if same (or_empty spec.name) ""
      then (s, some no_hook_name)
      else elim (resolve_hook w.python_hooks when (or_empty spec.name)) [
        | raises e ↦ (s, some e)
        | returns fn ↦ raised_by (fn when n s)
      ]

  unfoldable pub execute_kind :
      HookKind → When → Option Node → HookSpec → S → S × Option (HookError E)
  unfolding execute_sql_hook execute_python_hook
  execute_kind sql_hook when n spec s = execute_sql_hook when n spec s
  execute_kind python_hook when n spec s = execute_python_hook when n spec s

  abbrev pub as_failed : ℕ → S × Option (HookError E) → S × Option (HookError E)
  as_failed idx (s, none) = (s, none)
  as_failed idx (s, some e) = (s, some (hook_failed idx e))

  -- `_execute_single_hook`
  unfoldable pub execute_single_hook :
      When → Option Node → ℕ → HookSpec → S → S × Option (HookError E)
  unfolding hook_matches_current_env execute_kind
  execute_single_hook when n idx spec s =
      if hook_matches_current_env spec
      then as_failed idx (execute_kind spec.kind when n spec s)
      else (s, none)

  abbrev pub go_on :
      S × Option (HookError E) → (S → S × Option (HookError E)) → S × Option (HookError E)
  go_on (s, none) f = f s
  go_on (s, some e) f = (s, some e)

  -- The loop of `_run_hooks`.
  unfoldable pub hook_loop : When → Option Node → ℕ → List HookSpec → S → S × Option (HookError E)
  unfolding execute_single_hook
  hook_loop when n idx [] s = (s, none)
  hook_loop when n idx (spec ∷ specs) s =
      go_on (execute_single_hook when n idx spec s) (λ s'. hook_loop when n (suc idx) specs s')

  -- `_run_hooks`
  unfoldable pub run_hooks : When → Option Node → List HookSpec → S → S × Option (HookError E)
  unfolding filter_active_specs hook_loop
  run_hooks when n specs s = hook_loop when n 1 (filter_active_specs specs) s

  -- The hooks before or after a model, as `run_node` runs them.
  unfoldable pub run_model_hooks : When → Node → List HookSpec → S → S × Option (HookError E)
  unfolding run_hooks model_hooks_for_when
  run_model_hooks when n all_specs s = run_hooks when (some n) (model_hooks_for_when all_specs n) s
