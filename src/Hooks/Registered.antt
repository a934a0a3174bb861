-- ===== src/Hooks/Registered.antt =====
-- hooks/registry.py: the registry of Python hooks.
use fast_flow_transform.Prelude.{ℕ, ◌&&◌, Option, none, some, List, [], ◌∷◌, ◌++◌, if◌then◌else◌}
use fast_flow_transform.Prelude.Names.{Name, same}
use fast_flow_transform.Prelude.Results.{Result, returns, raises}
use fast_flow_transform.Registry.{Node}

pub data When : Type 0 where
  on_run_start on_run_end before_model after_model : When

-- What running a hook can raise.
pub data HookError (E : Type 0) : Type 0 where
  no_hook_name no_hooks_directory no_hook_file : HookError E
  not_registered : (phase name : Name) → HookError E
  already_registered : (phase name : Name) → HookError E
  hook_raised : E → HookError E
  hook_failed : (idx : ℕ) → HookError E → HookError E

-- A Python hook gets the time and the model, if there is one.
abbrev pub Hook : (S E : Type 0) → Type 0
Hook S E = When → Option Node → S → S × Option E

-- `_HOOKS`: the hooks under their phase ("*" for every one) and name.
abbrev pub Hooks : (S E : Type 0) → Type 0
Hooks S E = List ((Name × Name) × Hook S E)

abbrev pub phase_of : When → Name
phase_of on_run_start = "on_run_start"
phase_of on_run_end = "on_run_end"
phase_of before_model = "before_model"
phase_of after_model = "after_model"

-- `name or ...`
abbrev pub or_else_text : Option Name → Name → Name
or_else_text none other = other
or_else_text (some t) other = if same t "" then other else t

module _ {S E : Type 0} where
  unfoldable pub hook_at : Hooks S E → Name → Name → Option (Hook S E)
  hook_at [] phase name = none
  hook_at (((p, k), fn) ∷ hooks) phase name =
      if same p phase && same k name then some fn else hook_at hooks phase name

  -- The decorator of `fft_hook`, for a function of some name.
  unfoldable pub fft_hook :
      Option Name → Option Name → Name → Hook S E → Hooks S E → Result (HookError E) (Hooks S E)
  unfolding hook_at
  fft_hook name when fn_name fn hooks =
      let hook_name = or_else_text name fn_name in
      let phase = or_else_text when "*" in
      elim (hook_at hooks phase hook_name) [
        | some old ↦ raises (already_registered phase hook_name)
        | none ↦ returns (hooks ++ ((phase, hook_name), fn) ∷ [])
      ]

  -- `resolve_hook`
  unfoldable pub resolve_hook : Hooks S E → When → Name → Result (HookError E) (Hook S E)
  unfolding hook_at
  resolve_hook hooks when name = elim (hook_at hooks (phase_of when) name) [
    | some fn ↦ returns fn
    | none ↦ elim (hook_at hooks "*" name) [
      | some fn ↦ returns fn
      | none ↦ raises (not_registered (phase_of when) name)
    ]
  ]
