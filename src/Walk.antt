-- ===== src/Walk.antt =====
-- The worklist loop that `_downstream_closure`, `_selected_subgraph_names` (cli/selectors.py) and
-- `compute_affected_models` (ci/changed_since.py) share: `seen` grows along `next`, and what is new goes
-- on the stack, whose head is the end of the Python list.
pub mod Reached
use fast_flow_transform.Prelude.{
  ℕ, zero, suc, ◌+◌, ◌-◌, ◌*◌, ◌/◌, ◌%◌, ◌^◌, ◌≤◌, ◌<◌, min, max, String, ◌≡◌, refl, sym, ap, ◌∙◌,
  ◌≢◌, ◌↔◌, ◌⊎◌, inl, inr, Bool, true, false, not, ◌&&◌, ◌||◌, Option, none, some, List, [], ◌∷◌,
  ◌++◌, map, foldl, arith, ltb, leb, ◌==◌, if◌then◌else◌, Bool-cases, ltb→lt, lt→ltb, length,
  length-append, is_empty, filter, concat, Option-cases, List-cases, all, any, All,
}
use fast_flow_transform.Prelude.Names.{
  Name, same, same_iff, same_lem, same_refl, member, add, set_of, IsNodup, member-add, add-IsNodup,
  member-set_of, set_of-IsNodup, member-append, member-filter, filter-IsNodup, IsSubset,
  length-subset, update, update-same, update-other,
}

pub record Walk : Type 0 where
  pub seen : List Name
  pub stack : List Name

-- `if v not in seen: seen.add(v); stack.append(v)`
unfoldable pub offer : Walk → Name → Walk
offer w v = if member v w.seen then w else record { seen = v ∷ w.seen; stack = v ∷ w.stack }

module _ (next : Name → List Name) where
  -- One round of the loop, after `cur` was popped and `rest` left on the stack.
  unfoldable pub expand : Walk → Name → List Name → Walk
  unfolding offer
  expand w cur rest = foldl offer (record { seen = w.seen; stack = rest }) (next cur)

  -- `while stack`
  unfoldable pub walk : ℕ → Walk → Walk
  unfolding expand
  walk zero w = w
  walk (suc fuel) w = elim w.stack [ [] ↦ w | cur ∷ rest ↦ walk fuel (expand w cur rest) ]

-- What the walk is meant to reach: the start, and whatever `next` leads to from there.
pub data Reach (next : Name → List Name) (start : List Name) : Name → Type 0 where
  at_start : {x : Name} → member x start ≡ true → Reach next start x
  along : {u v : Name} → Reach next start u → member v (next u) ≡ true → Reach next start v
