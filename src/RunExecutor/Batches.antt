-- ===== src/RunExecutor/Batches.antt =====
-- run_executor.py: how many workers a level gets, and how its names are divided among them.
pub mod Sizes
use fast_flow_transform.Prelude.{
  ℕ, zero, suc, ◌+◌, ◌-◌, ◌*◌, ◌/◌, ◌%◌, ◌^◌, ◌≤◌, ◌<◌, min, max, String, ◌≡◌, refl, sym, ap, ◌∙◌,
  ◌≢◌, ◌↔◌, ◌⊎◌, inl, inr, Bool, true, false, not, ◌&&◌, ◌||◌, Option, none, some, List, [], ◌∷◌,
  ◌++◌, map, foldl, arith, ltb, leb, ◌==◌, if◌then◌else◌, Bool-cases, ltb→lt, lt→ltb, length,
  length-append, is_empty, filter, concat, Option-cases, List-cases, all, any, All,
}
use fast_flow_transform.Prelude.Names.{
  Name, same, same_iff, same_lem, same_refl, member, add, set_of, IsNodup, member-add, add-IsNodup,
  member-set_of, set_of-IsNodup, member-append, member-filter, filter-IsNodup, IsSubset,
  length-subset, update, update-same, update-other,
}
use fast_flow_transform.Prelude.Int.{ℤ, pos, negsuc}
use fast_flow_transform.Prelude.Sorting.{sort}

-- The CLI parameter `jobs`.
pub data Jobs : Type 0 where
  number : ℤ → Jobs
  words : Name → Jobs

-- `str.strip().lower()` and `int(text)`, which is `none` where it raises `ValueError`.
pub record TextMethods : Type 0 where
  pub strip_lower : Name → Name
  pub read_int : Name → Option ℤ

abbrev count_jobs : ℤ → ℕ → ℕ
count_jobs (negsuc n) level_size = 1
count_jobs (pos zero) level_size = 1
count_jobs (pos (suc n)) level_size = min (suc n) level_size

-- `os.cpu_count() or 4`
abbrev cpus : Option ℕ → ℕ
cpus none = 4
cpus (some zero) = 4
cpus (some (suc n)) = suc n

engine_base : Name → ℕ → ℕ
engine_base engine cpu =
    if same engine "BQ"
    then min cpu 4
    else if same engine "SPK"
    then min (cpu * 2) 16
    else if same engine "DUCK" || (same engine "PG" || same engine "SNOW")
    then min cpu 8
    else cpu

-- `_resolve_jobs`
unfoldable pub resolve_jobs : TextMethods → Option ℕ → Jobs → ℕ → Name → ℕ
unfolding engine_base
resolve_jobs text cpu_count jobs zero engine = 0
resolve_jobs text cpu_count (number n) (suc size) engine = count_jobs n (suc size)
resolve_jobs text cpu_count (words w) (suc size) engine =
    if same (text.strip_lower w) "auto"
    then max 1 (min (engine_base engine (cpus cpu_count)) (suc size))
    else elim (text.read_int (text.strip_lower w)) [ none ↦ 1 | some n ↦ count_jobs n (suc size) ]

-- `groups[i].append(x)`
unfoldable pub append_at {ℓ} : {A : Type ℓ} → ℕ → A → List (List A) → List (List A)
append_at i x [] = []
append_at zero x (g ∷ gs) = (g ++ x ∷ []) ∷ gs
append_at (suc i) x (g ∷ gs) = g ∷ append_at i x gs

-- `[[] for _ in range(k)]`, `[0.0] * k`
unfoldable pub replicate {ℓ} : {A : Type ℓ} → ℕ → A → List A
replicate zero x = []
replicate (suc k) x = x ∷ replicate k x

-- The loop over `enumerate(names)`.
unfoldable pub round_robin : ℕ → ℕ → List Name → List (List Name) → List (List Name)
unfolding append_at
round_robin k idx [] groups = groups
round_robin k idx (x ∷ xs) groups = round_robin k (idx + 1) xs (append_at (idx % k) x groups)

-- Durations are floats: a type with the operations that the code uses.
pub record Duration : Type 1 where
  pub Seconds : Type 0
  pub zero_seconds : Seconds
  pub plus : Seconds → Seconds → Seconds
  pub at_most : Seconds → Seconds → Bool

module _ (time : Duration) where
  open time use {Seconds, zero_seconds, plus, at_most}

  -- `loads.index(min(loads))`, with the minimum itself: the first of the smallest.
  abbrev min_from : Seconds → List Seconds → ℕ × Seconds
  min_from x [] = (0, x)
  min_from x (y ∷ ys) =
      let (i, least) = min_from y ys in if at_most x least then (0, x) else (suc i, least)

  unfoldable pub least_index : List Seconds → ℕ
  least_index [] = 0
  least_index (x ∷ xs) = (min_from x xs).0

  unfoldable pub add_load : ℕ → Seconds → List Seconds → List Seconds
  add_load i d [] = []
  add_load zero d (x ∷ xs) = plus x d ∷ xs
  add_load (suc i) d (x ∷ xs) = x ∷ add_load i d xs

  -- `durations_s.get(nm, 0.0)`
  unfoldable pub duration_of : List (Name × Seconds) → Name → Seconds
  duration_of [] k = zero_seconds
  duration_of ((j, d) ∷ ds) k = if same j k then d else duration_of ds k

  -- The loop over `sorted_names`.
  unfoldable pub greedy :
      (Name → Seconds) → List Name → List (List Name) → List Seconds → List (List Name)
  unfolding append_at least_index add_load
  greedy seconds [] groups loads = groups
  greedy seconds (x ∷ xs) groups loads =
      greedy seconds xs (append_at (least_index loads) x groups)
        (add_load (least_index loads) (seconds x) loads)

  -- `_partition_groups`. An absent dict of durations is an empty one: the code tests it for truth.
  unfoldable pub partition_groups : List Name → ℕ → List (Name × Seconds) → List (List Name)
  unfolding round_robin replicate duration_of greedy sort
  partition_groups [] max_workers durations = []
  partition_groups (x ∷ []) max_workers durations = (x ∷ []) ∷ []
  partition_groups (x ∷ y ∷ xs) max_workers durations =
      let names = x ∷ y ∷ xs in
      let k = min max_workers (length names) in
      let seconds = duration_of durations in
      if leb max_workers 1
      then names ∷ []
      else if is_empty durations
      then round_robin k 0 names (replicate k [])
      else greedy seconds (sort (λ a b. at_most (seconds b) (seconds a)) names) (replicate k [])
          (replicate k zero_seconds)
