-- ===== src/RunExecutor/Batches/Sizes.antt =====
-- How many workers there are, and that the batches hold each name once.
use mathlib.Core.List.Perm
use mathlib.Core.List.{Perm, append-nil, append_assoc, perm_middle}
use fast_flow_transform.Prelude.{
  ℕ, zero, suc, ◌+◌, ◌%◌, ◌≤◌, ◌<◌, min, max, ◌≡◌, refl, sym, ap, ◌∙◌, inl, inr, Option, none, some,
  List, [], ◌∷◌, ◌++◌, arith, leb, Bool-cases, length, is_empty, concat,
}
use fast_flow_transform.Prelude.Names.{Name, same}
use fast_flow_transform.Prelude.Int.{ℤ, pos, negsuc}
use fast_flow_transform.Prelude.Sorting.{sort, sort-perm}
use fast_flow_transform.RunExecutor.Batches.{
  Jobs, number, words, TextMethods, count_jobs, resolve_jobs, append_at, replicate, round_robin,
  Duration, min_from, least_index, add_load, duration_of, greedy, partition_groups,
}

-- A level with nodes gets at least one worker and at most one for each node; an empty level gets none.
pub resolve_jobs_bounds :
    (text : TextMethods) (cpu_count : Option ℕ) (jobs : Jobs) (level_size : ℕ) (engine : Name)
    → (resolve_jobs text cpu_count jobs level_size engine ≤ level_size)
      × (0 < level_size → 0 < resolve_jobs text cpu_count jobs level_size engine)
unfolding resolve_jobs
resolve_jobs_bounds text cpu_count jobs zero engine = (omega arith, λ h. h)
resolve_jobs_bounds text cpu_count (number (pos zero)) (suc n) engine = ground arith
resolve_jobs_bounds text cpu_count (number (pos (suc k))) (suc n) engine = ground arith
resolve_jobs_bounds text cpu_count (number (negsuc k)) (suc n) engine = ground arith
resolve_jobs_bounds text cpu_count (words w) (suc n) engine =
    elim (Bool-cases (same (text.strip_lower w) "auto")) [
      | inl e ↦ rw e (omega arith)
      | inr e ↦ rw e (read (text.read_int (text.strip_lower w)))
    ]
  where
    read :
        (o : Option ℤ)
        → let workers : ℕ = elim o [ none ↦ 1 | some k ↦ count_jobs k (suc n) ] in
          (workers ≤ suc n) × (0 < suc n → 0 < workers)
    read none = omega arith
    read (some (pos zero)) = omega arith
    read (some (pos (suc k))) = omega arith
    read (some (negsuc k)) = omega arith

append_at-perm {ℓ} :
    {A : Type ℓ} (i : ℕ) (x : A) (gs : List (List A))
    → i < length gs
    → Perm (concat (append_at i x gs)) (x ∷ concat gs)
unfolding append_at
append_at-perm i x [] h = absurd (omega arith)
append_at-perm zero x (g ∷ gs) h = rw append_assoc (perm_middle g (concat gs))
append_at-perm (suc i) x (g ∷ gs) h =
    Perm.trans (Perm.append_left g (append_at-perm i x gs (omega arith)))
      (perm_middle g (concat gs))

length-append_at {ℓ} :
    {A : Type ℓ} (i : ℕ) (x : A) (gs : List (List A)) → length (append_at i x gs) ≡ length gs
unfolding append_at
length-append_at i x [] = refl
length-append_at zero x (g ∷ gs) = refl
length-append_at (suc i) x (g ∷ gs) = ap suc (length-append_at i x gs)

length-replicate {ℓ} : {A : Type ℓ} (k : ℕ) (x : A) → length (replicate k x) ≡ k
unfolding replicate
length-replicate zero x = refl
length-replicate (suc k) x = ap suc (length-replicate k x)

abbrev nothing : List Name
nothing = []

concat-replicate : (k : ℕ) → concat (replicate k nothing) ≡ nothing
unfolding replicate
concat-replicate zero = refl
concat-replicate (suc k) = concat-replicate k

-- A loop that appends each name to one of the groups keeps their number and their names.
record Placed (xs : List Name) (groups after : List (List Name)) : Type 0 where
  all_placed : Perm (concat after) (xs ++ concat groups)
  same_count : length after ≡ length groups

Placed-cons :
    (i : ℕ) (x : Name) (xs : List Name) (groups after : List (List Name))
    → i < length groups
    → Placed xs (append_at i x groups) after
    → Placed (x ∷ xs) groups after
Placed-cons i x xs groups after h p = record {
  all_placed = Perm.trans p.all_placed (
      Perm.trans (Perm.append_left xs (append_at-perm i x groups h))
        (perm_middle xs (concat groups)));
  same_count = p.same_count ∙ length-append_at i x groups;
}

round_robin-Placed :
    (k idx : ℕ) (xs : List Name) (groups : List (List Name))
    → 0 < k
    → length groups ≡ k
    → Placed xs groups (round_robin k idx xs groups)
unfolding round_robin
round_robin-Placed k idx [] groups h e = record { all_placed = Perm.refl _; same_count = refl }
round_robin-Placed k idx (x ∷ xs) groups h e = Placed-cons (idx % k) x xs groups _ (grind arith) (
    round_robin-Placed k (idx + 1) xs (append_at (idx % k) x groups) h
      (length-append_at (idx % k) x groups ∙ e))

module _ (time : Duration) where
  open time use {Seconds, zero_seconds, plus, at_most}

  min_from-lt : (x : Seconds) (xs : List Seconds) → (min_from time x xs).0 < suc (length xs)
  min_from-lt x [] = omega arith
  min_from-lt x (y ∷ ys) = ground (arith, min_from-lt y ys)

  least_index-lt : (loads : List Seconds) → 0 < length loads → least_index time loads < length loads
  unfolding least_index
  least_index-lt [] h = h
  least_index-lt (x ∷ xs) h = min_from-lt x xs

  length-add_load :
      (i : ℕ) (d : Seconds) (xs : List Seconds) → length (add_load time i d xs) ≡ length xs
  unfolding add_load
  length-add_load i d [] = refl
  length-add_load zero d (x ∷ xs) = refl
  length-add_load (suc i) d (x ∷ xs) = ap suc (length-add_load i d xs)

  greedy-Placed :
      (seconds : Name → Seconds) (xs : List Name) (groups : List (List Name)) (loads : List Seconds)
      → 0 < length loads
      → length groups ≡ length loads
      → Placed xs groups (greedy time seconds xs groups loads)
  unfolding greedy
  greedy-Placed seconds [] groups loads h e = record { all_placed = Perm.refl _; same_count = refl }
  greedy-Placed seconds (x ∷ xs) groups loads h e =
      let i = least_index time loads in
      let d = seconds x in
      Placed-cons i x xs groups _ (omega (arith, least_index-lt loads h)) (
        greedy-Placed seconds xs (append_at i x groups) (add_load time i d loads)
          (omega (arith, length-add_load i d loads))
          (length-append_at i x groups ∙ (e ∙ sym (length-add_load i d loads))))

  from_empty :
      (k : ℕ) (xs ys : List Name) (after : List (List Name))
      → Placed xs (replicate k nothing) after
      → Perm xs ys
      → Perm (concat after) ys × (length after ≡ k)
  from_empty k xs ys after p q = (
    Perm.trans (rw append-nil at (rw (concat-replicate k) at (p.all_placed))) q,
    p.same_count ∙ length-replicate k nothing,
  )

  -- The batches hold the names of the level, each as often as it was given, whatever the durations
  -- are; there are at most `max_workers` of them (one if that is 0), and at most one for each name.
  pub partition_groups-perm :
      (names : List Name) (max_workers : ℕ) (durations : List (Name × Seconds))
      → Perm (concat (partition_groups time names max_workers durations)) names
        × (length (partition_groups time names max_workers durations) ≤ max 1 max_workers)
        × (length (partition_groups time names max_workers durations) ≤ length names)
  unfolding partition_groups
  partition_groups-perm [] w ds = (Perm.refl _, omega arith, omega arith)
  partition_groups-perm (x ∷ []) w ds = (Perm.refl _, omega arith, omega arith)
  partition_groups-perm (x ∷ y ∷ xs) w ds =
      let names : List Name = x ∷ y ∷ xs in
      let k : ℕ = min w (length names) in
      let seconds : Name → Seconds = duration_of time ds in
      elim (Bool-cases (leb w 1)) [
        | inl e ↦ rw e (rw append-nil (Perm.refl names), omega arith, omega arith)
        | inr e ↦
            let several : 1 < w = ground arith in
            rw e (elim (Bool-cases (is_empty ds)) [
              | inl f ↦
                  let (p, l) =
                    from_empty k names names (round_robin k 0 names (replicate k nothing))
                      (round_robin-Placed k 0 names (replicate k nothing) (omega arith)
                        (length-replicate k nothing))
                      (Perm.refl names) in
                  rw f (p, omega arith, omega arith)
              | inr f ↦
                  let sorted_names : List Name =
                    sort (λ a b. at_most (seconds b) (seconds a)) names in
                  let (p, l) =
                    from_empty k sorted_names names
                      (greedy time seconds sorted_names (replicate k nothing)
                        (replicate k zero_seconds))
                      (greedy-Placed seconds sorted_names (replicate k nothing)
                        (replicate k zero_seconds) (omega (arith, length-replicate k zero_seconds))
                        (length-replicate k nothing ∙ sym (length-replicate k zero_seconds)))
                      (sort-perm (λ a b. at_most (seconds b) (seconds a)) names) in
                  rw f (p, omega arith, omega arith)
            ])
      ]
