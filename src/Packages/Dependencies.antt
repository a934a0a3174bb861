-- ===== src/Packages/Dependencies.antt =====
-- What the check of constraints and dependencies guarantees.
use fast_flow_transform.Prelude.{
  ◌<◌, ◌≡◌, refl, sym, ap, ◌∙◌, ◌≢◌, ◌↔◌, ◌⊎◌, inl, inr, true, false, none, some, List, [], ◌∷◌,
  arith, if◌then◌else◌, Bool-cases, Option-cases, All,
}
use fast_flow_transform.Prelude.Names.{Name, same, same_iff}
use mathlib.Core.Option
use fast_flow_transform.Packages.{
  TextRules, Version, parse_version, version_ltb, compare_parsed, Op, op_eq, op_ne, op_gt, op_lt,
  op_ge, op_le, passes, compare_versions, parse_constraints, is_blank, check_all, version_satisfies,
  Package, PackageDependency, find_package, dependency_error, first_error, errors_from,
  validate_package_dependencies,
}

-- The order of versions: the major number decides, then the minor one, then the patch.
abbrev pub Below : Version → Version → Type 0
Below a b =
    (a.major < b.major)
    ⊎ ((a.major ≡ b.major) × ((a.minor < b.minor) ⊎ ((a.minor ≡ b.minor) × (a.patch < b.patch))))

version_ltb_iff : (a b : Version) → (version_ltb a b ≡ true) ↔ Below a b
version_ltb_iff a b = (λ h. ground arith, λ h. ground arith)

-- What an operator asks of the two versions.
abbrev pub Meets : Op → Version → Version → Type 0
Meets op_eq a b = (¬ Below a b) × (¬ Below b a)
Meets op_ne a b = Below a b ⊎ Below b a
Meets op_gt a b = Below b a
Meets op_lt a b = Below a b
Meets op_ge a b = ¬ Below a b
Meets op_le a b = ¬ Below b a

passes_iff : (op : Op) (a b : Version) → (passes op (compare_parsed a b) ≡ true) ↔ Meets op a b
passes_iff op_eq a b = (λ h. ground arith, λ h. ground arith)
passes_iff op_ne a b = (λ h. ground arith, λ h. ground arith)
passes_iff op_gt a b = (λ h. ground arith, λ h. ground arith)
passes_iff op_lt a b = (λ h. ground arith, λ h. ground arith)
passes_iff op_ge a b = (λ h. ground arith, λ h. ground arith)
passes_iff op_le a b = (λ h. ground arith, λ h. ground arith)

module _ (rules : TextRules) where
  -- A version satisfies a list of checks when each of their versions can be read and is met.
  abbrev pub MeetsAll : Version → List (Op × Name) → Type 0
  MeetsAll v checks =
      All (λ check. (u : Version) × (parse_version rules check.1 ≡ some u) × Meets check.0 v u)
        checks

  check_all-step :
      (actual target : Name) (v u : Version) (op : Op) (checks : List (Op × Name))
      → parse_version rules actual ≡ some v
      → parse_version rules target ≡ some u
      → check_all rules actual ((op, target) ∷ checks)
        ≡ (if passes op (compare_parsed v u) then check_all rules actual checks else some false)
  unfolding check_all compare_versions
  check_all-step actual target v u op checks e q =
      elim (Bool-cases (passes op (compare_parsed v u))) [
        | inl p ↦ rw (check_all, compare_versions, e, q, p) refl
        | inr p ↦ rw (check_all, compare_versions, e, q, p) refl
      ]

  check_all_iff :
      (actual : Name) (v : Version) (checks : List (Op × Name))
      → parse_version rules actual ≡ some v
      → (check_all rules actual checks ≡ some true) ↔ MeetsAll v checks
  unfolding check_all compare_versions
  check_all_iff actual v [] e = (λ h. tt, λ h. refl)
  check_all_iff actual v ((op, target) ∷ checks) e =
      let (there, back) = check_all_iff actual v checks e in
      elim (Option-cases (parse_version rules target)) [
        | inl q ↦ (λ h. absurd (ground arith), λ ((u, r, m), _). absurd (ground arith))
        | inr (u, q) ↦
            let (met, pass) = passes_iff op v u in
            let now = check_all-step actual target v u op checks e q in
            (
              λ h. elim (Bool-cases (passes op (compare_parsed v u))) [
                | inl p ↦ (
                  (u, q, met p),
                  there (
                      sym (ap (λ b. if b then check_all rules actual checks else some false) p)
                      ∙ sym now
                      ∙ h),
                )
                | inr p ↦ absurd (
                    ground (
                      arith,
                      sym (ap (λ b. if b then check_all rules actual checks else some false) p)
                          ∙ sym now
                          ∙ h,
                    ))
              ],
              λ ((w, r, m), more).
                  let same_version : w ≡ u = ap (λ o. Option.get_or o u) (sym r ∙ q) in
                  let p = pass (rw (← same_version) m) in
                  now
                  ∙ ap (λ b. if b then check_all rules actual checks else some false) p
                  ∙ back more,
            )
      ]

  -- A version satisfies a constraint that is not empty exactly when each of its checks names a version that
  -- can be read and that the version stands to as the operator says.
  pub version_satisfies_iff :
      (actual constraint : Name) (v : Version) (checks : List (Op × Name))
      → parse_version rules actual ≡ some v
      → parse_constraints rules constraint ≡ some checks
      → (constraint ≢ "")
      → (version_satisfies rules actual (some constraint) ≡ some true) ↔ MeetsAll v checks
  unfolding version_satisfies is_blank
  version_satisfies_iff actual constraint v checks e q given =
      let filled : same constraint "" ≡ false = ground (arith, same_iff constraint "") in
      rw (version_satisfies, filled, q) (check_all_iff actual v checks e)

  -- A dependency is met: its package is there with a version that satisfies the constraint, or it is
  -- optional and there is no such package.
  pub data IsMet (pkgs : List Package) (dep : PackageDependency) : Type 0 where
    present :
        (target : Package)
        → find_package pkgs dep.name ≡ some target
        → version_satisfies rules target.version dep.version_constraint ≡ some true
        → IsMet pkgs dep
    left_out : find_package pkgs dep.name ≡ none → dep.optional ≡ true → IsMet pkgs dep

  dependency_error_iff :
      (pkgs : List Package) (pkg : Package) (dep : PackageDependency)
      → (dependency_error rules pkgs pkg dep ≡ none) ↔ IsMet pkgs dep
  unfolding dependency_error
  dependency_error_iff pkgs pkg dep = elim (Option-cases (find_package pkgs dep.name)) [
    | inl q ↦ (
      λ h.
          left_out q (elim (Bool-cases dep.optional) [ inl o ↦ o | inr o ↦ absurd (ground arith) ]),
      λ m. elim m [
        | present target f s ↦ absurd (ground arith)
        | left_out f o ↦ rw (dependency_error, q, o) refl
      ],
    )
    | inr (target, q) ↦
        let sat = version_satisfies rules target.version dep.version_constraint in
        elim (Option-cases sat) [
          | inl n ↦ (
            λ h. absurd (ground arith),
            λ m. elim m [
              | present other f s ↦ absurd (ground arith)
              | left_out f o ↦ absurd (ground arith)
            ],
          )
          | inr (b, n) ↦ elim (Bool-cases b) [
            | inl p ↦ (
              λ h. present target q (n ∙ ap (λ t. some t) p),
              λ m. ground (arith, n ∙ ap (λ t. some t) p),
            )
            | inr p ↦ (
              λ h. absurd (ground (arith, n ∙ ap (λ t. some t) p)),
              λ m. elim m [
                | present other f s ↦ absurd (ground (arith, n ∙ ap (λ t. some t) p))
                | left_out f o ↦ absurd (ground arith)
              ],
            )
          ]
        ]
  ]

  first_error_iff :
      (pkgs : List Package) (pkg : Package) (deps : List PackageDependency)
      → (first_error rules pkgs pkg deps ≡ none) ↔ All (IsMet pkgs) deps
  unfolding first_error
  first_error_iff pkgs pkg [] = (λ h. tt, λ h. refl)
  first_error_iff pkgs pkg (dep ∷ deps) =
      let (there, back) = first_error_iff pkgs pkg deps in
      let (met, fine) = dependency_error_iff pkgs pkg dep in
      elim (Option-cases (dependency_error rules pkgs pkg dep)) [
        | inl q ↦ (λ h. (met q, there (ground arith)), λ h. let b = back h.1 in ground arith)
        | inr (x, q) ↦ (λ h. absurd (ground arith), λ h. absurd (ground (arith, fine h.0)))
      ]

  errors_from_iff :
      (pkgs rest : List Package)
      → (errors_from rules pkgs rest ≡ none) ↔ All (λ p. All (IsMet pkgs) p.dependencies) rest
  unfolding errors_from
  errors_from_iff pkgs [] = (λ h. tt, λ h. refl)
  errors_from_iff pkgs (p ∷ rest) =
      let (there, back) = errors_from_iff pkgs rest in
      let (met, fine) = first_error_iff pkgs p p.dependencies in
      elim (Option-cases (first_error rules pkgs p p.dependencies)) [
        | inl q ↦ (λ h. (met q, there (ground arith)), λ h. let b = back h.1 in ground arith)
        | inr (x, q) ↦ (λ h. absurd (ground arith), λ h. absurd (ground (arith, fine h.0)))
      ]

  -- The check of the dependencies returns without an error exactly when every dependency of every package
  -- is met.
  pub validate_package_dependencies_iff :
      (pkgs : List Package)
      → (validate_package_dependencies rules pkgs ≡ none)
        ↔ All (λ p. All (IsMet pkgs) p.dependencies) pkgs
  unfolding validate_package_dependencies
  validate_package_dependencies_iff pkgs = errors_from_iff pkgs pkgs
