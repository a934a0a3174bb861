-- ===== src/Packages.antt =====
-- packages.py: versions, constraints on them and the dependencies between packages.
mod Versions
unfoldable pub use Versions.*
use Versions.{TextRules}
mod Constraints
unfoldable pub use Constraints.*
use Constraints.{version_satisfies}
pub mod Dependencies
pub mod Lock
pub mod Resolve
mod Samples
use fast_flow_transform.Prelude.{
  ℕ, zero, suc, ◌+◌, ◌-◌, ◌*◌, ◌/◌, ◌%◌, ◌^◌, ◌≤◌, ◌<◌, min, max, String, ◌≡◌, refl, sym, ap, ◌∙◌,
  ◌≢◌, ◌↔◌, ◌⊎◌, inl, inr, Bool, true, false, not, ◌&&◌, ◌||◌, Option, none, some, List, [], ◌∷◌,
  ◌++◌, map, foldl, arith, ltb, leb, ◌==◌, if◌then◌else◌, Bool-cases, ltb→lt, lt→ltb, length,
  length-append, is_empty, filter, concat, Option-cases, List-cases, all, any, All,
}
use fast_flow_transform.Prelude.Names.{
  Name, same, same_iff, same_lem, same_refl, member, add, set_of, IsNodup, member-add, add-IsNodup,
  member-set_of, set_of-IsNodup, member-append, member-filter, filter-IsNodup, IsSubset,
  length-subset, update, update-same, update-other,
}

pub record PackageDependency : Type 0 where
  pub name : Name
  pub version_constraint : Option Name
  pub optional : Bool

-- A resolved package, with the dependencies of its manifest.
pub record Package : Type 0 where
  pub name : Name
  pub version : Name
  pub dependencies : List PackageDependency

-- What the check raises: a `RuntimeError` for a package that is not there or has another version, and the
-- `ValueError` of a version or constraint that cannot be read.
pub data DependencyError : Type 0 where
  not_declared : (owner dependency : Name) → DependencyError
  wrong_version : (owner dependency version : Name) → DependencyError
  value_error : DependencyError

-- `pkgs.get(name)`: the dict of resolved packages is the list of its values, each under its own name.
unfoldable pub find_package : List Package → Name → Option Package
find_package [] k = none
find_package (p ∷ ps) k = if same p.name k then some p else find_package ps k

module _ (rules : TextRules) (pkgs : List Package) where
  abbrev version_error :
      Package → PackageDependency → Package → Option Bool → Option DependencyError
  version_error pkg dep target none = some value_error
  version_error pkg dep target (some true) = none
  version_error pkg dep target (some false) = some (wrong_version pkg.name dep.name target.version)

  -- The body of the inner loop: what it raises.
  unfoldable pub dependency_error : Package → PackageDependency → Option DependencyError
  unfolding find_package version_satisfies
  dependency_error pkg dep = elim (find_package pkgs dep.name) [
    | none ↦ if dep.optional then none else some (not_declared pkg.name dep.name)
    | some target ↦
        version_error pkg dep target (version_satisfies rules target.version dep.version_constraint)
  ]

  unfoldable pub first_error : Package → List PackageDependency → Option DependencyError
  unfolding dependency_error
  first_error pkg [] = none
  first_error pkg (dep ∷ deps) = elim (dependency_error pkg dep) [
    | some e ↦ some e
    | none ↦ first_error pkg deps
  ]

  unfoldable pub errors_from : List Package → Option DependencyError
  unfolding first_error
  errors_from [] = none
  errors_from (pkg ∷ rest) = elim (first_error pkg pkg.dependencies) [
    | some e ↦ some e
    | none ↦ errors_from rest
  ]

  -- `_validate_package_dependencies`: `none` where it returns.
  unfoldable pub validate_package_dependencies : Option DependencyError
  unfolding errors_from
  validate_package_dependencies = errors_from pkgs
