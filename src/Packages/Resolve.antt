-- ===== src/Packages/Resolve.antt =====
-- packages.py: resolve_packages, with the files and the git repositories as a parameter.
pub mod Accepted
mod Samples
use fast_flow_transform.Prelude.{
  ℕ, zero, suc, ◌+◌, ◌-◌, ◌*◌, ◌/◌, ◌%◌, ◌^◌, ◌≤◌, ◌<◌, min, max, String, ◌≡◌, refl, sym, ap, ◌∙◌,
  ◌≢◌, ◌↔◌, ◌⊎◌, inl, inr, Bool, true, false, not, ◌&&◌, ◌||◌, Option, none, some, List, [], ◌∷◌,
  ◌++◌, map, foldl, arith, ltb, leb, ◌==◌, if◌then◌else◌, Bool-cases, ltb→lt, lt→ltb, length,
  length-append, is_empty, filter, concat, Option-cases, List-cases, all, any, All,
}
use fast_flow_transform.Prelude.Names.{
  Name, same, same_iff, same_lem, same_refl, member, add, set_of, IsNodup, member-add, add-IsNodup,
  member-set_of, set_of-IsNodup, member-append, member-filter, filter-IsNodup, IsSubset,
  length-subset, update, update-same, update-other,
}
use mathlib.Core.Option
use fast_flow_transform.Prelude.Results.{Result, returns, raises, ◌>>=◌}
use fast_flow_transform.Prelude.Sorting.{sort, name_leb}
use fast_flow_transform.Packages.{
  TextRules, version_satisfies, PackageDependency, Package, find_package, DependencyError,
  validate_package_dependencies,
}
use fast_flow_transform.Packages.Lock.{LockedSource, LockEntry, LockFile}

-- An entry of packages.yml.
pub record PackageSpec : Type 0 where
  pub name : Name
  pub path : Option Name
  pub git : Option Name
  pub rev : Option Name
  pub tag : Option Name
  pub branch : Option Name
  pub subdir : Option Name
  pub models_dir : Name
  pub version : Option Name

pub record PackageManifest : Type 0 where
  pub name : Name
  pub version : Name
  pub fft_version : Option Name
  pub dependencies : List PackageDependency
  pub models_dir : Option Name

-- A package, with the parts that the check of the dependencies does not read.
pub record ResolvedPackage : Type 0 where
  pub pkg : Package
  pub root : Name
  pub models_dir : Name
  pub source : LockedSource

pub data ResolveError : Type 0 where
  path_not_found not_a_directory no_source git_failed manifest_error : ResolveError
  name_mismatch : (spec manifest : Name) → ResolveError
  needs_fft_version : (name : Name) → ResolveError
  spec_version : (name : Name) → ResolveError
  duplicate_name : (name : Name) → ResolveError
  bad_version : ResolveError
  dependency_failed : DependencyError → ResolveError

-- A test that raises or passes.
abbrev pub Check : Type 0
Check = Result {0, 0} ResolveError Unit

-- What `Path`, git and the reading of project.yml answer.
pub record PackageFiles : Type 0 where
  pub resolve : Name → Name
  pub exists : Name → Bool
  pub is_dir : Name → Bool
  pub join : Name → Name → Name
  pub ensure_git_repo : PackageSpec → Option Name
  pub head_of : Name → Option Name
  pub load_manifest : Name → Option PackageManifest
  pub fft_version : Name

-- `value or ""`
abbrev pub or_blank : Option Name → Name
or_blank o = Option.get_or o ""

-- `not value`, for a text.
abbrev pub is_falsy : Option Name → Bool
is_falsy o = same (or_blank o) ""

-- `a or b`
abbrev pub or_other : Name → Name → Name
or_other a b = if same a "" then b else a

abbrev pub from_option : {A : Type 0} → ResolveError → Option A → Result ResolveError A
from_option e none = raises e
from_option e (some a) = returns a

abbrev pub require : Bool → ResolveError → Check
require b e = if b then returns tt else raises e

-- The answer of `version_satisfies` in `if constraint and not version_satisfies(...): raise ...`.
abbrev pub verdict : ResolveError → Option Bool → Check
verdict e none = raises bad_version
verdict e (some true) = returns tt
verdict e (some false) = raises e

abbrev pub name_of : ResolvedPackage → Name
name_of p = p.pkg.name

abbrev pub package_leb : ResolvedPackage → ResolvedPackage → Bool
package_leb p q = name_leb p.pkg.name q.pkg.name

abbrev pub checked : Option DependencyError → Check
checked none = returns tt
checked (some e) = raises (dependency_failed e)

module _ (files : PackageFiles) where
  pub check_dir : Name → Result ResolveError Name
  check_dir root =
      if not (files.exists root)
      then raises path_not_found
      else if not (files.is_dir root)
      then raises not_a_directory
      else returns root

  -- `_materialize_package_source`
  unfoldable pub materialize_package_source : PackageSpec → Result ResolveError Name
  unfolding check_dir
  materialize_package_source spec = elim spec.path [
    | some path ↦ check_dir (files.resolve path)
    | none ↦ if is_falsy spec.git then raises no_source else do
      repo_root ← from_option git_failed (files.ensure_git_repo spec)
      check_dir (
          if is_falsy spec.subdir
          then repo_root
          else files.resolve (files.join repo_root (or_blank spec.subdir)))
  ]

  -- `_lock_source_for_spec`
  unfoldable pub lock_source_for_spec : PackageSpec → Name → LockedSource
  lock_source_for_spec spec root = elim spec.path [
    | some path ↦ record { kind = "path"; path = some root; git = none; rev = none; subdir = none }
    | none ↦
        let head = if is_falsy spec.git then none else files.head_of root in
        record {
          kind = "git";
          path = none;
          git = spec.git;
          rev = if is_falsy head then spec.rev else head;
          subdir = spec.subdir;
        }
  ]

  -- `_write_lock_file`: the lock file for the packages.
  pub lock_file_of : List ResolvedPackage → LockFile
  lock_file_of ps = record {
    fft_version = some files.fft_version;
    entries =
        map (λ p. record { name = p.pkg.name; version = p.pkg.version; source = p.source }) ps;
  }

  -- `ResolvedPackage(...)`
  abbrev pub resolved_of : PackageSpec → Name → PackageManifest → ResolvedPackage
  resolved_of spec root m = record {
    pkg = record { name = m.name; version = m.version; dependencies = m.dependencies };
    root = root;
    models_dir = or_other spec.models_dir (or_other (or_blank m.models_dir) "models");
    source = lock_source_for_spec spec root;
  }

module _ (rules : TextRules) (files : PackageFiles) where
  -- One round of the loop over the specs, after the packages that are resolved already.
  unfoldable pub resolve_spec :
      List ResolvedPackage → PackageSpec → Result ResolveError ResolvedPackage
  unfolding materialize_package_source lock_source_for_spec version_satisfies
  resolve_spec seen spec = do
    root ← materialize_package_source files spec
    manifest ← from_option manifest_error (files.load_manifest root)
    named ←
        require (same spec.name "" || same manifest.name spec.name)
          (name_mismatch spec.name manifest.name)
    fits ←
        verdict (needs_fft_version manifest.name)
          (version_satisfies rules files.fft_version manifest.fft_version)
    wanted ←
        verdict (spec_version manifest.name) (version_satisfies rules manifest.version spec.version)
    fresh ← require (not (member manifest.name (map name_of seen))) (duplicate_name manifest.name)
    returns (resolved_of files spec root manifest)

  -- The loop: the dict of resolved packages, in insertion order.
  unfoldable pub resolve_specs :
      List ResolvedPackage → List PackageSpec → Result ResolveError (List ResolvedPackage)
  unfolding resolve_spec
  resolve_specs seen [] = returns seen
  resolve_specs seen (spec ∷ specs) = do
    p ← resolve_spec seen spec
    resolve_specs (seen ++ p ∷ []) specs

  -- `resolve_packages`: the sorted packages, and the lock file if one is written.
  unfoldable pub resolve_packages :
      List PackageSpec → Result ResolveError (List ResolvedPackage × Option LockFile)
  unfolding resolve_specs validate_package_dependencies lock_file_of sort name_leb
  resolve_packages [] = returns ([], none)
  resolve_packages (spec ∷ specs) = do
    ps ← resolve_specs [] (spec ∷ specs)
    met ← checked (validate_package_dependencies rules (map (λ p. p.pkg) ps))
    returns (sort package_leb ps, some (lock_file_of files ps))
