-- ===== src/Packages/Resolve/Samples.antt =====
-- Two packages, of which one depends on the other.
use fast_flow_transform.Prelude.{
  ◌≡◌, refl, true, false, Option, none, some, List, [], ◌∷◌, if◌then◌else◌,
}
use fast_flow_transform.Prelude.Names.{Name, same}
use fast_flow_transform.Prelude.Results.{returns, raises}
use fast_flow_transform.Packages.{PackageDependency}
use fast_flow_transform.Packages.Samples.{ascii}
use fast_flow_transform.Packages.Resolve.{
  PackageSpec, PackageManifest, ResolvedPackage, PackageFiles, spec_version, resolved_of,
  lock_file_of, resolve_packages,
}
use fast_flow_transform.Packages.Resolve.Accepted.{IsResolution, resolve_packages-IsResolution}

abbrev manifest_of : Name → Name → List PackageDependency → PackageManifest
manifest_of name version deps = record {
  name = name;
  version = version;
  fft_version = none;
  dependencies = deps;
  models_dir = none;
}

abbrev core : PackageManifest
core = manifest_of "core" "1.2.3" []

abbrev utils : PackageManifest
utils =
    manifest_of "utils" "0.1.0"
      (record { name = "core"; version_constraint = some "^1.0.0"; optional = false } ∷ [])

-- Directories named like the packages in them.
abbrev files : PackageFiles
files = record {
  resolve = λ p. p;
  exists = λ p. true;
  is_dir = λ p. true;
  join = λ a b. b;
  ensure_git_repo = λ spec. none;
  head_of = λ p. none;
  load_manifest =
      λ p. if same p "core" then some core else if same p "utils" then some utils else none;
  fft_version = "1.0.0";
}

abbrev spec_of : Name → Option Name → PackageSpec
spec_of name version = record {
  name = name;
  path = some name;
  git = none;
  rev = none;
  tag = none;
  branch = none;
  subdir = none;
  models_dir = "models";
  version = version;
}

abbrev both_specs : List PackageSpec
both_specs = spec_of "utils" none ∷ spec_of "core" (some ">=1.2.0") ∷ []

abbrev core_package : ResolvedPackage
core_package = resolved_of files (spec_of "core" (some ">=1.2.0")) "core" core

abbrev utils_package : ResolvedPackage
utils_package = resolved_of files (spec_of "utils" none) "utils" utils

abbrev in_turn : List ResolvedPackage
in_turn = utils_package ∷ core_package ∷ []

abbrev both_packages : List ResolvedPackage
both_packages = core_package ∷ utils_package ∷ []

resolved :
    resolve_packages ascii files both_specs
    ≡ returns (both_packages, some (lock_file_of files in_turn))
unfolding resolve_packages
resolved = refl

too_old :
    resolve_packages ascii files (spec_of "core" (some ">=2.0.0") ∷ [])
    ≡ raises (spec_version "core")
unfolding resolve_packages
too_old = refl

resolve_packages-IsResolution_example : IsResolution ascii files both_specs both_packages
resolve_packages-IsResolution_example =
    resolve_packages-IsResolution ascii files both_specs both_packages
      (some (lock_file_of files in_turn)) resolved
