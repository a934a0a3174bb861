-- ===== src/Packages/Resolve/Accepted.antt =====
-- What holds of the packages that are returned.
use fast_flow_transform.Prelude.{
  ◌≡◌, refl, sym, ◌∙◌, Bool, true, false, not, ◌||◌, Option, none, some, List, [], ◌∷◌, ◌++◌, map,
  arith, All,
}
use fast_flow_transform.Prelude.Names.{Name, same, same_iff, member, IsNodup, member-append}
use mathlib.Core.List.Perm
use mathlib.Core.List.{Perm, append_assoc, append-nil, map-append}
use fast_flow_transform.Prelude.Results.{returns, >>=-returns}
use fast_flow_transform.Prelude.Sorting.{sort, name_leb_total, IsSorted, sort-perm, sort-IsSorted}
use fast_flow_transform.Packages.{
  TextRules, version_satisfies, DependencyError, validate_package_dependencies,
}
use fast_flow_transform.Packages.Dependencies.{IsMet, validate_package_dependencies_iff}
use fast_flow_transform.Packages.Lock.{LockFile}
use fast_flow_transform.Packages.Resolve.{
  PackageSpec, PackageManifest, ResolvedPackage, ResolveError, PackageFiles, manifest_error,
  name_mismatch, needs_fft_version, spec_version, duplicate_name, resolved_of,
  materialize_package_source, lock_source_for_spec, from_option, require, verdict, name_of,
  resolve_spec, resolve_specs, package_leb, checked, resolve_packages,
}

-- The entries of two lists belong together, one by one.
pub data Pairs {A B : Type 0} (R : A → B → Type 0) : List A → List B → Type 0 where
  none_left : Pairs R [] []
  pair : {a : A} {b : B} {l : List A} {r : List B} → R a b → Pairs R l r → Pairs R (a ∷ l) (b ∷ r)

require-true : (b : Bool) (e : ResolveError) (u : Unit) → require b e ≡ returns u → b ≡ true
require-true true e u h = refl
require-true false e u h = cc

from_option-some :
    {A : Type 0} (e : ResolveError) (o : Option A) (a : A)
    → from_option e o ≡ returns a
    → o ≡ some a
from_option-some e none a h = cc
from_option-some e (some b) a h = cc

verdict-true :
    (e : ResolveError) (o : Option Bool) (u : Unit) → verdict e o ≡ returns u → o ≡ some true
verdict-true e none u h = cc
verdict-true e (some true) u h = refl
verdict-true e (some false) u h = cc

checked-none : (o : Option DependencyError) (u : Unit) → checked o ≡ returns u → o ≡ none
checked-none none u h = refl
checked-none (some e) u h = cc

append_one-IsNodup :
    (a : Name) (xs : List Name) → member a xs ≡ false → IsNodup xs → IsNodup (xs ++ a ∷ [])
append_one-IsNodup a [] m h = (refl, tt)
append_one-IsNodup a (x ∷ xs) m h =
    ground (arith, append_one-IsNodup a xs, member-append x xs (a ∷ []), same_iff a x, same_iff x a)

module _ (rules : TextRules) (files : PackageFiles) where
  -- A package answers to an entry of packages.yml: it is what the manifest in the directory of the entry
  -- says, under the name of the entry, with a version that the entry allows, for the FFT version that runs.
  pub record Answers (spec : PackageSpec) (p : ResolvedPackage) : Type 0 where
    pub at_root : materialize_package_source files spec ≡ returns p.root
    pub manifest : PackageManifest
    pub loaded : files.load_manifest p.root ≡ some manifest
    pub same_name : p.pkg.name ≡ manifest.name
    pub same_version : p.pkg.version ≡ manifest.version
    pub same_dependencies : p.pkg.dependencies ≡ manifest.dependencies
    pub named : (same spec.name "" || same p.pkg.name spec.name) ≡ true
    pub fits : version_satisfies rules files.fft_version manifest.fft_version ≡ some true
    pub allowed : version_satisfies rules p.pkg.version spec.version ≡ some true
    pub locked : p.source ≡ lock_source_for_spec files spec p.root

  resolve_spec-Answers :
      (seen : List ResolvedPackage) (spec : PackageSpec) (p : ResolvedPackage)
      → resolve_spec rules files seen spec ≡ returns p
      → Answers spec p × (member p.pkg.name (map name_of seen) ≡ false)
  unfolding resolve_spec
  resolve_spec-Answers seen spec p h =
      let (root, at_root, h1) = >>=-returns (materialize_package_source files spec) _ h in
      let (m, loaded, h2) =
        >>=-returns (from_option manifest_error (files.load_manifest root)) _ h1 in
      let (u, named, h3) =
        >>=-returns
          (require (same spec.name "" || same m.name spec.name) (name_mismatch spec.name m.name)) _
          h2 in
      let (v, fits, h4) =
        >>=-returns
          (verdict (needs_fft_version m.name)
            (version_satisfies rules files.fft_version m.fft_version))
          _ h3 in
      let (w, wanted, h5) =
        >>=-returns (verdict (spec_version m.name) (version_satisfies rules m.version spec.version))
          _ h4 in
      let (y, fresh, h6) =
        >>=-returns (require (not (member m.name (map name_of seen))) (duplicate_name m.name)) _
          h5 in
      let q : p ≡ resolved_of files spec root m = cc in
      let free = require-true _ (duplicate_name m.name) y fresh in
      (
        rw q (record {
          at_root = at_root;
          manifest = m;
          loaded = from_option-some manifest_error _ m loaded;
          same_name = refl;
          same_version = refl;
          same_dependencies = refl;
          named = require-true _ (name_mismatch spec.name m.name) u named;
          fits = verdict-true (needs_fft_version m.name) _ v fits;
          allowed = verdict-true (spec_version m.name) _ w wanted;
          locked = refl;
        }),
        rw q (ground arith),
      )

  resolve_specs-Answers :
      (seen : List ResolvedPackage) (specs : List PackageSpec) (ps : List ResolvedPackage)
      → resolve_specs rules files seen specs ≡ returns ps
      → IsNodup (map name_of seen)
      → (found : List ResolvedPackage) × (ps ≡ seen ++ found)
        × Pairs Answers specs found
        × IsNodup (map name_of ps)
  unfolding resolve_specs
  resolve_specs-Answers seen [] ps h distinct =
      let q : ps ≡ seen = cc in ([], q ∙ sym (append-nil seen), none_left, rw q distinct)
  resolve_specs-Answers seen (spec ∷ specs) ps h distinct =
      let (p, one, h1) = >>=-returns (resolve_spec rules files seen spec) _ h in
      let (answers, free) = resolve_spec-Answers seen spec p one in
      let distinct' : IsNodup (map name_of (seen ++ p ∷ [])) =
        rw (map-append name_of seen (p ∷ []))
          (append_one-IsNodup p.pkg.name (map name_of seen) free distinct) in
      let (found, q, pairs, all_distinct) =
        resolve_specs-Answers (seen ++ p ∷ []) specs ps h1 distinct' in
      (p ∷ found, q ∙ append_assoc seen (p ∷ []) found, pair answers pairs, all_distinct)

  -- The packages `ps` for `specs`: a permutation of one answer to each entry, under distinct names and sorted
  -- by them, with every dependency met.
  pub record IsResolution (specs : List PackageSpec) (ps : List ResolvedPackage) : Type 0 where
    pub found : List ResolvedPackage
    pub answers : Pairs Answers specs found
    pub permuted : Perm ps found
    pub distinct : IsNodup (map name_of found)
    pub ordered : IsSorted package_leb ps
    pub met :
        All
          (λ pkg. All (IsMet rules (map (λ p. p.pkg) found)) pkg.dependencies)
          (map (λ p. p.pkg) found)

  -- The packages that are returned are one for each entry of packages.yml, in the order of their names: each
  -- is what the manifest in the directory of its entry says, with a version that the entry allows, for the
  -- FFT version that runs. Their names are distinct, and every dependency of theirs is met.
  pub resolve_packages-IsResolution :
      (specs : List PackageSpec) (ps : List ResolvedPackage) (lock : Option LockFile)
      → resolve_packages rules files specs ≡ returns (ps, lock)
      → IsResolution specs ps
  unfolding resolve_packages
  resolve_packages-IsResolution [] ps lock h =
      let q : ps ≡ [] = cc in
      rw q (record {
        found = [];
        answers = none_left;
        permuted = Perm.refl [];
        distinct = tt;
        ordered = tt;
        met = tt;
      })
  resolve_packages-IsResolution (spec ∷ specs) ps lock h =
      let (found, loop, h1) = >>=-returns (resolve_specs rules files [] (spec ∷ specs)) _ h in
      let (u, fine, h2) =
        >>=-returns (checked (validate_package_dependencies rules (map (λ p. p.pkg) found))) _ h1 in
      let (found', same_found, pairs, distinct) =
        resolve_specs-Answers [] (spec ∷ specs) found loop tt in
      let q : ps ≡ sort package_leb found = cc in
      rw q (record {
        found = found;
        answers = rw same_found pairs;
        permuted = sort-perm package_leb found;
        distinct = distinct;
        ordered = sort-IsSorted package_leb (λ a b. name_leb_total a.pkg.name b.pkg.name) found;
        met =
            (validate_package_dependencies_iff rules (map (λ p. p.pkg) found)).0
              (checked-none _ u fine);
      })
