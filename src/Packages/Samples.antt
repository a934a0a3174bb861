-- ===== src/Packages/Samples.antt =====
-- Versions with the ASCII digits.
use Prim.Native.Char.{Char}
use fast_flow_transform.Prelude.{
  ℕ, String, ◌≡◌, refl, ap, ◌↔◌, Bool, true, false, none, some, List, [], ◌∷◌, arith, if◌then◌else◌,
  All,
}
use fast_flow_transform.Prelude.Names.{Name, same}
use fast_flow_transform.Packages.{
  TextRules, Version, parse_version, parse_constraints, version_satisfies, Package,
  validate_package_dependencies, Op, op_ge, op_lt,
}
use fast_flow_transform.Packages.Dependencies.{
  MeetsAll, IsMet, version_satisfies_iff, validate_package_dependencies_iff,
}

abbrev is : Name → Char → Bool
is s c = same (String.◌∷◌ c String.[]) s

abbrev pub ascii : TextRules
ascii = record {
  digit = λ c.
      if is "0" c
      then some 0
      else if is "1" c
      then some 1
      else if is "2" c
      then some 2
      else if is "3" c
      then some 3
      else if is "4" c
      then some 4
      else none;
  is_space = λ c. is " " c;
}

abbrev version : ℕ → ℕ → ℕ → Version
version a b c = record { major = a; minor = b; patch = c }

parsed : parse_version ascii " 1.20.3-rc1 " ≡ some (version 1 20 3)
unfolding parse_version
parsed = refl

caret : parse_constraints ascii "^1.2.3" ≡ some ((op_ge, "1.2.3") ∷ (op_lt, "2.0.0") ∷ [])
unfolding parse_constraints
caret = refl

-- A caret before a version with a suffix: the range repeats the suffix, which no check allows.
caret_suffix : parse_constraints ascii "^1.2.3-rc1" ≡ none
unfolding parse_constraints
caret_suffix = refl

-- A space behind an operator.
spaced : parse_constraints ascii ">= 1.2.3" ≡ none
unfolding parse_constraints
spaced = refl

satisfied : version_satisfies ascii "1.3.0" (some "^1.2.3") ≡ some true
unfolding version_satisfies
satisfied = refl

parsed-130 : parse_version ascii "1.3.0" ≡ some (version 1 3 0)
unfolding parse_version
parsed-130 = refl

abbrev checks : List (Op × Name)
checks = (op_ge, "1.2.3") ∷ (op_lt, "2.0.0") ∷ []

version_satisfies_iff_example :
    (version_satisfies ascii "1.3.0" (some "^1.2.3") ≡ some true)
    ↔ MeetsAll ascii (version 1 3 0) checks
version_satisfies_iff_example =
    version_satisfies_iff ascii "1.3.0" "^1.2.3" (version 1 3 0) checks parsed-130 caret
      (λ e. ground (arith, ap (λ t. same t "") e))

abbrev packages : List Package
packages =
    record { name = "core"; version = "1.3.0"; dependencies = [] }
    ∷ record {
      name = "shop";
      version = "0.1.0";
      dependencies =
          record { name = "core"; version_constraint = some "^1.2.3"; optional = false } ∷ [];
    }
    ∷ []

validated : validate_package_dependencies ascii packages ≡ none
unfolding validate_package_dependencies
validated = refl

validate_package_dependencies_iff_example :
    (validate_package_dependencies ascii packages ≡ none)
    ↔ All (λ p. All (IsMet ascii packages) p.dependencies) packages
validate_package_dependencies_iff_example = validate_package_dependencies_iff ascii packages
