-- ===== src/Packages/Versions.antt =====
-- packages.py: the semver helpers. A token has no white space, and a stripped text ends with none, so that
-- `$` stands for the end of the text.
use Prim.Native.Char.{Char}
use fast_flow_transform.Prelude.{
  ℕ, ◌+◌, ◌*◌, String, Bool, true, not, ◌&&◌, ◌||◌, Option, none, some, if◌then◌else◌,
}
use fast_flow_transform.Prelude.Names.{Name, same}

-- `\d` with the value of a digit, and `\s` or `str.isspace`.
pub record TextRules : Type 0 where
  pub digit : Char → Option ℕ
  pub is_space : Char → Bool

pub record Version : Type 0 where
  pub major : ℕ
  pub minor : ℕ
  pub patch : ℕ

unfoldable pub is_char : Name → Char → Bool
is_char s c = same (String.◌∷◌ c String.[]) s

unfoldable pub is_blank : Name → Bool
is_blank s = same s ""

module _ (rules : TextRules) where
  unfoldable pub lstrip : Name → Name
  lstrip String.[] = String.[]
  lstrip (String.◌∷◌ c s) = let rest = lstrip s in if rules.is_space c then rest else String.◌∷◌ c s

  unfoldable pub rstrip : Name → Name
  unfolding is_blank
  rstrip String.[] = String.[]
  rstrip (String.◌∷◌ c s) =
      let rest = rstrip s in
      if is_blank rest && rules.is_space c then String.[] else String.◌∷◌ c rest

  -- `str.strip()`
  unfoldable pub strip : Name → Name
  unfolding lstrip rstrip
  strip s = rstrip (lstrip s)

  unfoldable pub read_digits : ℕ → Name → ℕ × Name
  read_digits acc String.[] = (acc, String.[])
  read_digits acc (String.◌∷◌ c s) = elim (rules.digit c) [
    | none ↦ (acc, String.◌∷◌ c s)
    | some d ↦ read_digits (acc * 10 + d) s
  ]

  -- `\d+`
  unfoldable pub read_number : Name → Option (ℕ × Name)
  unfolding read_digits
  read_number String.[] = none
  read_number (String.◌∷◌ c s) = elim (rules.digit c) [
    | none ↦ none
    | some d ↦ some (read_digits d s)
  ]

  unfoldable pub read_dot : Name → Option Name
  unfolding is_char
  read_dot String.[] = none
  read_dot (String.◌∷◌ c s) = if is_char "." c then some s else none

  -- `(\d+)\.`
  unfoldable pub read_part : Name → Option (ℕ × Name)
  unfolding read_number read_dot
  read_part s = elim (read_number s) [
    | none ↦ none
    | some (n, rest) ↦ elim (read_dot rest) [ none ↦ none | some after ↦ some (n, after) ]
  ]

  -- `(\d+)\.(\d+)\.(\d+)`, and what follows.
  unfoldable pub read_triple : Name → Option (Version × Name)
  unfolding read_part read_number
  read_triple s = elim (read_part s) [
    | none ↦ none
    | some (major, s1) ↦ elim (read_part s1) [
      | none ↦ none
      | some (minor, s2) ↦ elim (read_number s2) [
        | none ↦ none
        | some (patch, s3) ↦ some (record { major = major; minor = minor; patch = patch }, s3)
      ]
    ]
  ]

  -- `.*` up to the end: no line break.
  unfoldable pub one_line : Name → Bool
  unfolding is_char
  one_line String.[] = true
  one_line (String.◌∷◌ c s) = not (is_char "\n" c) && one_line s

  -- `(?:[-+].*)?$`
  unfoldable pub is_suffix : Name → Bool
  unfolding is_char one_line
  is_suffix String.[] = true
  is_suffix (String.◌∷◌ c s) = (is_char "-" c || is_char "+" c) && one_line s

  -- `_SEMVER_RE.match`
  unfoldable pub match_semver : Name → Option Version
  unfolding read_triple is_suffix
  match_semver s = elim (read_triple s) [
    | none ↦ none
    | some (v, rest) ↦ if is_suffix rest then some v else none
  ]

  -- `parse_version`: `none` is the `ValueError`.
  unfoldable pub parse_version : Name → Option Version
  unfolding match_semver strip
  parse_version v = match_semver (strip v)
