-- ===== src/Packages/Constraints.antt =====
-- packages.py: constraints on versions.
use Prim.Native.String as Str
use fast_flow_transform.Prelude.{
  ℕ, zero, suc, ◌+◌, ◌/◌, ◌%◌, String, Bool, true, false, ◌&&◌, ◌||◌, Option, none, some, List, [],
  ◌∷◌, ltb, ◌==◌, if◌then◌else◌,
}
use fast_flow_transform.Prelude.Names.{Name}
use fast_flow_transform.Prelude.Int.{ℤ, pos, negsuc}
use fast_flow_transform.Packages.Versions.{
  TextRules, Version, is_char, is_blank, strip, read_triple, match_semver, parse_version,
}

-- The order of tuples.
abbrev pub version_ltb : Version → Version → Bool
version_ltb a b =
    ltb a.major b.major
    || (a.major == b.major && (ltb a.minor b.minor || (a.minor == b.minor && ltb a.patch b.patch)))

-- The result of `compare_versions` of the parsed texts.
abbrev pub compare_parsed : Version → Version → ℤ
compare_parsed a b = if version_ltb a b then negsuc 0 else if version_ltb b a then pos 1 else pos 0

-- The operators of a constraint.
pub data Op : Type 0 where
  op_eq op_ne op_gt op_lt op_ge op_le : Op

-- The chain of tests of `version_satisfies` on the result of the comparison.
abbrev pub passes : Op → ℤ → Bool
passes op_eq (pos zero) = true
passes op_eq _ = false
passes op_ne (pos zero) = false
passes op_ne _ = true
passes op_gt (pos (suc n)) = true
passes op_gt _ = false
passes op_lt (negsuc n) = true
passes op_lt _ = false
passes op_ge (negsuc n) = false
passes op_ge _ = true
passes op_le (pos (suc n)) = false
passes op_le _ = true

-- `str` of a number: its decimal digits. The fuel is the number itself, which has no more digits.
digit_text : ℕ → Name
digit_text n =
    if n == 0
    then "0"
    else if n == 1
    then "1"
    else if n == 2
    then "2"
    else if n == 3
    then "3"
    else if n == 4
    then "4"
    else if n == 5
    then "5"
    else if n == 6
    then "6"
    else if n == 7
    then "7"
    else if n == 8
    then "8"
    else "9"

show_within : ℕ → ℕ → Name
unfolding digit_text
show_within zero n = digit_text (n % 10)
show_within (suc fuel) n =
    let rest = show_within fuel (n / 10) in
    if ltb n 10 then digit_text n else Str.◌++◌ rest (digit_text (n % 10))

show : ℕ → Name
unfolding show_within
show n = show_within n n

show_version : ℕ → ℕ → ℕ → Name
unfolding show
show_version a b c = Str.◌++◌ (show a) (Str.◌++◌ "." (Str.◌++◌ (show b) (Str.◌++◌ "." (show c))))

range_text : Name → Name → Name
range_text low upper = Str.◌++◌ ">=" (Str.◌++◌ low (Str.◌++◌ ",<" upper))

module _ (rules : TextRules) where
  -- `compare_versions`
  unfoldable pub compare_versions : Name → Name → Option ℤ
  unfolding parse_version
  compare_versions a b = elim (parse_version rules a) [
    | none ↦ none
    | some a_t ↦ elim (parse_version rules b) [
      | none ↦ none
      | some b_t ↦ some (compare_parsed a_t b_t)
    ]
  ]

  caret_upper : Version → Name
  unfolding show_version
  caret_upper v =
      if ltb 0 v.major
      then show_version (v.major + 1) 0 0
      else if ltb 0 v.minor
      then show_version 0 (v.minor + 1) 0
      else show_version 0 0 (v.patch + 1)

  -- `_expand_caret`
  unfoldable pub expand_caret : Name → Option Name
  unfolding parse_version caret_upper range_text
  expand_caret v = elim (parse_version rules v) [
    | none ↦ none
    | some p ↦ some (range_text v (caret_upper p))
  ]

  -- `_expand_tilde`
  unfoldable pub expand_tilde : Name → Option Name
  unfolding parse_version show_version range_text
  expand_tilde v = elim (parse_version rules v) [
    | none ↦ none
    | some p ↦
        some
          (range_text (show_version p.major p.minor p.patch) (show_version p.major (p.minor + 1) 0))
  ]

  -- The expansion at the head of `_parse_constraints`, after `strip`.
  expand : Name → Option Name
  unfolding expand_caret expand_tilde is_char strip
  expand String.[] = some String.[]
  expand (String.◌∷◌ c s) =
      if is_char "^" c
      then expand_caret (strip rules s)
      else if is_char "~" c
      then expand_tilde (strip rules s)
      else some (String.◌∷◌ c s)

  -- `re.split(r"[,\s]+", expr)` without the empty parts: the first part, which may be empty, and the rest.
  split_parts : Name → Name × List Name
  unfolding is_char is_blank
  split_parts String.[] = (String.[], [])
  split_parts (String.◌∷◌ c s) =
      let (part, parts) = split_parts s in
      if is_char "," c || rules.is_space c
      then (String.[], if is_blank part then parts else part ∷ parts)
      else (String.◌∷◌ c part, parts)

  tokens_of : Name → List Name
  unfolding split_parts is_blank
  tokens_of s = let (part, parts) = split_parts s in if is_blank part then parts else part ∷ parts

  -- The operator at the head of a token, and the rest.
  read_op : Name → Op × Name
  unfolding is_char
  read_op String.[] = (op_eq, String.[])
  read_op (String.◌∷◌ c String.[]) =
      if is_char ">" c
      then (op_gt, String.[])
      else if is_char "<" c
      then (op_lt, String.[])
      else (op_eq, String.◌∷◌ c String.[])
  read_op (String.◌∷◌ c (String.◌∷◌ d s)) =
      let rest = String.◌∷◌ d s in
      if is_char "=" d && is_char ">" c
      then (op_ge, s)
      else if is_char "=" d && is_char "<" c
      then (op_le, s)
      else if is_char "=" d && is_char "=" c
      then (op_eq, s)
      else if is_char "=" d && is_char "!" c
      then (op_ne, s)
      else if is_char ">" c
      then (op_gt, rest)
      else if is_char "<" c
      then (op_lt, rest)
      else (op_eq, String.◌∷◌ c rest)

  -- The body of the loop over the parts: `none` is the `ValueError`.
  read_token : Name → Option (Op × Name)
  unfolding read_op read_triple match_semver is_blank
  read_token p =
      let (op, v) = read_op p in
      let bare : Option (Op × Name) = elim (match_semver rules p) [
        | none ↦ none
        | some _ ↦ some (op_eq, p)
      ] in
      elim (read_triple rules v) [
        | none ↦ bare
        | some (_, rest) ↦ if is_blank rest then some (op, v) else bare
      ]

  read_tokens : List Name → Option (List (Op × Name))
  unfolding read_token
  read_tokens [] = some []
  read_tokens (p ∷ ps) = elim (read_token p) [
    | none ↦ none
    | some check ↦ elim (read_tokens ps) [ none ↦ none | some checks ↦ some (check ∷ checks) ]
  ]

  -- `_parse_constraints`
  unfoldable pub parse_constraints : Name → Option (List (Op × Name))
  unfolding strip expand tokens_of read_tokens
  parse_constraints expr = elim (expand (strip rules expr)) [
    | none ↦ none
    | some text ↦ read_tokens (tokens_of text)
  ]

  -- The loop of `version_satisfies`.
  unfoldable pub check_all : Name → List (Op × Name) → Option Bool
  unfolding compare_versions
  check_all actual [] = some true
  check_all actual ((op, target) ∷ checks) = elim (compare_versions actual target) [
    | none ↦ none
    | some cmp ↦ elim (passes op cmp) [ false ↦ some false | true ↦ check_all actual checks ]
  ]

  -- `version_satisfies`: `none` is a `ValueError`.
  unfoldable pub version_satisfies : Name → Option Name → Option Bool
  unfolding parse_constraints check_all is_blank
  version_satisfies actual none = some true
  version_satisfies actual (some constraint) =
      if is_blank constraint then some true else elim (parse_constraints constraint) [
        | none ↦ none
        | some checks ↦ check_all actual checks
      ]
