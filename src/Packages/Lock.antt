-- ===== src/Packages/Lock.antt =====
-- packages.py: the lock file and the mapping that is written to packages.lock.yml.
mod Samples
use fast_flow_transform.Prelude.{
  ℕ, zero, suc, ◌+◌, ◌-◌, ◌*◌, ◌/◌, ◌%◌, ◌^◌, ◌≤◌, ◌<◌, min, max, String, ◌≡◌, refl, sym, ap, ◌∙◌,
  ◌≢◌, ◌↔◌, ◌⊎◌, inl, inr, Bool, true, false, not, ◌&&◌, ◌||◌, Option, none, some, List, [], ◌∷◌,
  ◌++◌, map, foldl, arith, ltb, leb, ◌==◌, if◌then◌else◌, Bool-cases, ltb→lt, lt→ltb, length,
  length-append, is_empty, filter, concat, Option-cases, List-cases, all, any, All,
}
use fast_flow_transform.Prelude.Names.{
  Name, same, same_iff, same_lem, same_refl, member, add, set_of, IsNodup, member-add, add-IsNodup,
  member-set_of, set_of-IsNodup, member-append, member-filter, filter-IsNodup, IsSubset,
  length-subset, update, update-same, update-other,
}
use mathlib.Core.Option
use fast_flow_transform.Prelude.Results.{Result, returns, raises, ◌>>=◌}

pub record LockedSource : Type 0 where
  pub kind : Name
  pub path : Option Name
  pub git : Option Name
  pub rev : Option Name
  pub subdir : Option Name

pub record LockEntry : Type 0 where
  pub name : Name
  pub version : Name
  pub source : LockedSource

pub record LockFile : Type 0 where
  pub fft_version : Option Name
  pub entries : List LockEntry

-- The mapping of a source: the texts under its keys. A row holds texts and such a mapping.
abbrev pub SourceMap : Type 0
SourceMap = List (Name × Name)

pub data Field : Type 0 where
  text : Name → Field
  source_map : SourceMap → Field

abbrev pub Row : Type 0
Row = List (Name × Field)

-- The whole mapping, with its two keys.
pub record LockMap : Type 0 where
  pub fft_version : Option Name
  pub packages : Option (List Row)

-- `mapping.get(key)`
unfoldable pub look_up {ℓ} : {A : Type ℓ} → List (Name × A) → Name → Option A
look_up [] key = none
look_up ((k, a) ∷ rest) key = if same k key then some a else look_up rest key

-- `if value is not None: out[key] = value`
abbrev pub put_key : Name → Option Name → SourceMap
put_key key none = []
put_key key (some value) = (key, value) ∷ []

-- `LockedSource.to_mapping`
unfoldable pub source_to_mapping : LockedSource → SourceMap
source_to_mapping s =
    ("kind", s.kind)
    ∷ (put_key "path" s.path
        ++ (put_key "git" s.git ++ (put_key "rev" s.rev ++ put_key "subdir" s.subdir)))

-- `LockEntry.to_mapping`
unfoldable pub entry_to_mapping : LockEntry → Row
unfolding source_to_mapping
entry_to_mapping e =
    ("name", text e.name)
    ∷ ("version", text e.version)
    ∷ ("source", source_map (source_to_mapping e.source))
    ∷ []

-- `LockFile.to_mapping`
unfoldable pub to_mapping : LockFile → LockMap
unfolding entry_to_mapping
to_mapping f = record {
  fft_version = f.fft_version;
  packages = some (map entry_to_mapping f.entries);
}

-- A missing key, and a value of another type than the code expects.
pub data LockError : Type 0 where
  key_error : (key : Name) → LockError
  wrong_type : LockError

-- `row.get("source") or {}`
abbrev pub source_of : Option Field → Result LockError SourceMap
source_of none = returns []
source_of (some (source_map m)) = returns m
source_of (some (text t)) = if same t "" then returns [] else raises wrong_type

unfoldable pub read_source : SourceMap → LockedSource
unfolding look_up
read_source src = record {
  kind = Option.get_or (look_up src "kind") "path";
  path = look_up src "path";
  git = look_up src "git";
  rev = look_up src "rev";
  subdir = look_up src "subdir";
}

-- `row[key]`
abbrev pub text_at : Name → Option Field → Result LockError Name
text_at key (some (text t)) = returns t
text_at key (some (source_map m)) = raises wrong_type
text_at key none = raises (key_error key)

-- One round of the loop of `LockFile.from_mapping`.
unfoldable pub read_row : Row → Result LockError LockEntry
unfolding look_up read_source
read_row row = do
  src ← source_of (look_up row "source")
  name ← text_at "name" (look_up row "name")
  version ← text_at "version" (look_up row "version")
  returns (record { name = name; version = version; source = read_source src })

unfoldable pub read_rows : List Row → Result LockError (List LockEntry)
unfolding read_row
read_rows [] = returns []
read_rows (row ∷ rows) = do entry ← read_row row; rest ← read_rows rows; returns (entry ∷ rest)

-- `LockFile.from_mapping`
unfoldable pub from_mapping : LockMap → Result LockError LockFile
unfolding read_rows
from_mapping m = do
  entries ← read_rows (Option.get_or m.packages [])
  returns (record { fft_version = m.fft_version; entries = entries })

-- The keys of the mapping that follow "kind".
module _ (k : Name) where
  abbrev source_with : Option Name → Option Name → Option Name → Option Name → LockedSource
  source_with p g r d = record { kind = k; path = p; git = g; rev = r; subdir = d }

  read_source-source_with :
      (p g r d : Option Name)
      → read_source (source_to_mapping (source_with p g r d)) ≡ source_with p g r d
  unfolding read_source look_up source_to_mapping
  read_source-source_with none none none none = refl
  read_source-source_with none none none (some d) = refl
  read_source-source_with none none (some r) none = refl
  read_source-source_with none none (some r) (some d) = refl
  read_source-source_with none (some g) none none = refl
  read_source-source_with none (some g) none (some d) = refl
  read_source-source_with none (some g) (some r) none = refl
  read_source-source_with none (some g) (some r) (some d) = refl
  read_source-source_with (some p) none none none = refl
  read_source-source_with (some p) none none (some d) = refl
  read_source-source_with (some p) none (some r) none = refl
  read_source-source_with (some p) none (some r) (some d) = refl
  read_source-source_with (some p) (some g) none none = refl
  read_source-source_with (some p) (some g) none (some d) = refl
  read_source-source_with (some p) (some g) (some r) none = refl
  read_source-source_with (some p) (some g) (some r) (some d) = refl

read_source-to_mapping : (s : LockedSource) → read_source (source_to_mapping s) ≡ s
read_source-to_mapping s = read_source-source_with s.kind s.path s.git s.rev s.subdir

read_rows-to_mapping : (es : List LockEntry) → read_rows (map entry_to_mapping es) ≡ returns es
unfolding read_rows read_row look_up entry_to_mapping
read_rows-to_mapping [] = refl
read_rows-to_mapping (e ∷ es) = rw (read_rows-to_mapping es, read_source-to_mapping e.source) refl

-- What is written to the lock file is read back as it was.
pub from_mapping-to_mapping : (f : LockFile) → from_mapping (to_mapping f) ≡ returns f
unfolding from_mapping to_mapping
from_mapping-to_mapping f = rw (read_rows-to_mapping f.entries) refl
