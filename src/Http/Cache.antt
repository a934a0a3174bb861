-- ===== src/Http/Cache.antt =====
-- api/http.py: the keys and the files of the cache. The two files of a key are one entry, as they are
-- written together.
use fast_flow_transform.Prelude.{
  ℕ, ◌+◌, ◌≡◌, refl, sym, ap, ◌∙◌, inl, inr, Bool, false, ◌&&◌, Option, none, some, List, [], ◌∷◌,
  arith, ltb, if◌then◌else◌, Bool-cases,
}
use fast_flow_transform.Prelude.Names.{Name, same, same_iff, member}
use mathlib.Core.Option

abbrev pub Fields : Type 0
Fields = List (Name × Name)

pub record HttpRequest : Type 0 where
  pub url : Name
  pub params : Fields
  pub headers : Fields

-- `FF_HTTP_CACHE_MODE`: what is neither "off" nor "ro" reads and writes.
pub data HttpCacheMode : Type 0 where
  cache_off cache_ro cache_rw : HttpCacheMode

pub record HttpMeta : Type 0 where
  pub ts : ℕ
  pub status : ℕ
  pub headers : Fields
  pub content_hash : Name
  pub url : Name

-- The text methods, and the hash of the JSON of a method, a URL, parameters and masked headers.
pub record KeyText : Type 0 where
  pub lower : Name → Name
  pub hash_key : Name → HttpRequest → Name

abbrev pub mask_keys : List Name
mask_keys =
    "authorization" ∷ "x-api-key" ∷ "apikey" ∷ "api_key" ∷ "token" ∷ "secret" ∷ "password" ∷ []

-- `_mask_headers`
unfoldable pub mask_headers : KeyText → Fields → Fields
mask_headers t [] = []
mask_headers t ((k, v) ∷ fields) =
    (k, if member (t.lower k) mask_keys then "***" else v) ∷ mask_headers t fields

-- `_cache_key`
unfoldable pub cache_key : KeyText → Name → HttpRequest → Name
unfolding mask_headers
cache_key t method req = t.hash_key method (record req { headers = mask_headers t req.headers })

-- `ttl and ttl > 0` and an age above it.
abbrev pub is_stale : ℕ → ℕ → HttpMeta → Bool
is_stale ttl now m = ltb 0 ttl && ltb (m.ts + ttl) now

module _ {B : Type 0} where
  -- The cache directory: the meta data and the body under each key.
  unfoldable pub cache_entry : List (Name × (HttpMeta × B)) → Name → Option (HttpMeta × B)
  cache_entry [] key = none
  cache_entry ((k, e) ∷ entries) key = if same k key then some e else cache_entry entries key

  unfoldable pub set_entry :
      Name → HttpMeta × B → List (Name × (HttpMeta × B)) → List (Name × (HttpMeta × B))
  set_entry key e [] = (key, e) ∷ []
  set_entry key e ((k, old) ∷ entries) =
      if same k key then (k, e) ∷ entries else (k, old) ∷ set_entry key e entries

  abbrev pub if_fresh : ℕ → ℕ → Option (HttpMeta × B) → Option (HttpMeta × B)
  if_fresh ttl now none = none
  if_fresh ttl now (some (m, b)) = if is_stale ttl now m then none else some (m, b)

  -- `_read_cache`
  unfoldable pub read_cache :
      HttpCacheMode → ℕ → ℕ → List (Name × (HttpMeta × B)) → Name → Option (HttpMeta × B)
  unfolding cache_entry
  read_cache cache_off ttl now entries key = none
  read_cache mode ttl now entries key = if_fresh ttl now (cache_entry entries key)

  -- The file system part of `_write_cache`.
  unfoldable pub write_cache :
      HttpCacheMode
      → Name
      → HttpMeta
      → B
      → List (Name × (HttpMeta × B))
      → List (Name × (HttpMeta × B))
  unfolding set_entry
  write_cache cache_ro key m b entries = entries
  write_cache mode key m b entries = set_entry key (m, b) entries

  pub cache_entry-set_entry :
      (entries : List (Name × (HttpMeta × B))) (key : Name) (e : HttpMeta × B)
      → cache_entry (set_entry key e entries) key ≡ some e
  unfolding cache_entry set_entry
  cache_entry-set_entry [] key e = ground (arith, same_iff key key)
  cache_entry-set_entry ((k, old) ∷ entries) key e =
      ground (arith, same_iff k key, cache_entry-set_entry entries key e)

  pub set_entry_else :
      (entries : List (Name × (HttpMeta × B))) (key : Name) (e : HttpMeta × B) (k : Name)
      → same key k ≡ false
      → cache_entry (set_entry key e entries) k ≡ cache_entry entries k
  unfolding cache_entry set_entry
  set_entry_else [] key e k h = ground (arith, h)
  set_entry_else ((j, old) ∷ entries) key e k h =
      ground
        (arith, h, same_iff j key, same_iff j k, same_iff key k, set_entry_else entries key e k)

  -- What was written is read back as long as it is not stale.
  pub read_cache-write_cache :
      (entries : List (Name × (HttpMeta × B))) (key : Name) (m : HttpMeta) (b : B) (ttl now : ℕ)
      → is_stale ttl now m ≡ false
      → read_cache cache_rw ttl now (write_cache cache_rw key m b entries) key ≡ some (m, b)
  unfolding read_cache write_cache
  read_cache-write_cache entries key m b ttl now fresh =
      rw (read_cache, cache_entry-set_entry entries key (m, b), fresh) refl

  if_fresh_again :
      (o : Option (HttpMeta × B)) (m : HttpMeta) (b : B) (ttl now ttl' now' : ℕ)
      → if_fresh ttl now o ≡ some (m, b)
      → is_stale ttl' now' m ≡ false
      → if_fresh ttl' now' o ≡ some (m, b)
  if_fresh_again none m b ttl now ttl' now' h fresh = absurd (ground (arith, h))
  if_fresh_again (some (n, c)) m b ttl now ttl' now' h fresh =
      elim (Bool-cases (is_stale ttl now n)) [
        | inl e ↦ absurd (ground (arith, h, e))
        | inr e ↦
            let same_entry : some (n, c) ≡ some (m, b) =
              sym (ap (λ x. if x then none else some (n, c)) e) ∙ h in
            let same_meta : n ≡ m =
              ap (λ (o : Option (HttpMeta × B)). (Option.get_or o (n, c)).0) same_entry in
            let fresh' : is_stale ttl' now' n ≡ false = ap (is_stale ttl' now') same_meta ∙ fresh in
            ap (λ x. if x then none else some (n, c)) fresh' ∙ same_entry
      ]

  -- An entry that was read once is read again as long as it is not stale.
  pub read_cache_again :
      (entries : List (Name × (HttpMeta × B))) (key : Name) (m : HttpMeta) (b : B)
      (ttl now ttl' now' : ℕ)
      → read_cache cache_rw ttl now entries key ≡ some (m, b)
      → is_stale ttl' now' m ≡ false
      → read_cache cache_rw ttl' now' entries key ≡ some (m, b)
  unfolding read_cache
  read_cache_again entries key m b ttl now ttl' now' h fresh =
      if_fresh_again (cache_entry entries key) m b ttl now ttl' now' h fresh
