-- ===== src/Http/Fetched.antt =====
-- What one request with cache and retries comes to.
use fast_flow_transform.Prelude.{
  ℕ, ◌+◌, ◌≤◌, ◌<◌, max, ◌≡◌, refl, sym, ap, ◌∙◌, ◌≢◌, Bool, true, false, Option, none, some, arith,
  if◌then◌else◌,
}
use fast_flow_transform.Prelude.Names.{Name}
use mathlib.Core.Path.{ap₂}
use fast_flow_transform.Prelude.Results.{Result, returns, raises}
use fast_flow_transform.Http.{
  HttpRequest, cache_rw, HttpMeta, cache_key, is_stale, read_cache, Answer, HttpError, offline_miss,
  out_of_pages, HttpWorld, HttpState, serve, read_cache_again, if_fresh, request_with_cache,
}
use fast_flow_transform.Http.Attempts.{
  Fails, by_timeout, by_request, by_status, Attempted, only_read, entered, retried, failed, fetched,
  request_loop-Attempted, only_read, entered, attempt_bounds,
}

module _ {B J : Type 0} (w : HttpWorld B J) where
  -- How a request ends: by the cache, by the refusal of the offline mode, or by the answers of the network.
  pub data Fetch (method : Name) (req : HttpRequest) (ttl : ℕ) (s s' : HttpState B)
      (r : Result HttpError (B × HttpMeta)) : Type 0 where
    from_cache :
        (m : HttpMeta) (b : B)
        → read_cache w.mode ttl (w.clock s.sent) s.cache (cache_key w.key_text method req)
          ≡ some (m, b)
        → r ≡ returns (b, m)
        → (s'.sent ≡ s.sent) × (s'.cache ≡ s.cache)
        → Fetch method req ttl s s' r
    refused :
        read_cache w.mode ttl (w.clock s.sent) s.cache (cache_key w.key_text method req) ≡ none
        → w.offline ≡ true
        → r ≡ raises offline_miss
        → s' ≡ s
        → Fetch method req ttl s s' r
    sent :
        read_cache w.mode ttl (w.clock s.sent) s.cache (cache_key w.key_text method req) ≡ none
        → w.offline ≡ false
        → Attempted w (cache_key w.key_text method req) req (max w.max_retries 1) s s' r
        → (s.sent < s'.sent) × (s'.sent ≤ s.sent + max w.max_retries 1)
        → Fetch method req ttl s s' r

  serve-Fetch :
      (method : Name) (req : HttpRequest) (ttl : ℕ) (s : HttpState B) (o : Option (HttpMeta × B))
      (offline : Bool)
      → read_cache w.mode ttl (w.clock s.sent) s.cache (cache_key w.key_text method req) ≡ o
      → w.offline ≡ offline
      → Fetch method req ttl s
          (serve w (cache_key w.key_text method req) req s o offline).0
          (serve w (cache_key w.key_text method req) req s o offline).1
  unfolding serve
  serve-Fetch method req ttl s (some (m, b)) offline q e = from_cache m b q refl (refl, refl)
  serve-Fetch method req ttl s none true q e = refused q e refl refl
  serve-Fetch method req ttl s none false q e =
      let a =
        request_loop-Attempted w 0 (max w.max_retries 1) (cache_key w.key_text method req) req s
          (omega arith) in
      sent q e a (attempt_bounds w a)

  -- A request is answered by the cache, if it reads a fresh entry; else it is refused in offline mode; else
  -- it is sent at least once, again only after a transient failure, and at most as often as the retries allow
  -- (once, if they are 0). The first answer that is no transient failure decides, or the last one: a success is
  -- returned with its meta data and written to the cache under the key of the request, unless the mode is to
  -- read only, where the cache stays as it was; no other entry changes. Anything else raises the error of
  -- that answer.
  pub request_with_cache-Fetch :
      (method : Name) (req : HttpRequest) (ttl : ℕ) (s : HttpState B)
      → Fetch method req ttl s
          (request_with_cache w method req ttl s).0
          (request_with_cache w method req ttl s).1
  unfolding request_with_cache
  request_with_cache-Fetch method req ttl s = serve-Fetch method req ttl s _ w.offline refl refl

  fails_lem : {a : Answer B} {e : HttpError} → Fails a e → e ≢ out_of_pages
  fails_lem by_timeout q = ground (arith, q)
  fails_lem by_request q = ground (arith, q)
  fails_lem (by_status y) q = ground (arith, q)

  attempt_error :
      {key : Name} {req : HttpRequest} {left : ℕ} {s s' : HttpState B}
      {r : Result HttpError (B × HttpMeta)}
      → Attempted w key req left s s' r
      → r ≢ raises out_of_pages
  attempt_error (retried s1 t l c rest) q = attempt_error rest q
  attempt_error (failed e t f) q = let same_error : e ≡ out_of_pages = cc in fails_lem f same_error
  attempt_error (fetched status headers body m e y c i x) q = ground (arith, q)

  -- A request is not one of the errors of the pages.
  pub Fetch-error :
      {method : Name} {req : HttpRequest} {ttl : ℕ} {s s' : HttpState B}
      {r : Result HttpError (B × HttpMeta)}
      → Fetch method req ttl s s' r
      → r ≢ raises out_of_pages
  Fetch-error (from_cache m b q e k) h = ground (arith, sym e ∙ h)
  Fetch-error (refused q o e k) h = ground (arith, sym e ∙ h)
  Fetch-error (sent q o a bounds) h = attempt_error a h

  pub Fetch-bound :
      {method : Name} {req : HttpRequest} {ttl : ℕ} {s s' : HttpState B}
      {r : Result HttpError (B × HttpMeta)}
      → Fetch method req ttl s s' r
      → s'.sent ≤ s.sent + max w.max_retries 1
  Fetch-bound (from_cache m b q e (k, c)) = omega (arith, k)
  Fetch-bound (refused q o e k) = let same_sent = ap (λ x. x.sent) k in omega (arith, same_sent)
  Fetch-bound (sent q o a (lo, hi)) = hi

  pub Fetch-offline :
      {method : Name} {req : HttpRequest} {ttl : ℕ} {s s' : HttpState B}
      {r : Result HttpError (B × HttpMeta)}
      → w.offline ≡ true
      → Fetch method req ttl s s' r
      → s'.sent ≡ s.sent
  Fetch-offline off (from_cache m b q e (k, c)) = k
  Fetch-offline off (refused q o e k) = ap (λ x. x.sent) k
  Fetch-offline off (sent q o a bounds) = absurd (ground (arith, sym off ∙ o))

  -- What a fetch that returns leaves in a cache that is written.
  stored :
      {key : Name} {req : HttpRequest} {left : ℕ} {s s' : HttpState B}
      {r : Result HttpError (B × HttpMeta)} (b : B) (m : HttpMeta)
      → w.mode ≡ cache_rw
      → Attempted w key req left s s' r
      → r ≡ returns (b, m)
      → (ttl now : ℕ) → is_stale ttl now m ≡ false
      → read_cache cache_rw ttl now s'.cache key ≡ some (m, b)
  unfolding read_cache
  stored b m rw_mode (retried s1 t l c rest) q ttl now fresh =
      stored b m rw_mode rest q ttl now fresh
  stored b m rw_mode (failed e t f) q ttl now fresh = absurd (ground (arith, q))
  stored b m rw_mode (fetched status headers body n e y c i (only_read ro kept)) q ttl now fresh =
      absurd (ground (arith, sym rw_mode ∙ ro))
  stored b m rw_mode (fetched status headers body n e y c i (entered writes entry others)) q ttl now
        fresh =
      let same_body : body ≡ b = cc in
      let same_meta : n ≡ m = cc in
      let found : _ ≡ some (m, b) = entry ∙ ap₂ (λ x z. some (x, z)) same_meta same_body in
      ap (if_fresh ttl now) found ∙ ap (λ t. if t then none else some (m, b)) fresh

  fetched_entry :
      (method : Name) (req : HttpRequest) (ttl : ℕ) (s s' : HttpState B)
      (r : Result HttpError (B × HttpMeta)) (b : B) (m : HttpMeta)
      → w.mode ≡ cache_rw
      → Fetch method req ttl s s' r
      → r ≡ returns (b, m)
      → (now : ℕ) → is_stale ttl now m ≡ false
      → read_cache cache_rw ttl now s'.cache (cache_key w.key_text method req) ≡ some (m, b)
  fetched_entry method req ttl s s' r b m rw_mode (from_cache n c q e (_, kept)) h now fresh =
      let same_meta : n ≡ m = cc in
      let same_body : c ≡ b = cc in
      let found : read_cache cache_rw ttl (w.clock s.sent) s.cache (cache_key w.key_text method req)
          ≡ some (m, b) =
        ap (λ mode. read_cache mode ttl (w.clock s.sent) s.cache (cache_key w.key_text method req))
          (sym rw_mode)
        ∙ q
        ∙ ap₂ (λ x y. some (x, y)) same_meta same_body in
      ap (λ entries. read_cache cache_rw ttl now entries (cache_key w.key_text method req)) kept
      ∙ read_cache_again s.cache (cache_key w.key_text method req) m b ttl (w.clock s.sent) ttl now
          found fresh
  fetched_entry method req ttl s s' r b m rw_mode (refused q o e k) h now fresh =
      absurd (ground (arith, sym e ∙ h))
  fetched_entry method req ttl s s' r b m rw_mode (sent q o a bounds) h now fresh =
      stored b m rw_mode a h ttl now fresh

  -- A request that returned is answered by the cache, as long as the entry is not stale: it returns the same
  -- and sends nothing. The cache is read and written.
  pub request_with_cache_again :
      (method : Name) (req : HttpRequest) (ttl : ℕ) (s t : HttpState B) (b : B) (m : HttpMeta)
      → w.mode ≡ cache_rw
      → (request_with_cache w method req ttl s).1 ≡ returns (b, m)
      → t.cache ≡ (request_with_cache w method req ttl s).0.cache
      → is_stale ttl (w.clock t.sent) m ≡ false
      → ((request_with_cache w method req ttl t).1 ≡ returns (b, m))
        × ((request_with_cache w method req ttl t).0.sent ≡ t.sent)
  unfolding request_with_cache serve
  request_with_cache_again method req ttl s t b m rw_mode first kept fresh =
      let key = cache_key w.key_text method req in
      let found =
        fetched_entry method req ttl s _ _ b m rw_mode (request_with_cache-Fetch method req ttl s)
          first (w.clock t.sent) fresh in
      let found' : read_cache w.mode ttl (w.clock t.sent) t.cache key ≡ some (m, b) =
        ap (λ mode. read_cache mode ttl (w.clock t.sent) t.cache key) rw_mode
        ∙ ap (λ entries. read_cache cache_rw ttl (w.clock t.sent) entries key) kept
        ∙ found in
      rw (request_with_cache, found', serve) (refl, refl)
