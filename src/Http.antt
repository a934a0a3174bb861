-- ===== src/Http.antt =====
-- api/http.py: requests with the cache, the retries and the pages. The network is the answers to the
-- requests in the order they are sent, and the clock goes by them too; `B` is the type of bodies and `J` of
-- payloads.
mod Stats
unfoldable pub use Stats.*
mod Cache
unfoldable pub use Cache.*
mod World
unfoldable pub use World.*
pub mod Attempts
pub mod Fetched
pub mod Turns
pub mod Pages
mod Samples
use fast_flow_transform.Prelude.{
  ℕ, zero, suc, ◌+◌, ◌-◌, ◌*◌, ◌/◌, ◌%◌, ◌^◌, ◌≤◌, ◌<◌, min, max, String, ◌≡◌, refl, sym, ap, ◌∙◌,
  ◌≢◌, ◌↔◌, ◌⊎◌, inl, inr, Bool, true, false, not, ◌&&◌, ◌||◌, Option, none, some, List, [], ◌∷◌,
  ◌++◌, map, foldl, arith, ltb, leb, ◌==◌, if◌then◌else◌, Bool-cases, ltb→lt, lt→ltb, length,
  length-append, is_empty, filter, concat, Option-cases, List-cases, all, any, All,
}
use fast_flow_transform.Prelude.Names.{
  Name, same, same_iff, same_lem, same_refl, member, add, set_of, IsNodup, member-add, add-IsNodup,
  member-set_of, set_of-IsNodup, member-append, member-filter, filter-IsNodup, IsSubset,
  length-subset, update, update-same, update-other,
}
use mathlib.Core.Option
use fast_flow_transform.Prelude.Results.{Result, returns, raises}
use Stats.{HttpStats, record_io}
use Cache.{
  Fields, HttpRequest, HttpCacheMode, HttpMeta, KeyText, cache_key, read_cache, write_cache,
}
use World.{
  Answer, timed_out, request_error, response, HttpError, offline_miss, timeout_error, send_error,
  bad_payload, domain_error, after_retries, out_of_pages, status_error, HttpWorld, Wait,
  retry_after, backoff, HttpState, Verdict, again, give_up, done, is_transient, is_success,
  NextRequest, follow, header,
}

module _ {B J : Type 0} (w : HttpWorld B J) where
  pub wait_for : ℕ → Fields → Wait
  unfolding header
  wait_for i headers =
      let ra = header "Retry-After" headers in
      if not (same ra "") && w.can_sleep ra then retry_after ra else backoff i

  -- The body of the loop over the attempts: `last` is `i == tries - 1`.
  unfoldable pub judge : ℕ → Bool → Answer B → Verdict B
  unfolding wait_for is_transient is_success
  judge i last timed_out = if last then give_up timeout_error else again (backoff i)
  judge i last request_error = if last then give_up send_error else again (backoff i)
  judge i last (response status headers body) =
      if is_transient status && not last
      then again (wait_for i headers)
      else if is_success status
      then done status headers body
      else give_up (status_error status)

  -- The meta data that `_write_cache` returns.
  abbrev pub meta_of : HttpState B → HttpRequest → ℕ → Fields → B → HttpMeta
  meta_of s req status headers body = record {
    ts = w.clock s.sent;
    status = status;
    headers = headers;
    content_hash = w.content_hash body;
    url = req.url;
  }

  abbrev pub send : HttpState B → HttpState B
  send s = record s { sent = suc s.sent }

  abbrev pub pause : HttpState B → Wait → HttpState B
  pause s wait = record s { waits = s.waits ++ wait ∷ [] }

  -- A response is written to the cache and recorded.
  unfoldable pub accept : HttpState B → Name → HttpRequest → ℕ → Fields → B → HttpState B
  unfolding write_cache record_io
  accept s key req status headers body =
      let m = meta_of s req status headers body in
      record s {
        cache = write_cache w.mode key m body s.cache;
        stats = record_io key m.content_hash false (w.size body) false s.stats;
      }

  abbrev pub conclude :
      Name
      → HttpRequest
      → HttpState B
      → (Wait → HttpState B × Result HttpError (B × HttpMeta))
      → Verdict B
      → HttpState B × Result HttpError (B × HttpMeta)
  conclude key req s next (again wait) = next wait
  conclude key req s next (give_up e) = (send s, raises e)
  conclude key req s next (done status headers body) = (
    accept (send s) key req status headers body,
    returns (body, meta_of (send s) req status headers body),
  )

  -- The loop over the attempts, from attempt `i` with so many left.
  unfoldable pub request_loop :
      ℕ → ℕ → Name → HttpRequest → HttpState B → HttpState B × Result HttpError (B × HttpMeta)
  unfolding judge accept
  request_loop i zero key req s = (s, raises after_retries)
  request_loop i (suc left) key req s =
      conclude key req s (λ wait. request_loop (suc i) left key req (pause (send s) wait))
        (judge i (left == 0) (w.answers s.sent))

  -- A hit is recorded.
  abbrev pub hit : HttpState B → Name → HttpMeta × B → HttpState B
  hit s key (m, b) = record s {
    stats = record_io key m.content_hash true (w.size b) w.offline s.stats;
  }

  -- By what the cache answered, and whether the mode is offline.
  unfoldable pub serve :
      Name
      → HttpRequest
      → HttpState B
      → Option (HttpMeta × B)
      → Bool
      → HttpState B × Result HttpError (B × HttpMeta)
  unfolding record_io request_loop
  serve key req s (some (m, b)) offline = (hit s key (m, b), returns (b, m))
  serve key req s none true = (s, raises offline_miss)
  serve key req s none false = request_loop 0 (max w.max_retries 1) key req s

  -- `_request_with_cache`
  unfoldable pub request_with_cache :
      Name → HttpRequest → ℕ → HttpState B → HttpState B × Result HttpError (B × HttpMeta)
  unfolding cache_key read_cache serve
  request_with_cache method req ttl s =
      let key = cache_key w.key_text method req in
      serve key req s (read_cache w.mode ttl (w.clock s.sent) s.cache key) w.offline

  -- What `_collect_pages` does with a body: nothing, `_maybe_json_payload`, or `_json_payload`, which raises.
  unfoldable pub payload_of : Bool → B → Result HttpError J
  payload_of true b = elim (w.json_payload b) [ none ↦ raises bad_payload | some j ↦ returns j ]
  payload_of false b = returns (w.maybe_json_payload b)

  -- A paginator: its `next_request`, if there is one.
  abbrev pub Paginator : Type 0
  Paginator = HttpRequest → J → Option NextRequest

  abbrev pub Page : Type 0
  Page = B × HttpMeta × J

  -- The loop of `_collect_pages` with a paginator, for so many pages.
  unfoldable pub collect_pages :
      ℕ
      → Bool
      → Paginator
      → ℕ
      → HttpRequest
      → HttpState B
      → List Page
      → HttpState B × Result HttpError (List Page)
  unfolding request_with_cache payload_of follow
  collect_pages zero strict paginator ttl req s pages = (s, raises out_of_pages)
  collect_pages (suc fuel) strict paginator ttl req s pages =
      elim (request_with_cache "GET" req ttl s).1 [
        | raises e ↦ ((request_with_cache "GET" req ttl s).0, raises e)
        | returns (body, m) ↦ elim (payload_of strict body) [
          | raises e ↦ ((request_with_cache "GET" req ttl s).0, raises e)
          | returns j ↦ elim (paginator req j) [
            | none ↦ ((request_with_cache "GET" req ttl s).0, returns (pages ++ (body, m, j) ∷ []))
            | some next ↦
                collect_pages fuel strict paginator ttl (follow req next)
                  (request_with_cache "GET" req ttl s).0 (pages ++ (body, m, j) ∷ [])
          ]
        ]
      ]

  -- `_domain_ok`
  unfoldable pub domain_ok : Name → Bool
  domain_ok url = if is_empty w.allowed then true else elim (w.host_of url) [
    | none ↦ true
    | some host ↦ any (λ d. same host d || w.ends_with_domain host d) w.allowed
  ]

  abbrev pub ttl_of : Option ℕ → ℕ
  ttl_of o = Option.get_or o w.default_ttl

  abbrev pub map_result : {A C : Type 0} → (A → C) → Result HttpError A → Result HttpError C
  map_result f (returns a) = returns (f a)
  map_result f (raises e) = raises e

  -- `get` without a paginator.
  unfoldable pub get_body : HttpRequest → Option ℕ → HttpState B → HttpState B × Result HttpError B
  unfolding domain_ok request_with_cache
  get_body req ttl s =
      if not (domain_ok req.url)
      then (s, raises domain_error)
      else let (s', r) = request_with_cache "GET" req (ttl_of ttl) s in
        (s', map_result (λ p. p.0) r)

  -- `get` with a paginator.
  unfoldable pub get_bodies :
      ℕ → Paginator → HttpRequest → Option ℕ → HttpState B → HttpState B × Result HttpError (List B)
  unfolding domain_ok collect_pages
  get_bodies fuel paginator req ttl s =
      if not (domain_ok req.url)
      then (s, raises domain_error)
      else let (s', r) = collect_pages fuel false paginator (ttl_of ttl) req s [] in
        (s', map_result (map (λ p. p.0)) r)

  -- `get_json` with a paginator; it asks for no domain.
  unfoldable pub get_json :
      ℕ → Paginator → HttpRequest → Option ℕ → HttpState B → HttpState B × Result HttpError (List J)
  unfolding collect_pages
  get_json fuel paginator req ttl s =
      let (s', r) = collect_pages fuel true paginator (ttl_of ttl) req s [] in
      (s', map_result (map (λ p. p.2)) r)
