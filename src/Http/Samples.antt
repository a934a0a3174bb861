-- ===== src/Http/Samples.antt =====
-- Sample requests, and the theorems at them.
use fast_flow_transform.Prelude.{
  ℕ, zero, suc, ◌≤◌, ◌<◌, ◌≡◌, refl, sym, ap, ◌∙◌, ◌≢◌, inl, inr, Bool, true, false, none, some, [],
  ◌∷◌, arith, if◌then◌else◌, Bool-cases,
}
use fast_flow_transform.Prelude.Names.{Name, same}
use fast_flow_transform.Prelude.Results.{returns, raises}
use fast_flow_transform.Http.{
  HttpRequest, HttpMeta, cache_rw, Answer, timed_out, response, out_of_pages, HttpWorld, HttpState,
  NextRequest, follow, Paginator, request_with_cache, collect_pages, domain_ok, get_body,
  get_bodies, get_json, backoff, retry_after, no_stats,
}
use fast_flow_transform.Http.Fetched.{Fetch, request_with_cache-Fetch, request_with_cache_again}
use fast_flow_transform.Http.Pages.{offline_sends_nothing, collect_pages_ends}

-- The service is down twice and then answers with what stands in the URL.
abbrev first_answers : ℕ → Answer Name
first_answers zero = timed_out
first_answers (suc zero) = response 503 (("Retry-After", "5") ∷ []) "busy"
first_answers (suc (suc n)) = response 200 [] "ok"

abbrev world : Bool → HttpWorld Name Name
world offline = record {
  mode = cache_rw;
  default_ttl = 0;
  max_retries = 3;
  offline = offline;
  allowed = "a.org" ∷ [];
  key_text = record { lower = λ k. k; hash_key = λ method req. req.url };
  answers = first_answers;
  clock = λ n. n;
  content_hash = λ b. b;
  size = λ b. 2;
  can_sleep = λ v. true;
  host_of = λ url. if same url "u1" then some "a.org" else some "b.org";
  ends_with_domain = λ host d. false;
  json_payload = λ b. some b;
  maybe_json_payload = λ b. b;
}

abbrev request : Name → HttpRequest
request url = record { url = url; params = []; headers = [] }

abbrev initial : HttpState Name
initial = record { cache = []; stats = no_stats; sent = 0; waits = [] }

abbrev ok_meta : Name → HttpMeta
ok_meta url = record { ts = 3; status = 200; headers = []; content_hash = "ok"; url = url }

-- A timeout and a busy service are waited for, and the third answer is returned.
retries_sample :
    ((request_with_cache (world false) "GET" (request "u1") 0 initial).1
      ≡ returns ("ok", ok_meta "u1"))
    × ((request_with_cache (world false) "GET" (request "u1") 0 initial).0.waits
        ≡ backoff 0 ∷ retry_after "5" ∷ [])
unfolding request_with_cache
retries_sample = (refl, refl)

-- The domain of the request is asked for by `get`, and by `get_json` not.
domain_sample : (domain_ok (world false) "u1" ≡ true) × (domain_ok (world false) "u2" ≡ false)
unfolding domain_ok
domain_sample = (refl, refl)

request_with_cache-Fetch_example :
    Fetch
      (world false)
      "GET"
      (request "u1")
      0
      initial
      (request_with_cache (world false) "GET" (request "u1") 0 initial).0
      (request_with_cache (world false) "GET" (request "u1") 0 initial).1
request_with_cache-Fetch_example =
    request_with_cache-Fetch (world false) "GET" (request "u1") 0 initial

abbrev after : HttpState Name
after = (request_with_cache (world false) "GET" (request "u1") 0 initial).0

request_with_cache_again_example :
    ((request_with_cache (world false) "GET" (request "u1") 0 after).1
      ≡ returns ("ok", ok_meta "u1"))
    × ((request_with_cache (world false) "GET" (request "u1") 0 after).0.sent ≡ after.sent)
request_with_cache_again_example =
    request_with_cache_again (world false) "GET" (request "u1") 0 initial after "ok" (ok_meta "u1")
      refl retries_sample.0 refl refl

-- One more page after the first.
abbrev second_page : NextRequest
second_page = record { url = some "u2"; params = none; headers = none }

abbrev two_pages : Paginator (world false)
two_pages req j = if same req.url "u1" then some second_page else none

abbrev rank : HttpRequest → ℕ
rank req = if same req.url "u1" then 1 else 0

two_pages_smaller :
    (req : HttpRequest) (j : Name) (next : NextRequest)
    → two_pages req j ≡ some next
    → rank (follow req next) < rank req
unfolding follow
two_pages_smaller req j next h = elim (Bool-cases (same req.url "u1")) [
  | inl e ↦
      let found : some second_page ≡ some next =
        sym (ap (λ c. if c then some second_page else none) e) ∙ h in
      let same_next : second_page ≡ next = cc in rw (← same_next, e) (omega arith)
  | inr e ↦ absurd (ground (arith, sym (ap (λ c. if c then some second_page else none) e) ∙ h))
]

offline_sends_nothing_example :
    ((get_body (world true) (request "u1") none initial).0.sent ≡ 0)
    × ((get_bodies (world true) 2 two_pages (request "u1") none initial).0.sent ≡ 0)
    × ((get_json (world true) 2 two_pages (request "u1") none initial).0.sent ≡ 0)
offline_sends_nothing_example =
    offline_sends_nothing (world true) 2 two_pages (request "u1") none initial refl

collect_pages_ends_example :
    ((collect_pages (world false) 2 true two_pages 0 (request "u1") initial []).1
      ≢ raises out_of_pages)
    × ((collect_pages (world false) 2 true two_pages 0 (request "u1") initial []).0.sent ≤ 6)
collect_pages_ends_example =
    collect_pages_ends (world false) two_pages rank two_pages_smaller 2 true 0 (request "u1")
      initial [] (omega arith)
