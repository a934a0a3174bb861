-- ===== src/Http/Pages.antt =====
-- The loop over the pages: it ends, keeps the pages it had, and sends nothing in offline mode.
use fast_flow_transform.Prelude.{
  ℕ, zero, suc, ◌+◌, ◌*◌, ◌≤◌, ◌<◌, max, ◌≡◌, refl, ap, ◌∙◌, ◌≢◌, inl, inr, Bool, true, false,
  Option, some, List, [], arith, Bool-cases,
}
use fast_flow_transform.Prelude.Results.{Result, raises}
use fast_flow_transform.Http.{
  HttpRequest, HttpError, out_of_pages, HttpWorld, HttpState, Paginator, Page, NextRequest, follow,
  collect_pages, domain_ok, ttl_of, get_body, get_bodies, get_json,
}
use fast_flow_transform.Http.Fetched.{
  request_with_cache-Fetch, Fetch-error, Fetch-bound, Fetch-offline,
}
use fast_flow_transform.Http.Turns.{
  Turns, no_turn, no_page, no_payload, last_page, next_page, collect_pages-Turns, payload_error,
}

module _ {B J : Type 0} (w : HttpWorld B J) where
  -- Offline, no turn sends anything.
  Turns-offline :
      {strict : Bool} {paginator : Paginator w} {ttl fuel : ℕ} {req : HttpRequest}
      {s s' : HttpState B} {pages : List (Page w)} {r : Result HttpError (List (Page w))}
      → w.offline ≡ true
      → Turns w strict paginator ttl fuel req s pages s' r
      → s'.sent ≡ s.sent
  Turns-offline off no_turn = refl
  Turns-offline off (no_page e f) = Fetch-offline w off f
  Turns-offline off (no_payload body m e f q) = Fetch-offline w off f
  Turns-offline off (last_page body m j f q z) = Fetch-offline w off f
  Turns-offline off (next_page body m j next f q z rest) =
      Turns-offline off rest ∙ Fetch-offline w off f

  -- In offline mode nothing is sent: not by a request, nor by its next pages.
  pub offline_sends_nothing :
      (fuel : ℕ) (paginator : Paginator w) (req : HttpRequest) (ttl : Option ℕ) (s : HttpState B)
      → w.offline ≡ true
      → ((get_body w req ttl s).0.sent ≡ s.sent)
        × ((get_bodies w fuel paginator req ttl s).0.sent ≡ s.sent)
        × ((get_json w fuel paginator req ttl s).0.sent ≡ s.sent)
  unfolding get_body get_bodies get_json
  offline_sends_nothing fuel paginator req ttl s off =
      let one = Fetch-offline w off (request_with_cache-Fetch w "GET" req (ttl_of w ttl) s) in
      let loose =
        Turns-offline off (collect_pages-Turns w fuel false paginator (ttl_of w ttl) req s []) in
      let strict =
        Turns-offline off (collect_pages-Turns w fuel true paginator (ttl_of w ttl) req s []) in
      elim (Bool-cases (domain_ok w req.url)) [
        | inl e ↦ rw e (one, loose, strict)
        | inr e ↦ rw e (refl, refl, strict)
      ]

  -- A measure of requests that every page makes smaller bounds the pages.
  times_le : (a b m : ℕ) → a ≤ b → a * m ≤ b * m
  times_le zero b m h = omega arith
  times_le (suc a) zero m h = absurd (omega (arith, h))
  times_le (suc a) (suc b) m h = let less = times_le a b m (omega (arith, h)) in omega (arith, less)

  more_sent : (a b c n k m : ℕ) → b ≤ a + m → c ≤ b + suc n * m → n < k → c ≤ a + suc k * m
  more_sent a b c n k m first rest less =
      let more = times_le (suc n) k m less in omega (arith, more, first, rest)

  module _ (paginator : Paginator w) (rank : HttpRequest → ℕ)
      (smaller : (req : HttpRequest) (j : J) (next : NextRequest)
        → paginator req j ≡ some next
        → rank (follow req next) < rank req) where
    Turns-bounded :
        {strict : Bool} {ttl fuel : ℕ} {req : HttpRequest} {s s' : HttpState B}
        {pages : List (Page w)} {r : Result HttpError (List (Page w))}
        → rank req < fuel
        → Turns w strict paginator ttl fuel req s pages s' r
        → (r ≢ raises out_of_pages) × (s'.sent ≤ s.sent + suc (rank req) * max w.max_retries 1)
    Turns-bounded h no_turn = absurd (omega (arith, h))
    Turns-bounded h (no_page e f) = (
      λ y. let same_error : e ≡ out_of_pages = cc in Fetch-error w f (ap raises same_error),
      let first = Fetch-bound w f in omega (arith, first),
    )
    Turns-bounded h (no_payload body m e f q) = (
      λ y.
          let same_error : e ≡ out_of_pages = cc in
          payload_error w _ body (q ∙ ap raises same_error),
      let first = Fetch-bound w f in omega (arith, first),
    )
    Turns-bounded h (last_page body m j f q z) =
        ((λ y. ground (arith, y)), let first = Fetch-bound w f in omega (arith, first))
    Turns-bounded {req = req} {s = s} {s' = s'} h (next_page {s1 = s1} body m j next f q z rest) =
        let less = smaller req j next z in
        let (a, b) = Turns-bounded (omega arith) rest in
        (
          a,
          more_sent s.sent s1.sent s'.sent (rank (follow req next)) (rank req) (max w.max_retries 1)
              (Fetch-bound w f) b less,
        )

    -- With a turn for each smaller measure the loop over the pages is left: it never runs out, and sends at
    -- most as many requests for each page as the retries allow.
    pub collect_pages_ends :
        (fuel : ℕ) (strict : Bool) (ttl : ℕ) (req : HttpRequest) (s : HttpState B)
        (pages : List (Page w))
        → rank req < fuel
        → ((collect_pages w fuel strict paginator ttl req s pages).1 ≢ raises out_of_pages)
          × ((collect_pages w fuel strict paginator ttl req s pages).0.sent
              ≤ s.sent + suc (rank req) * max w.max_retries 1)
    collect_pages_ends fuel strict ttl req s pages h =
        Turns-bounded h (collect_pages-Turns w fuel strict paginator ttl req s pages)
