-- ===== src/Http/Turns.antt =====
-- The turns of the loop over the pages.
use fast_flow_transform.Prelude.{
  ℕ, zero, suc, ◌≡◌, refl, sym, ap, ◌∙◌, ◌≢◌, ◌⊎◌, inl, inr, Bool, true, false, none, some, List,
  [], ◌∷◌, ◌++◌, arith, Option-cases,
}
use fast_flow_transform.Prelude.Results.{Result, returns, raises}
use fast_flow_transform.Http.{
  HttpRequest, HttpMeta, HttpError, out_of_pages, bad_payload, HttpWorld, HttpState,
  request_with_cache, payload_of, Paginator, Page, NextRequest, follow, collect_pages,
}
use fast_flow_transform.Http.Fetched.{Fetch, request_with_cache-Fetch}

module _ {B J : Type 0} (w : HttpWorld B J) where
  -- What the loop over the pages does next, given the result of the request.
  abbrev turn_page :
      ℕ
      → Bool
      → Paginator w
      → ℕ
      → HttpRequest
      → List (Page w)
      → HttpState B
      → Result HttpError (B × HttpMeta)
      → HttpState B × Result HttpError (List (Page w))
  turn_page fuel strict paginator ttl req pages s' (raises e) = (s', raises e)
  turn_page fuel strict paginator ttl req pages s' (returns (body, m)) =
      elim (payload_of w strict body) [
        | raises e ↦ (s', raises e)
        | returns j ↦ elim (paginator req j) [
          | none ↦ (s', returns (pages ++ (body, m, j) ∷ []))
          | some next ↦
              collect_pages w fuel strict paginator ttl (follow req next) s'
                (pages ++ (body, m, j) ∷ [])
        ]
      ]

  collect_pages-turn_page :
      (fuel : ℕ) (strict : Bool) (paginator : Paginator w) (ttl : ℕ) (req : HttpRequest)
      (s : HttpState B) (pages : List (Page w))
      → collect_pages w (suc fuel) strict paginator ttl req s pages
        ≡ turn_page fuel strict paginator ttl req pages
            (request_with_cache w "GET" req ttl s).0
            (request_with_cache w "GET" req ttl s).1
  unfolding collect_pages
  collect_pages-turn_page fuel strict paginator ttl req s pages =
      elim (request_with_cache w "GET" req ttl s).1 [ raises e ↦ refl | returns (body, m) ↦ refl ]

  pub payload_error : (strict : Bool) (body : B) → payload_of w strict body ≢ raises out_of_pages
  unfolding payload_of
  payload_error true body q = elim (Option-cases (w.json_payload body)) [
    | inl e ↦ absurd (
        ground
          (arith, sym (ap (λ o. elim o [ none ↦ raises bad_payload | some j ↦ returns j ]) e) ∙ q))
    | inr (j, e) ↦ absurd (
        ground
          (arith, sym (ap (λ o. elim o [ none ↦ raises bad_payload | some j ↦ returns j ]) e) ∙ q))
  ]
  payload_error false body q = ground (arith, q)

  -- The turns of the loop over the pages, with so many left, from a request and the pages before it.
  pub data Turns (strict : Bool) (paginator : Paginator w) (ttl : ℕ)
      : ℕ
        → HttpRequest
        → HttpState B
        → List (Page w)
        → HttpState B
        → Result HttpError (List (Page w))
        → Type 0 where
    no_turn :
        {req : HttpRequest} {s : HttpState B} {pages : List (Page w)}
        → Turns strict paginator ttl 0 req s pages s (raises out_of_pages)
    no_page :
        {fuel : ℕ} {req : HttpRequest} {s s' : HttpState B} {pages : List (Page w)} (e : HttpError)
        → Fetch w "GET" req ttl s s' (raises e)
        → Turns strict paginator ttl (suc fuel) req s pages s' (raises e)
    no_payload :
        {fuel : ℕ} {req : HttpRequest} {s s' : HttpState B} {pages : List (Page w)} (body : B)
        (m : HttpMeta) (e : HttpError)
        → Fetch w "GET" req ttl s s' (returns (body, m))
        → payload_of w strict body ≡ raises e
        → Turns strict paginator ttl (suc fuel) req s pages s' (raises e)
    last_page :
        {fuel : ℕ} {req : HttpRequest} {s s' : HttpState B} {pages : List (Page w)} (body : B)
        (m : HttpMeta) (j : J)
        → Fetch w "GET" req ttl s s' (returns (body, m))
        → payload_of w strict body ≡ returns j
        → paginator req j ≡ none
        → Turns strict paginator ttl
            (suc fuel)
            req
            s
            pages
            s'
            (returns (pages ++ (body, m, j) ∷ []))
    next_page :
        {fuel : ℕ} {req : HttpRequest} {s s1 s' : HttpState B} {pages : List (Page w)}
        {r : Result HttpError (List (Page w))} (body : B) (m : HttpMeta) (j : J)
        (next : NextRequest)
        → Fetch w "GET" req ttl s s1 (returns (body, m))
        → payload_of w strict body ≡ returns j
        → paginator req j ≡ some next
        → Turns strict paginator ttl fuel (follow req next) s1 (pages ++ (body, m, j) ∷ []) s' r
        → Turns strict paginator ttl (suc fuel) req s pages s' r

  Result-cases :
      {A : Type 0} (r : Result HttpError A)
      → ((e : HttpError) × r ≡ raises e) ⊎ ((a : A) × r ≡ returns a)
  Result-cases (raises e) = inl (e, refl)
  Result-cases (returns a) = inr (a, refl)

  turn_page-Turns :
      (fuel : ℕ) (strict : Bool) (paginator : Paginator w) (ttl : ℕ) (req : HttpRequest)
      (s s' : HttpState B) (r : Result HttpError (B × HttpMeta)) (pages : List (Page w))
      → ((req : HttpRequest) (s : HttpState B) (pages : List (Page w))
          → Turns strict paginator ttl fuel req s pages
              (collect_pages w fuel strict paginator ttl req s pages).0
              (collect_pages w fuel strict paginator ttl req s pages).1)
      → Fetch w "GET" req ttl s s' r
      → Turns strict paginator ttl
          (suc fuel)
          req
          s
          pages
          (turn_page fuel strict paginator ttl req pages s' r).0
          (turn_page fuel strict paginator ttl req pages s' r).1
  turn_page-Turns fuel strict paginator ttl req s s' (raises e) pages rest f = no_page e f
  turn_page-Turns fuel strict paginator ttl req s s' (returns (body, m)) pages rest f =
      elim (Result-cases (payload_of w strict body)) [
        | inl (e, q) ↦ rw (turn_page, q) (no_payload body m e f q)
        | inr (j, q) ↦ elim (Option-cases (paginator req j)) [
          | inl z ↦ rw (turn_page, q, z) (last_page body m j f q z)
          | inr (next, z) ↦
              rw (turn_page, q, z)
                (next_page body m j next f q z
                  (rest (follow req next) s' (pages ++ (body, m, j) ∷ [])))
        ]
      ]

  no_pages :
      (strict : Bool) (paginator : Paginator w) (ttl : ℕ) (req : HttpRequest) (s : HttpState B)
      (pages : List (Page w))
      → collect_pages w 0 strict paginator ttl req s pages ≡ (s, raises out_of_pages)
  unfolding collect_pages
  no_pages strict paginator ttl req s pages = refl

  pub collect_pages-Turns :
      (fuel : ℕ) (strict : Bool) (paginator : Paginator w) (ttl : ℕ) (req : HttpRequest)
      (s : HttpState B) (pages : List (Page w))
      → Turns strict paginator ttl fuel req s pages
          (collect_pages w fuel strict paginator ttl req s pages).0
          (collect_pages w fuel strict paginator ttl req s pages).1
  collect_pages-Turns zero strict paginator ttl req s pages =
      rw (no_pages strict paginator ttl req s pages) no_turn
  collect_pages-Turns (suc fuel) strict paginator ttl req s pages =
      rw (collect_pages-turn_page fuel strict paginator ttl req s pages) (
        turn_page-Turns fuel strict paginator ttl req s _ _ pages
          (λ req s pages. collect_pages-Turns fuel strict paginator ttl req s pages)
          (request_with_cache-Fetch w "GET" req ttl s))
