-- ===== src/Http/Attempts.antt =====
-- The attempts of one request, from the first answer to the one that decides.
use fast_flow_transform.Prelude.{
  ℕ, zero, suc, ◌+◌, ◌≤◌, ◌<◌, ◌≡◌, refl, sym, ◌∙◌, ◌≢◌, inl, inr, true, false, not, ◌&&◌, some,
  List, arith, ◌==◌, Bool-cases,
}
use fast_flow_transform.Prelude.Names.{Name, same}
use fast_flow_transform.Prelude.Results.{Result, returns, raises}
use fast_flow_transform.Http.{
  HttpCacheMode, cache_off, cache_ro, cache_rw, write_cache, cache_entry, cache_entry-set_entry,
  set_entry_else, Fields, HttpRequest, HttpMeta, Answer, timed_out, request_error, response,
  HttpError, timeout_error, send_error, status_error, HttpWorld, HttpState, Wait, backoff, wait_for,
  conclude, is_transient, is_success, judge, meta_of, send, pause, accept, request_loop,
}

-- A failed attempt that is worth another one.
pub data Transient {B : Type 0} : Answer B → Type 0 where
  no_answer : Transient timed_out
  no_connection : Transient request_error
  unavailable :
      {status : ℕ} {headers : Fields} {body : B}
      → is_transient status ≡ true
      → Transient (response status headers body)

status_is_transient :
    {B : Type 0} {a : Answer B} (status : ℕ) (headers : Fields) (body : B)
    → Transient a
    → a ≡ response status headers body
    → is_transient status ≡ true
status_is_transient status headers body no_answer q = absurd (ground (arith, q))
status_is_transient status headers body no_connection q = absurd (ground (arith, q))
status_is_transient status headers body (unavailable {status = st} t) q =
    let same_status : st ≡ status = cc in rw (← same_status) t

-- The error of an answer that no other attempt follows.
pub data Fails {B : Type 0} : Answer B → HttpError → Type 0 where
  by_timeout : Fails timed_out timeout_error
  by_request : Fails request_error send_error
  by_status :
      {status : ℕ} {headers : Fields} {body : B}
      → is_success status ≡ false
      → Fails (response status headers body) (status_error status)

module _ {B J : Type 0} (w : HttpWorld B J) where
  -- The meta data of an answer that was the last of so many.
  pub record IsMetaOf (req : HttpRequest) (status : ℕ) (headers : Fields) (body : B) (count : ℕ)
      (m : HttpMeta) : Type 0 where
    pub at_clock : m.ts ≡ w.clock count
    pub of_status : m.status ≡ status
    pub of_headers : m.headers ≡ headers
    pub of_hash : m.content_hash ≡ w.content_hash body
    pub of_url : m.url ≡ req.url

  -- A cache with one entry more or another one under a key, unless it is only read.
  pub data Written (key : Name) (m : HttpMeta) (body : B)
      (before after : List (Name × (HttpMeta × B))) : Type 0 where
    only_read : w.mode ≡ cache_ro → after ≡ before → Written key m body before after
    entered :
        w.mode ≢ cache_ro
        → cache_entry after key ≡ some (m, body)
        → ((k : Name) → same key k ≡ false → cache_entry after k ≡ cache_entry before k)
        → Written key m body before after

  write_cache-Written :
      (mode : HttpCacheMode) (key : Name) (m : HttpMeta) (body : B)
      (entries : List (Name × (HttpMeta × B)))
      → w.mode ≡ mode
      → Written key m body entries (write_cache mode key m body entries)
  unfolding write_cache
  write_cache-Written cache_ro key m body entries e = only_read e refl
  write_cache-Written cache_rw key m body entries e =
      entered (λ q. ground (arith, sym e ∙ q)) (cache_entry-set_entry entries key (m, body))
        (λ k h. set_entry_else entries key (m, body) k h)
  write_cache-Written cache_off key m body entries e =
      entered (λ q. ground (arith, sym e ∙ q)) (cache_entry-set_entry entries key (m, body))
        (λ k h. set_entry_else entries key (m, body) k h)

  accept-Written :
      (s : HttpState B) (key : Name) (req : HttpRequest) (status : ℕ) (headers : Fields) (body : B)
      → ((accept w s key req status headers body).sent ≡ s.sent)
        × Written key
            (meta_of w s req status headers body)
            body
            s.cache
            (accept w s key req status headers body).cache
  unfolding accept
  accept-Written s key req status headers body =
      (refl, write_cache-Written w.mode key (meta_of w s req status headers body) body s.cache refl)

  -- The answers to a request that is sent up to `tries` times from a state, which decide the result: all but
  -- the last were transient, and a transient one is the last only if no try is left.
  pub data Attempted (key : Name) (req : HttpRequest)
      : ℕ → HttpState B → HttpState B → Result HttpError (B × HttpMeta) → Type 0 where
    retried :
        {left : ℕ} {s s' : HttpState B} {r : Result HttpError (B × HttpMeta)} (s1 : HttpState B)
        → Transient (w.answers s.sent)
        → 0 < left
        → (s1.cache ≡ s.cache) × (s1.stats ≡ s.stats) × (s1.sent ≡ suc s.sent)
        → Attempted key req left s1 s' r
        → Attempted key req (suc left) s s' r
    failed :
        {left : ℕ} {s : HttpState B} (e : HttpError)
        → (Transient (w.answers s.sent) → left ≡ 0)
        → Fails (w.answers s.sent) e
        → Attempted key req (suc left) s (send w s) (raises e)
    fetched :
        {left : ℕ} {s s' : HttpState B} (status : ℕ) (headers : Fields) (body : B) (m : HttpMeta)
        → w.answers s.sent ≡ response status headers body
        → is_success status ≡ true
        → s'.sent ≡ suc s.sent
        → IsMetaOf req status headers body (suc s.sent) m
        → Written key m body s.cache s'.cache
        → Attempted key req (suc left) s s' (returns (body, m))

  conclude-Attempted :
      (i left : ℕ) (key : Name) (req : HttpRequest) (s : HttpState B)
      (next : Wait → HttpState B × Result HttpError (B × HttpMeta))
      → ((wait : Wait)
          → 0 < left
          → Attempted key req left (pause w (send w s) wait) (next wait).0 (next wait).1)
      → (a : Answer B) → w.answers s.sent ≡ a
      → Attempted key req
          (suc left)
          s
          (conclude w key req s next (judge w i (left == 0) a)).0
          (conclude w key req s next (judge w i (left == 0) a)).1
  unfolding judge
  conclude-Attempted i left key req s next more timed_out e = elim (Bool-cases (left == 0)) [
    | inl z ↦ rw z (failed timeout_error (λ t. ground arith) (rw e by_timeout))
    | inr z ↦ rw z (
        retried (pause w (send w s) (backoff i)) (rw e no_answer) (ground arith) (refl, refl, refl)
          (more (backoff i) (ground arith)))
  ]
  conclude-Attempted i left key req s next more request_error e = elim (Bool-cases (left == 0)) [
    | inl z ↦ rw z (failed send_error (λ t. ground arith) (rw e by_request))
    | inr z ↦ rw z (
        retried (pause w (send w s) (backoff i)) (rw e no_connection) (ground arith)
          (refl, refl, refl) (more (backoff i) (ground arith)))
  ]
  conclude-Attempted i left key req s next more (response status headers body) e =
      elim (Bool-cases (is_transient status && not (left == 0))) [
        | inl z ↦ rw z (
            retried (pause w (send w s) (wait_for w i headers)) (rw e (unavailable (ground arith)))
              (ground arith) (refl, refl, refl) (more (wait_for w i headers) (ground arith)))
        | inr z ↦ elim (Bool-cases (is_success status)) [
          | inl y ↦
              rw (z, y)
                (let (count, written) = accept-Written (send w s) key req status headers body in
                  fetched status headers body (meta_of w (send w s) req status headers body) e y
                    count
                    (record {
                      at_clock = refl;
                      of_status = refl;
                      of_headers = refl;
                      of_hash = refl;
                      of_url = refl;
                    })
                    written)
          | inr y ↦
              rw (z, y)
                (failed (status_error status)
                  (λ t. let again = status_is_transient status headers body t e in ground arith)
                  (rw e (by_status y)))
        ]
      ]

  pub request_loop-Attempted :
      (i left : ℕ) (key : Name) (req : HttpRequest) (s : HttpState B)
      → 0 < left
      → Attempted key req left s
          (request_loop w i left key req s).0
          (request_loop w i left key req s).1
  unfolding request_loop
  request_loop-Attempted i zero key req s h = absurd (omega arith)
  request_loop-Attempted i (suc left) key req s h =
      conclude-Attempted i left key req s
        (λ wait. request_loop w (suc i) left key req (pause w (send w s) wait))
        (λ wait k. request_loop-Attempted (suc i) left key req (pause w (send w s) wait) k)
        (w.answers s.sent) refl

  pub attempt_bounds :
      {key : Name} {req : HttpRequest} {left : ℕ} {s s' : HttpState B}
      {r : Result HttpError (B × HttpMeta)}
      → Attempted key req left s s' r
      → (s.sent < s'.sent) × (s'.sent ≤ s.sent + left)
  attempt_bounds (retried s1 t l (c, d, e) rest) =
      let (a, b) = attempt_bounds rest in (omega (arith, e), omega (arith, e))
  attempt_bounds (failed e t f) = (omega arith, omega arith)
  attempt_bounds (fetched status headers body m e y c i x) = (omega (arith, c), omega (arith, c))
