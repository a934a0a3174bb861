-- ===== src/Http/World.antt =====
-- api/http.py: what a request sees of the network and the settings, its state and its errors.
use fast_flow_transform.Prelude.{
  ℕ, Bool, ◌&&◌, ◌||◌, Option, none, some, List, [], ◌∷◌, ltb, leb, ◌==◌, if◌then◌else◌,
}
use fast_flow_transform.Prelude.Names.{Name, same}
use mathlib.Core.Option
use fast_flow_transform.Http.Stats.{HttpStats}
use fast_flow_transform.Http.Cache.{Fields, HttpRequest, HttpCacheMode, HttpMeta, KeyText}

pub data Answer (B : Type 0) : Type 0 where
  timed_out request_error : Answer B
  response : (status : ℕ) (headers : Fields) (body : B) → Answer B

pub data HttpError : Type 0 where
  offline_miss timeout_error send_error bad_payload domain_error after_retries out_of_pages :
      HttpError
  status_error : (status : ℕ) → HttpError

-- What the settings of the environment and the libraries give.
pub record HttpWorld (B J : Type 0) : Type 0 where
  pub mode : HttpCacheMode
  pub default_ttl : ℕ
  pub max_retries : ℕ
  pub offline : Bool
  pub allowed : List Name
  pub key_text : KeyText
  pub answers : ℕ → Answer B
  pub clock : ℕ → ℕ
  pub content_hash : B → Name
  pub size : B → ℕ
  pub can_sleep : Name → Bool
  pub host_of : Name → Option Name
  pub ends_with_domain : Name → Name → Bool
  pub json_payload : B → Option J
  pub maybe_json_payload : B → J

-- A pause before the next attempt: the time that the server asked for, or the backoff of an attempt.
pub data Wait : Type 0 where
  retry_after : Name → Wait
  backoff : ℕ → Wait

pub record HttpState (B : Type 0) : Type 0 where
  pub cache : List (Name × (HttpMeta × B))
  pub stats : HttpStats
  pub sent : ℕ
  pub waits : List Wait

-- What an attempt leads to.
pub data Verdict (B : Type 0) : Type 0 where
  again : Wait → Verdict B
  give_up : HttpError → Verdict B
  done : (status : ℕ) (headers : Fields) (body : B) → Verdict B

-- `status in (429, 500, 502, 503, 504)`
unfoldable pub is_transient : ℕ → Bool
is_transient status =
    status == 429 || (status == 500 || (status == 502 || (status == 503 || status == 504)))

unfoldable pub is_success : ℕ → Bool
is_success status = (leb 200 status && ltb status 300) || status == 304

-- A `next_request`, with the entries that it has.
pub record NextRequest : Type 0 where
  pub url : Option Name
  pub params : Option Fields
  pub headers : Option Fields

-- The request of the next page: an empty URL, or an entry that is missing, keeps the one of this page.
unfoldable pub follow : HttpRequest → NextRequest → HttpRequest
follow req n = record {
  url = elim n.url [ none ↦ req.url | some url ↦ if same url "" then req.url else url ];
  params = Option.get_or n.params req.params;
  headers = Option.get_or n.headers req.headers;
}

unfoldable pub header : Name → Fields → Name
header key [] = ""
header key ((k, v) ∷ fields) = if same k key then v else header key fields
