-- ===== src/Client.antt =====
-- lib/api/client.ts: one request to the API and what its response comes to. `fetch` is the
-- browser's: its outcome is an argument.
pub mod Responses
use koranco.Base.{
  ℕ, String, Bool, not, ◌&&◌, Option, none, some, List, ◌∷◌, eqb, leb, truthy, if◌then◌else◌,
  Result, ok, err, error, api_error,
}

pub data Method : Type 0 where
  get post put : Method

abbrev pub Headers : Type 0
Headers = List (String × String)

-- `body` is the value that the source writes as JSON.
pub record Request (B : Type 0) : Type 0 where
  pub method : Method
  pub path : String
  pub headers : Headers
  pub body : Option B

-- A response: `json` is its body read as JSON, none where it is none; `error_message` is the field
-- `error.message` of an error body.
pub record HttpResponse (A : Type 0) : Type 0 where
  pub status : ℕ
  pub json : Option A
  pub error_message : Option String

-- `fetch` resolves to a response, or rejects: no network, or the request was aborted.
pub data Fetched (A : Type 0) : Type 0 where
  response : HttpResponse A → Fetched A
  network_failure : Fetched A
  aborted : Fetched A

-- `response.ok`
unfoldable pub is_success : ℕ → Bool
is_success status = leb 200 status && leb status 299

-- An empty message is not taken.
unfoldable pub message_or : String → Option String → String
message_or fallback none = fallback
message_or fallback (some m) = if truthy m then m else fallback

abbrev pub parsed {ℓ} : {A : Type ℓ} → Option A → Result (Option A)
parsed none = err (error "Unexpected end of JSON input")
parsed (some a) = ok (some a)

-- `undefined`, the result of a 204, is none.
unfoldable pub api_request : {A : Type 0} → Fetched A → Result (Option A)
unfolding is_success message_or
api_request network_failure = err (error "Failed to fetch")
api_request aborted = err (error "AbortError")
api_request (response r) =
    if not (is_success r.status)
    then err (api_error (message_or "API request failed" r.error_message) r.status)
    else if eqb r.status 204
    then ok none
    else parsed r.json

-- What `fetch` is called with: the caller's headers stand behind the accepted type.
unfoldable pub with_accept : {B : Type 0} → Request B → Request B
with_accept r = record r { headers = ("Accept", "application/json") ∷ r.headers }

-- A read of a property of `undefined` throws.
abbrev pub defined {ℓ} : {A : Type ℓ} → Result (Option A) → Result A
defined (ok none) = err (error "Cannot read properties of undefined")
defined (ok (some a)) = ok a
defined (err e) = err e
