-- ===== src/Client/Responses.antt =====
-- What `apiRequest` comes to for every response.
use koranco.Base.{ℕ, ◌≤◌, ◌<◌, String, ◌≡◌, ◌≢◌, ◌↔◌, refl, ◌⊎◌, some, ok, err, api_error, arith}
use koranco.Client.{
  HttpResponse, Fetched, response, network_failure, aborted, api_request, message_or,
}

-- An API error with a status comes from a response of that very status, which lies outside 200 to
-- 299; it carries the server's message unless that is missing or empty.
pub api_request-eq-api_error :
    {A : Type 0} (f : Fetched A) (message : String) (status : ℕ)
    → api_request f ≡ err (api_error message status)
    → (r : HttpResponse A) × (f ≡ response r)
      × (r.status ≡ status)
      × ((status < 200) ⊎ (299 < status))
      × (message ≡ message_or "API request failed" r.error_message)
unfolding api_request
api_request-eq-api_error network_failure message status h = cc
api_request-eq-api_error aborted message status h = cc
api_request-eq-api_error (response r) message status h =
    (r, refl, ground arith, ground arith, ground arith)

-- A request has a value exactly for a response of a status from 200 to 299 other than 204 that has
-- a body, and the value is the body.
pub api_request-eq-some :
    {A : Type 0} (f : Fetched A) (a : A)
    → (api_request f ≡ ok (some a)) ↔ (
        (r : HttpResponse A) × (f ≡ response r)
        × (200 ≤ r.status)
        × (r.status ≤ 299)
        × (r.status ≢ 204)
        × (r.json ≡ some a))
unfolding api_request
api_request-eq-some f a = (to f, λ (r, e, lo, hi, n, body). rw e (ground arith))
  where
    to :
        (f : Fetched _)
        → api_request f ≡ ok (some a)
        → (r : HttpResponse _) × (f ≡ response r)
          × (200 ≤ r.status)
          × (r.status ≤ 299)
          × (r.status ≢ 204)
          × (r.json ≡ some a)
    to network_failure h = cc
    to aborted h = cc
    to (response r) h = (r, refl, ground arith, ground arith, ground arith, ground arith)
