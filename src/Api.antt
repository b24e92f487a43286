-- ===== src/Api.antt =====
-- The requests of the modules' `api.ts` files, of lib/api/administration.ts and of lib/api/auth.ts:
-- what each function asks of the server.
pub mod Attendance
pub mod Harvest
pub mod Structure
pub mod Reports
pub mod Administration
pub mod Guarded
use koranco.Base.{
  ℕ, String, Bool, Option, none, some, List, [], ◌∷◌, ◌++◌, eqb, truthy, if◌then◌else◌, Result, ok,
  err,
}
use koranco.Client.{Method, get, post, put, Headers}
use koranco.Session.{SessionState, csrf_headers}
use koranco.Types.Server.{DraftEntry}

-- A value in a body or in a query; `JSON.stringify` and `URLSearchParams` write it.
pub data Field : Type 0 where
  text : String → Field
  number : ℕ → Field
  flag : Bool → Field
  null : Field
  entries : List DraftEntry → Field

abbrev pub Fields : Type 0
Fields = List (String × Field)

-- `body` is none for a request without one.
pub record ApiRequest : Type 0 where
  pub method : Method
  pub path : String
  pub query : Fields
  pub headers : Headers
  pub body : Option Fields

abbrev pub json_type : String × String
json_type = ("Content-Type", "application/json")

-- A request without options.
abbrev pub read : String → Fields → ApiRequest
read path query = record { method = get; path = path; query = query; headers = []; body = none }

-- `headers: { "Content-Type": "application/json", ...csrfHeaders() }` with a body.
unfoldable pub mutate : Method → String → Fields → SessionState → Result ApiRequest
unfolding csrf_headers
mutate method path body s = elim (csrf_headers s) [
  | err e ↦ err e
  | ok csrf ↦ ok (record {
    method = method;
    path = path;
    query = [];
    headers = json_type ∷ csrf;
    body = some body;
  })
]

-- `headers: csrfHeaders()` without a body.
unfoldable pub order : String → Fields → SessionState → Result ApiRequest
unfolding csrf_headers
order path query s = elim (csrf_headers s) [
  | err e ↦ err e
  | ok csrf ↦ ok (record { method = post; path = path; query = query; headers = csrf; body = none })
]

-- `if (value) query.set(name, value)`
abbrev pub set_text : String → String → Fields → Fields
set_text name value query = if truthy value then query ++ (name, text value) ∷ [] else query

abbrev pub set_number : String → ℕ → Fields → Fields
set_number name value query = if eqb value 0 then query else query ++ (name, number value) ∷ []

abbrev pub text_or_null : Option String → Field
text_or_null none = null
text_or_null (some s) = text s

-- A field of an optional value that `undefined` leaves out.
abbrev pub optional : String → Option String → Fields → Fields
optional name none fields = fields
optional name (some value) fields = fields ++ (name, text value) ∷ []
