-- ===== src/Functions.antt =====
-- packages/core/functions-js/src/FunctionsClient.ts. `fetch`, URL, JSON.stringify and the readers of a
-- response's body are the platform's; timeouts and abort signals are left out.
mod Examples
pub mod Invoke
use securesupabase_js.Prelude.{
  ℕ, Bool, true, false, not, ◌&&◌, ◌||◌, Option, none, some, List, [], ◌∷◌, ◌++◌, if◌then◌else◌,
}
use securesupabase_js.Js.Text.{Str, codes, split, str_eq, trim, nonempty, truthy, or_else}
use securesupabase_js.Js.Json.{Json}
use securesupabase_js.Js.Promise.{Outcome, fulfilled, rejected}
use securesupabase_js.Edge.E2ee.{is_truthy}
use securesupabase_js.Postgrest.Params.{Params, get, set}

-- FunctionInvokeOptions.body: bytes stand for the contents of the platform's objects.
pub data Body : Type 0 where
  text : Str → Body
  blob array_buffer form_data stream : List ℕ → Body
  value : Json → Body

-- `FunctionInvokeOptions`. The headers are the properties of an object.
pub record Options : Type 0 where
  pub headers : Option Params
  pub method : Option Str
  pub region : Option Str
  pub body : Option Body

pub record Client : Type 0 where
  pub url : Str
  pub headers : Params
  pub region : Str

-- The body as it is, or as JSON.
pub data Sent : Type 0 where
  nothing : Sent
  raw : Body → Sent
  json : Str → Sent

pub record Request : Type 0 where
  pub address : Str
  pub params : Params
  pub method : Str
  pub headers : Params
  pub body : Sent

-- An error that the platform throws is known by its message.
pub record Response : Type 0 where
  pub ok : Bool
  pub relay_error : Option Str
  pub content_type : Option Str
  pub json : Outcome Json Str
  pub blob : Outcome (List ℕ) Str
  pub form_data : Outcome (List ℕ) Str
  pub text : Outcome Str Str

pub record Platform : Type 0 where
  pub fetch : Request → Outcome Response Str
  pub is_url : Str → Bool
  pub url_error : Str
  pub stringify : Body → Str

pub data Data : Type 0 where
  json : Json → Data
  blob form_data : List ℕ → Data
  event_stream : Response → Data
  text : Str → Data

-- FunctionsFetchError, FunctionsRelayError, FunctionsHttpError, and what the platform throws.
pub data Error : Type 0 where
  fetch_error platform_error : Str → Error
  relay_error http_error : Response → Error

pub record FunctionsResponse : Type 0 where
  pub data_ : Option Data
  pub error : Option Error
  pub response : Option Response

-- What the body of `try` comes to.
pub data Result (A : Type 0) : Type 0 where
  ok : A → Result A
  threw : Error → Result A

module _ {A : Type 0} where
  infixl 5 ◌>>=◌
  unfoldable pub ◌>>=◌ : {B : Type 0} → Result A → (A → Result B) → Result B
  ok a >>= f = f a
  threw error >>= f = threw error

  -- a promise that rejects throws
  abbrev pub await : (Str → Error) → Outcome A Str → Result A
  await error (fulfilled a) = ok a
  await error (rejected message) = threw (error message)

-- setAuth
unfoldable pub set_auth : Str → Client → Client
unfolding set
set_auth token client = record client {
  headers = set (codes "Authorization") (codes "Bearer " ++ token) client.headers;
}

abbrev pub is_present : Body → Bool
is_present (text s) = nonempty s
is_present (value v) = is_truthy v
is_present _ = true

abbrev pub has_own : Str → Option Params → Bool
has_own name none = false
has_own name (some headers) = elim (get name headers) [ none ↦ false | some v ↦ true ]

-- { ...headers, ...more }
unfoldable pub spread : Params → Params → Params
unfolding set
spread headers [] = headers
spread headers ((k, v) ∷ more_) = spread (set k v headers) more_

-- The region of the request; 'any' is none.
unfoldable pub region_of : Client → Options → Option Str
unfolding str_eq
region_of client options =
    let region : Str = or_else (truthy options.region) client.region in
    if nonempty region && not (str_eq region (codes "any")) then some region else none

module _ (platform : Platform) where
  abbrev content_type : Str → Params
  content_type type = (codes "Content-Type", type) ∷ []

  -- A body without a Content-Type of the caller's.
  abbrev pub typed_body : Body → Params × Sent
  typed_body (blob bytes) = (content_type (codes "application/octet-stream"), raw (blob bytes))
  typed_body (array_buffer bytes) =
      (content_type (codes "application/octet-stream"), raw (array_buffer bytes))
  typed_body (text s) = (content_type (codes "text/plain"), raw (text s))
  typed_body (form_data bytes) = ([], raw (form_data bytes))
  typed_body b = (content_type (codes "application/json"), json (platform.stringify b))

  abbrev untyped_body : Body → Sent
  untyped_body (stream bytes) = json (platform.stringify (stream bytes))
  untyped_body (value v) =
      if is_truthy v then json (platform.stringify (value v)) else raw (value v)
  untyped_body b = raw b

  unfoldable pub body_of : Options → Params × Sent
  body_of options = elim options.body [
    | none ↦ ([], nothing)
    | some b ↦
        if is_present b && not (has_own (codes "Content-Type") options.headers)
        then typed_body b
        else ([], untyped_body b)
  ]

  -- { ..._headers, ...this.headers, ...headers }
  unfoldable pub headers_of : Client → Options → Params
  unfolding spread region_of body_of set
  headers_of client options =
      let region : Params = elim (region_of client options) [
        | none ↦ []
        | some region ↦ (codes "x-region", region) ∷ []
      ] in
      spread (spread (spread region (body_of options).0) client.headers)
        (or_else options.headers [])

  unfoldable pub request_of : Client → Str → Options → Request
  request_of client function_name options = record {
    address = client.url ++ (codes "/" ++ function_name);
    params = elim (region_of client options) [
      | none ↦ []
      | some region ↦ (codes "forceFunctionRegion", region) ∷ []
    ];
    method = or_else (truthy options.method) (codes "POST");
    headers = headers_of client options;
    body = (body_of options).1;
  }

  abbrev pub failed : Error → FunctionsResponse
  failed (relay_error res) = record {
    data_ = none;
    error = some (relay_error res);
    response = some res;
  }
  failed (http_error res) = record {
    data_ = none;
    error = some (http_error res);
    response = some res;
  }
  failed e = record { data_ = none; error = some e; response = none }

  abbrev pub finish : {A : Type 0} → (A → Data) → Outcome A Str → Result Data
  finish make (fulfilled a) = ok (make a)
  finish make (rejected message) = threw (platform_error message)

  -- The part of the content type before its parameters.
  unfoldable pub response_type : Response → Str
  unfolding split trim
  response_type res = elim (split b';' (or_else res.content_type (codes "text/plain"))) [
    | [] ↦ []
    | part ∷ parts ↦ trim part
  ]

  unfoldable pub read_data : Response → Result Data
  unfolding response_type str_eq
  read_data res =
      let type : Str = response_type res in
      if str_eq type (codes "application/json")
      then finish Data.json res.json
      else if str_eq type (codes "application/octet-stream")
          || str_eq type (codes "application/pdf")
      then finish Data.blob res.blob
      else if str_eq type (codes "text/event-stream")
      then ok (Data.event_stream res)
      else if str_eq type (codes "multipart/form-data")
      then finish Data.form_data res.form_data
      else finish Data.text res.text

  abbrev pub is_relayed : Response → Bool
  is_relayed res = elim res.relay_error [ none ↦ false | some s ↦ str_eq s (codes "true") ]

  unfoldable pub read_response : Response → Result Data
  read_response res =
      if is_relayed res
      then threw (relay_error res)
      else if not res.ok
      then threw (http_error res)
      else read_data res

  -- The body of the `try`.
  unfoldable pub try_invoke : Client → Str → Options → Result FunctionsResponse
  try_invoke client function_name options = do
    let request : Request = request_of client function_name options
    res ←
        if platform.is_url request.address
        then await fetch_error (platform.fetch request)
        else threw (platform_error platform.url_error)
    found ← read_response res
    ok (record { data_ = some found; error = none; response = some res })

  -- the `catch`
  abbrev pub to_response : Result FunctionsResponse → Result FunctionsResponse
  to_response (ok r) = ok r
  to_response (threw error) = ok (failed error)

  unfoldable pub invoke : Client → Str → Options → Result FunctionsResponse
  invoke client function_name options = to_response (try_invoke client function_name options)
