-- ===== src/Edge/Types.antt =====
-- What the edge functions read and write: the environment variables, requests, responses, the
-- events of a run, and the services whose answers are parameters.
use securesupabase_js.Prelude.{ℕ, Bool, Option, List}
use securesupabase_js.Js.Text.{Str}
use securesupabase_js.Js.Json.{Json}
use securesupabase_js.Edge.Query.{DbRequest, Plan}

-- Deno.env.get(…), one field for each variable that the functions read.
pub record Env : Type 0 where
  pub cors_allowed_origins : Option Str
  pub cors_allow_credentials : Option Str
  pub cors_allowed_headers : Option Str
  pub cors_allowed_methods : Option Str
  pub cors_max_age_seconds : Option Str
  pub security_context_hash_salt : Option Str
  pub security_log_device_context : Option Str
  pub security_blocked_ips : Option Str
  pub security_blocked_user_ids : Option Str
  pub security_blocked_emails : Option Str
  pub security_blocklist_mode : Option Str
  pub security_rate_limit_mode : Option Str
  pub security_schema : Option Str
  pub e2ee_rsa_private_key_b64 : Option Str
  pub e2ee_rsa_public_key_b64 : Option Str
  pub supabase_url : Option Str
  pub supabase_service_role_key : Option Str
  pub supabase_anon_key : Option Str
  pub db_proxy_allowed_tables : Option Str
  pub db_proxy_allowed_operators : Option Str
  pub db_proxy_allowed_schemas : Option Str
  pub db_proxy_allowed_rpcs : Option Str
  pub db_proxy_default_schema : Option Str

-- The names that are passed to `req.headers.get`.
pub data Header : Type 0 where
  origin authorization x_forwarded_for cf_connecting_ip x_region fly_region cf_ipcountry : Header
  x_vercel_ip_country cf_asn x_asn user_agent sec_ch_ua_platform sec_ch_ua_mobile : Header
  accept_language referer : Header

pub data Method : Type 0 where
  options post other : Method

-- `body` is what `req.json()` gives; `none` is a body that is no JSON.
pub record Request : Type 0 where
  pub method : Method
  pub headers : Header → Option Str
  pub body : Option Json

-- The value that `JSON.stringify` prints, or a plain text.
pub data Body : Type 0 where
  json : Json → Body
  text : Str → Body

pub record Response : Type 0 where
  pub status : ℕ
  pub headers : List (Str × Str)
  pub body : Body

pub record DeviceContext : Type 0 where
  pub ip_hash : Str
  pub region : Option Str
  pub country : Option Str
  pub asn : Option Str
  pub user_agent : Option Str
  pub platform : Option Str
  pub mobile : Option Str
  pub accept_language : Option Str
  pub origin : Option Str
  pub referer : Option Str

pub record User : Type 0 where
  pub id : Str
  pub email : Option Str

pub data BlockType : Type 0 where
  ip user_id email : BlockType

-- One lookup in the table `blocklist` of a schema.
pub record BlockLookup : Type 0 where
  pub schema : Str
  pub block_type : BlockType
  pub value : Str
  pub now : ℕ

pub data AuthAction : Type 0 where
  sign_in sign_up reset_password sign_out refresh_session : AuthAction

-- The body of a request to the authentication proxy.
pub record AuthBody : Type 0 where
  pub action : AuthAction
  pub email : Option Str
  pub password : Option Str
  pub display_name : Option Str
  pub redirect_to : Option Str
  pub refresh_token : Option Str

-- A client made by `createClient`: its key, and the `Authorization` header of its requests.
pub record Client : Type 0 where
  pub url : Str
  pub key : Str
  pub authorization : Option Str

pub record GotrueRequest : Type 0 where
  pub url : Str
  pub apikey : Str
  pub authorization : Option Str
  pub body : Json

pub data Event : Type 0 where
  logged : Str → DeviceContext → List (Str × Json) → Event
  console_error : Event
  asked_user : Client → Str → Event
  looked_up_block : Client → BlockLookup → Event
  read_rate : Client → (schema identifier : Str) → Event
  inserted_rate : Client → (schema identifier : Str) (window_start hits : ℕ) → Event
  restarted_rate : Client → (schema identifier : Str) (window_start hits : ℕ) → Event
  counted_rate : Client → (schema identifier : Str) (hits : ℕ) → Event
  queried : Client → Plan → Event
  fetched : GotrueRequest → Event
  drew_iv : Event

-- What has happened so far, the latest first.
abbrev pub Trace : Type 0
Trace = List Event

-- An awaited call: it resolves to a value, or rejects.
pub data Reply (A : Type 0) : Type 0 where
  value : A → Reply A
  rejects : Str → Reply A

-- `{ data, error }` of a lookup of one row.
pub data Row (A : Type 0) : Type 0 where
  failed missing : Row A
  found : A → Row A

-- A row of `rate_limits`: `none` where `Date.parse` gives no finite number.
pub record RateRow : Type 0 where
  pub window_start : Option ℕ
  pub hits : ℕ

-- `{ data, error }` of a query.
pub data QueryResult : Type 0 where
  rows : Json → QueryResult
  error : Str → QueryResult

-- The answer of the authentication server; `body` is the text that `upstream.text()` reads, as bytes.
pub record Upstream : Type 0 where
  pub ok : Bool
  pub status : ℕ
  pub body : List ℕ

-- The runtime, its cryptography and the remote services. Whatever an answer depends on besides
-- the call, it is a function of what has happened before.
pub record Backend : Type 0 where
  pub env : Env
  pub now : Trace → ℕ
  -- `toLowerCase`, `String(value)`, and `TextEncoder` after `JSON.stringify` with its inverse
  pub to_lower : Str → Str
  pub to_string : Json → Str
  pub stringify : Json → List ℕ
  pub parse_json : List ℕ → Option Json
  -- `atob`, `btoa`, RSA-OAEP under the private key in base64, and AES-GCM
  pub atob : Str → Option (List ℕ)
  pub btoa : List ℕ → Str
  pub rsa_decrypt : Str → List ℕ → Option (List ℕ)
  pub aes_encrypt : (key iv plaintext : List ℕ) → List ℕ
  pub aes_decrypt : (key iv ciphertext : List ℕ) → Option (List ℕ)
  pub random_iv : Trace → List ℕ
  -- `safeParse` of zod under the schema of the database proxy and under that of the
  -- authentication proxy, and `error.flatten()`
  pub parse_db_request : Json → Option DbRequest
  pub parse_auth_body : Json → Option AuthBody
  pub validation_details : Json → Json
  pub get_user : Trace → Client → Str → Reply (Option User)
  pub find_block : Trace → Client → BlockLookup → Reply (Row (Unit {0}))
  pub find_rate : Trace → Client → (schema identifier : Str) → Reply (Row RateRow)
  pub run_query : Trace → Client → Plan → Reply QueryResult
  pub fetch : Trace → GotrueRequest → Reply Upstream

-- The map of the in-memory rate limiter, and the trace.
pub record State : Type 0 where
  pub store : List (Str × List ℕ)
  pub trace : Trace
