-- ===== src/Samples.antt =====
-- Concrete inputs for the tests: an environment, a backend that answers everything, a client's
-- device, and requests.
use securesupabase_js.Prelude.{ℕ, true, false, Option, none, some, List, [], ◌∷◌, if◌then◌else◌}
use securesupabase_js.Js.Text.{Str, codes, str_eq}
use securesupabase_js.Js.Json.{Json, null, bool, str, arr, obj, end, nil}
use securesupabase_js.Edge.Query.{DbRequest, TableRequest, Action}
use securesupabase_js.Edge.Types.{
  Env, Request, Header, post, options, Backend, value, missing, rows, AuthBody, AuthAction,
}
use securesupabase_js.Client.Effects.{Device, ok, delivered}

abbrev pub env : Env
env = record {
  cors_allowed_origins = some (codes "https://a.example, https://b.example");
  cors_allow_credentials = some (codes "true");
  cors_allowed_headers = none;
  cors_allowed_methods = none;
  cors_max_age_seconds = none;
  security_context_hash_salt = some (codes "salt");
  security_log_device_context = some (codes "false");
  security_blocked_ips = some (codes "10.0.0.9");
  security_blocked_user_ids = none;
  security_blocked_emails = some (codes "eve@example.org");
  security_blocklist_mode = none;
  security_rate_limit_mode = none;
  security_schema = none;
  e2ee_rsa_private_key_b64 = some (codes "private");
  e2ee_rsa_public_key_b64 = some (codes "public");
  supabase_url = some (codes "https://project");
  supabase_service_role_key = some (codes "service");
  supabase_anon_key = some (codes "anon");
  db_proxy_allowed_tables = some (codes "notes");
  db_proxy_allowed_operators = none;
  db_proxy_allowed_schemas = none;
  db_proxy_allowed_rpcs = none;
  db_proxy_default_schema = none;
}

abbrev to_string : Json → Str
to_string (str s) = s
to_string (bool true) = codes "true"
to_string (bool false) = codes "false"
to_string _ = codes "null"

abbrev stringify : Json → List ℕ
stringify v = to_string v

abbrev parse_json : List ℕ → Option Json
parse_json bytes =
    if str_eq bytes (codes "true")
    then some (bool true)
    else if str_eq bytes (codes "false")
    then some (bool false)
    else none

-- A cipher that marks its plaintext with one byte.
abbrev mark : List ℕ → List ℕ
mark bytes = 1 ∷ bytes

abbrev unmark : List ℕ → Option (List ℕ)
unmark [] = none
unmark (b ∷ bytes) = some bytes

abbrev pub table_request : TableRequest
table_request = record {
  schema = none;
  table = codes "notes";
  action = Action.select;
  select = some (codes "id");
  filters = none;
  order_by = none;
  limit = some 5;
  range = none;
  single = none;
  format = none;
  count = none;
  head = none;
  values = none;
  on_conflict = none;
}

abbrev pub auth_body : AuthBody
auth_body = record {
  action = AuthAction.sign_in;
  email = some (codes "ann@example.org");
  password = some (codes "secret");
  display_name = none;
  redirect_to = none;
  refresh_token = none;
}

abbrev pub backend : Backend
backend = record {
  env = env;
  now = λ t. 1000;
  to_lower = λ s. s;
  to_string = to_string;
  stringify = stringify;
  parse_json = parse_json;
  atob = unmark;
  btoa = mark;
  rsa_decrypt = λ key bytes. unmark bytes;
  aes_encrypt = λ key iv bytes. mark bytes;
  aes_decrypt = λ key iv bytes. unmark bytes;
  random_iv = λ t. 7 ∷ [];
  parse_db_request = λ body. some (DbRequest.table table_request);
  parse_auth_body = λ body. some auth_body;
  validation_details = λ body. null;
  get_user = λ t client jwt. value (some (record { id = codes "ann"; email = none }));
  find_block = λ t client lookup. value missing;
  find_rate = λ t client schema identifier. value missing;
  run_query = λ t client plan. value (rows (arr nil));
  fetch = λ t request. value (record { ok = true; status = 200; body = 116 ∷ [] });
}

abbrev pub device : Device
device = record {
  has_web_crypto = true;
  to_lower = λ s. s;
  to_string = to_string;
  stringify = stringify;
  parse_json = parse_json;
  atob = unmark;
  btoa = mark;
  import_spki = λ bytes. ok bytes;
  rsa_encrypt = λ key bytes. mark bytes;
  aes_encrypt = λ key iv bytes. mark bytes;
  aes_decrypt = λ key iv bytes. unmark bytes;
  random_key = λ sent. 5 ∷ [];
  random_iv = λ sent. 7 ∷ [];
  invoke = λ sent name body. delivered (obj end);
}

-- The headers of a signed-in caller on an allowed origin, and of a caller on another origin.
abbrev headers : Header → Option Str
headers Header.origin = some (codes "https://b.example")
headers Header.authorization = some (codes "Bearer token")
headers Header.x_forwarded_for = some (codes "10.0.0.1")
headers _ = none

abbrev foreign_headers : Header → Option Str
foreign_headers Header.origin = some (codes "https://c.example")
foreign_headers _ = none

abbrev pub request : Request
request = record { method = post; headers = headers; body = some (bool true) }

abbrev pub foreign_request : Request
foreign_request = record { method = options; headers = foreign_headers; body = none }
