-- ===== src/Edge/Gate.antt =====
-- The steps that the handlers share: functions/db-proxy/index.ts, functions/auth-proxy/index.ts and
-- functions/e2ee-public-key/index.ts write them out.
use securesupabase_js.Prelude.{ℕ, Option, none, some, List, [], ◌∷◌, ◌++◌, if◌then◌else◌}
use securesupabase_js.Js.Text.{Str, codes, starts_with, replace_first, truthy}
use securesupabase_js.Js.Json.{Json, num, str}
use securesupabase_js.Edge.Types.{
  Backend, Request, Response, State, authorization, Client, User, asked_user, console_error,
}
use securesupabase_js.Edge.Effects.{Run, pure, answer, emit, await, ◌>>◌}
use securesupabase_js.Edge.Http.{
  json_response, json_encrypted_response, json_internal_error, json_rate_limited,
}
use securesupabase_js.Edge.Security.{log_security_context}

-- The header of a request that starts with `Bearer `.
unfoldable pub bearer_header : Request → Option Str
unfolding starts_with
bearer_header req = elim (req.headers authorization) [
  | none ↦ none
  | some header ↦ if starts_with header (codes "Bearer ") then some header else none
]

-- An early return that is logged first.
unfoldable pub refuse :
    {A : Type 0} → Backend → Request → Str → List (Str × Json) → Response → Run A
unfolding log_security_context
refuse be req event extra response = log_security_context be req event extra >> answer response

abbrev pub user_extra : User → List (Str × Json)
user_extra user = (codes "user_id", str user.id) ∷ []

pub record Config : Type 0 where
  pub url : Str
  pub service_key : Str
  pub anon_key : Str

abbrev config_of : Option Str → Option Str → Option Str → Option Config
config_of (some url) (some service_key) (some anon_key) =
    some (record { url = url; service_key = service_key; anon_key = anon_key })
config_of _ _ _ = none

-- The three variables, if none is missing or empty.
unfoldable pub server_config : Backend → Option Config
server_config be =
    config_of (truthy be.env.supabase_url) (truthy be.env.supabase_service_role_key)
      (truthy be.env.supabase_anon_key)

-- createClient(supabaseUrl, serviceKey)
abbrev pub admin_client : Config → Client
admin_client config = record { url = config.url; key = config.service_key; authorization = none }

-- The client that acts for the user: the anonymous key with the user's own header.
abbrev pub user_client : Config → Str → Client
user_client config header = record {
  url = config.url;
  key = config.anon_key;
  authorization = some header;
}

abbrev pub jwt_of : Str → Str
jwt_of header = replace_first header (codes "Bearer ") []

-- `admin.auth.getUser(jwt)`; `none` is an error or a missing user.
unfoldable pub get_user : Backend → Config → Str → Run (Option User)
unfolding replace_first
get_user be config header =
    await (asked_user (admin_client config) (jwt_of header))
      (λ t. be.get_user t (admin_client config) (jwt_of header))

-- `if (response) { log; return response }`
unfoldable pub stop_if :
    Backend → Request → Str → List (Str × Json) → Option Response → Run (Unit {0})
unfolding refuse
stop_if be req event extra none = pure tt
stop_if be req event extra (some response) = refuse be req event extra response

unfoldable pub stop_if_limited :
    Backend → Request → Str → List (Str × Json) → Option ℕ → Run (Unit {0})
unfolding refuse
stop_if_limited be req event extra none = pure tt
stop_if_limited be req event extra (some wait) =
    refuse be req event (extra ++ (codes "retry_after_seconds", num wait) ∷ [])
      (json_rate_limited be req wait)

-- The answer, encrypted under the key of the request's envelope if it had one.
unfoldable pub respond : Backend → Request → Json → ℕ → Option (List ℕ) → Run Response
respond be req body status none = pure (json_response be req body status [])
respond be req body status (some aes_key) = json_encrypted_response be req body status aes_key

-- The `catch`: the response, after two entries in the log.
unfoldable pub unhandled : Backend → Request → Str → State → Response × State
unhandled be req event s =
    (json_internal_error be req, ((emit console_error >> log_security_context be req event []) s).1)
