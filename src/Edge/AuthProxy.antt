-- ===== src/Edge/AuthProxy.antt =====
-- functions/auth-proxy/index.ts
pub mod Safety
use securesupabase_js.Prelude.{
  ℕ, Bool, true, false, Option, none, some, List, [], ◌∷◌, ◌++◌, if◌then◌else◌,
}
use securesupabase_js.Js.Text.{Str, codes, truthy}
use securesupabase_js.Js.Json.{Json, bool, num, str, obj, end, field, object1, object2, Fields}
use securesupabase_js.Edge.Types.{
  Backend, Request, Response, State, Method, options, post, other, AuthAction, AuthBody, sign_in,
  sign_up, reset_password, sign_out, refresh_session, GotrueRequest, Upstream, fetched,
}
use securesupabase_js.Edge.Effects.{Run, pure, answer, throw, or_do, await, ◌>>=◌, ◌>>◌, try_catch}
use securesupabase_js.Edge.Cors.{preflight_response}
use securesupabase_js.Edge.E2ee.{expect, parse_maybe_encrypted_request}
use securesupabase_js.Edge.Http.{
  json_unauthorized, json_method_not_allowed, json_invalid_body, json_server_misconfigured,
}
use securesupabase_js.Edge.RateLimit.{get_identifier, check_rate_limit_with_policy}
use securesupabase_js.Edge.Security.{check_blocked_with_policy}
use securesupabase_js.Edge.Gate.{
  bearer_header, Config, refuse, server_config, admin_client, stop_if, stop_if_limited, respond,
  unhandled,
}

abbrev pub rate_per_min : ℕ
rate_per_min = 40

-- gotrueRequest
unfoldable pub gotrue_request : Config → Str → Json → Option Str → GotrueRequest
gotrue_request config path body header = record {
  url = config.url ++ (codes "/auth/v1" ++ path);
  apikey = config.anon_key;
  authorization = truthy header;
  body = body;
}

-- The value of an optional text of the body, or a 400 answer.
unfoldable pub require : Backend → Request → Option Str → Str → Run Str
require be req o message = or_do (truthy o) (answer (json_invalid_body be req message none))

abbrev optional_field : Str → Option Str → Fields
optional_field name o = elim (truthy o) [ none ↦ end | some v ↦ field name (str v) end ]

abbrev profile : Option Str → Fields
profile display_name = elim (truthy display_name) [
  | none ↦ end
  | some v ↦ field (codes "data") (object1 (codes "display_name") (str v)) end
]

abbrev both_required : Str
both_required = codes "email and password are required"

-- The request to the authentication server, for each action.
unfoldable pub choose_request :
    Backend → Request → Config → AuthBody → AuthAction → Run GotrueRequest
unfolding gotrue_request
choose_request be req config input sign_in = do
  email ← require be req input.email both_required
  password ← require be req input.password both_required
  pure (
      gotrue_request config (codes "/token?grant_type=password")
        (object2 (codes "email") (str email) (codes "password") (str password)) none)
choose_request be req config input sign_up = do
  email ← require be req input.email both_required
  password ← require be req input.password both_required
  pure (
      gotrue_request config (codes "/signup")
        (obj (
          field (codes "email") (str email)
            (field (codes "password") (str password) (profile input.display_name))))
        none)
choose_request be req config input reset_password = do
  email ← require be req input.email (codes "email is required")
  pure (
      gotrue_request config (codes "/recover")
        (obj (
          field (codes "email") (str email)
            (optional_field (codes "redirect_to") input.redirect_to)))
        none)
choose_request be req config input refresh_session = do
  token ← require be req input.refresh_token (codes "refresh_token is required")
  pure (
      gotrue_request config (codes "/token?grant_type=refresh_token")
        (object1 (codes "refresh_token") (str token)) none)
choose_request be req config input sign_out = do
  header ←
      or_do (bearer_header req)
        (refuse be req (codes "auth_proxy_unauthorized_sign_out") [] (json_unauthorized be req))
  pure (gotrue_request config (codes "/logout") (obj end) (some header))

-- `text ? JSON.parse(text) : {}`
unfoldable pub parse_upstream : Backend → List ℕ → Run Json
parse_upstream be [] = pure (obj end)
parse_upstream be (b ∷ bytes) = expect (be.parse_json (b ∷ bytes)) (codes "SyntaxError")

abbrev pub upstream_status : Upstream → ℕ
upstream_status upstream = if upstream.ok then 200 else upstream.status

abbrev upstream_body : Upstream → Json → Json
upstream_body upstream parsed = obj (
    field (codes "ok") (bool upstream.ok)
      (field (codes "status") (num upstream.status) (field (codes "data") parsed end)))

-- The body of the `try`.
unfoldable pub auth_proxy_body : Backend → Request → Run Response
auth_proxy_body be req = do
  config ← or_do (server_config be) (answer (json_server_misconfigured be req))
  blocked ← check_blocked_with_policy be req (some (admin_client config)) none none
  stop_if be req (codes "auth_proxy_blocked") [] blocked
  rate ←
      check_rate_limit_with_policy be (admin_client config) (get_identifier req none) rate_per_min
  stop_if_limited be req (codes "auth_proxy_rate_limited") [] rate
  parsed ← parse_maybe_encrypted_request be req
  input ← or_do (be.parse_auth_body parsed.0) (
      refuse be req (codes "auth_proxy_invalid_body") [] (
        json_invalid_body be req (codes "Request body validation failed")
          (some (be.validation_details parsed.0))))
  blocked_email ← check_blocked_with_policy be req (some (admin_client config)) none input.email
  stop_if be req (codes "auth_proxy_blocked_email") [] blocked_email
  request ← choose_request be req config input input.action
  upstream ← await (fetched request) (λ t. be.fetch t request)
  parsed_json ← parse_upstream be upstream.body
  respond be req (upstream_body upstream parsed_json) (upstream_status upstream) parsed.1

unfoldable pub by_method : Backend → Request → Method → State → Response × State
by_method be req options s = (preflight_response be req, s)
by_method be req other s = (json_method_not_allowed be req, s)
by_method be req post s =
    try_catch (auth_proxy_body be req) (unhandled be req (codes "auth_proxy_unhandled_error")) s

unfoldable pub auth_proxy : Backend → Request → State → Response × State
unfolding by_method
auth_proxy be req s = by_method be req req.method s
