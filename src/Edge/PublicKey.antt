-- ===== src/Edge/PublicKey.antt =====
-- functions/e2ee-public-key/index.ts; the handler has no `try`, so a call that throws rejects.
use securesupabase_js.Prelude.{◌≡◌, Option, none, some, []}
use securesupabase_js.Js.Text.{Str, codes, truthy}
use securesupabase_js.Js.Json.{Json, str, object1}
use securesupabase_js.Edge.Types.{
  Backend, Request, Response, State, Method, options, post, other, Trace, User, value,
}
use securesupabase_js.Edge.Effects.{Run, pure, answer, or_do, ◌>>=◌, ◌>>◌}
use securesupabase_js.Edge.Effects.Keeps.{Keeps}
use securesupabase_js.Edge.Cors.{preflight_response}
use securesupabase_js.Edge.Http.{json_response, json_unauthorized, json_server_misconfigured}
use securesupabase_js.Edge.Security.{check_blocked_with_policy}
use securesupabase_js.Edge.Gate.{
  bearer_header, refuse, user_extra, get_user, stop_if, Config, admin_client, jwt_of,
}
use securesupabase_js.Edge.Quiet.{CameFrom}

abbrev key_config : Option Str → Option Str → Option Config
key_config (some url) (some service_key) =
    some (record { url = url; service_key = service_key; anon_key = [] })
key_config _ _ = none

-- The two variables that this handler reads; it makes no client with the anonymous key.
unfoldable pub service_config : Backend → Option Config
service_config be =
    key_config (truthy be.env.supabase_url) (truthy be.env.supabase_service_role_key)

abbrev pub key_response : Backend → Request → Str → Response
key_response be req key = json_response be req (object1 (codes "public_key_b64") (str key)) 200 []

unfoldable pub public_key_body : Backend → Request → Run Response
public_key_body be req = do
  header ←
      or_do (bearer_header req)
        (refuse be req (codes "e2ee_public_key_unauthorized") [] (json_unauthorized be req))
  config ← or_do (service_config be) (answer (json_server_misconfigured be req))
  blocked ← check_blocked_with_policy be req (some (admin_client config)) none none
  stop_if be req (codes "e2ee_public_key_blocked") [] blocked
  found ← get_user be config header
  user ←
      or_do found
        (refuse be req (codes "e2ee_public_key_invalid_jwt") [] (json_unauthorized be req))
  blocked_user ←
      check_blocked_with_policy be req (some (admin_client config)) (some user.id) user.email
  stop_if be req (codes "e2ee_public_key_blocked_user") (user_extra user) blocked_user
  key ← or_do (truthy be.env.e2ee_rsa_public_key_b64) (answer (json_server_misconfigured be req))
  pure (key_response be req key)

unfoldable pub by_method : Backend → Request → Method → Run Response
by_method be req options = pure (preflight_response be req)
by_method be req other =
    pure (json_response be req (object1 (codes "error") (str (codes "method_not_allowed"))) 405 [])
by_method be req post = public_key_body be req

unfoldable pub e2ee_public_key : Backend → Request → Run Response
unfolding by_method
e2ee_public_key be req = by_method be req req.method

-- The caller has a bearer token that the authentication server knows, and neither its address nor
-- its user is blocked.
pub record IsEntitled (be : Backend) (req : Request) (response : Response) : Type 0 where
  pub header : Str
  pub config : Config
  pub user : User
  pub key : Str
  pub bearer : bearer_header req ≡ some header
  pub known :
      (t : Trace) × (be.get_user t (admin_client config) (jwt_of header) ≡ value (some user))
  pub unblocked :
      CameFrom (check_blocked_with_policy be req (some (admin_client config)) none none) none
  pub user_unblocked :
      CameFrom
        (check_blocked_with_policy be req (some (admin_client config)) (some user.id) user.email)
        none
  pub published : truthy be.env.e2ee_rsa_public_key_b64 ≡ some key
  pub answered : response ≡ key_response be req key

abbrev Trivial : State → Type 0
Trivial s = Unit
