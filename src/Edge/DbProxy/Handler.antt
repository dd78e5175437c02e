-- ===== src/Edge/DbProxy/Handler.antt =====
-- functions/db-proxy/index.ts: the handler.
use securesupabase_js.Prelude.{ℕ, true, some, []}
use securesupabase_js.Js.Text.{codes}
use securesupabase_js.Js.Json.{Json, bool, object2}
use securesupabase_js.Edge.Types.{
  Backend, Request, Response, State, Method, options, post, other, Client,
}
use securesupabase_js.Edge.Query.{DbRequest, table, rpc}
use securesupabase_js.Edge.Effects.{Run, answer, or_do, ◌>>=◌, ◌>>◌, try_catch}
use securesupabase_js.Edge.Cors.{preflight_response}
use securesupabase_js.Edge.E2ee.{parse_maybe_encrypted_request}
use securesupabase_js.Edge.Http.{
  json_unauthorized, json_method_not_allowed, json_invalid_body, json_server_misconfigured,
}
use securesupabase_js.Edge.RateLimit.{get_identifier, check_rate_limit_with_policy}
use securesupabase_js.Edge.Security.{check_blocked_with_policy}
use securesupabase_js.Edge.Gate.{
  bearer_header, refuse, user_extra, server_config, admin_client, user_client, get_user, stop_if,
  stop_if_limited, respond, unhandled,
}
use securesupabase_js.Edge.DbProxy.Operations.{run_table_operation, run_rpc_operation}

abbrev pub rate_per_min : ℕ
rate_per_min = 120

unfoldable pub run_request : Backend → DbRequest → Client → Run Json
run_request be (table req) client = run_table_operation be req client
run_request be (rpc req) client = run_rpc_operation be req client

-- The body of the `try`.
unfoldable pub db_proxy_body : Backend → Request → Run Response
db_proxy_body be req = do
  header ←
      or_do (bearer_header req)
        (refuse be req (codes "db_proxy_unauthorized") [] (json_unauthorized be req))
  config ← or_do (server_config be) (answer (json_server_misconfigured be req))
  found ← get_user be config header
  user ← or_do found (refuse be req (codes "db_proxy_invalid_jwt") [] (json_unauthorized be req))
  blocked ← check_blocked_with_policy be req (some (admin_client config)) (some user.id) user.email
  stop_if be req (codes "db_proxy_blocked") (user_extra user) blocked
  rate ←
      check_rate_limit_with_policy be (admin_client config) (get_identifier req (some user.id))
        rate_per_min
  stop_if_limited be req (codes "db_proxy_rate_limited") (user_extra user) rate
  parsed ← parse_maybe_encrypted_request be req
  request ← or_do (be.parse_db_request parsed.0) (
      refuse be req (codes "db_proxy_invalid_body") (user_extra user) (
        json_invalid_body be req (codes "Request body validation failed")
          (some (be.validation_details parsed.0))))
  data_ ← run_request be request (user_client config header)
  respond be req (object2 (codes "ok") (bool true) (codes "data") data_) 200 parsed.1

-- The branches on the method.
unfoldable pub by_method : Backend → Request → Method → State → Response × State
by_method be req options s = (preflight_response be req, s)
by_method be req other s = (json_method_not_allowed be req, s)
by_method be req post s =
    try_catch (db_proxy_body be req) (unhandled be req (codes "db_proxy_unhandled_error")) s

unfoldable pub db_proxy : Backend → Request → State → Response × State
unfolding by_method
db_proxy be req s = by_method be req req.method s
