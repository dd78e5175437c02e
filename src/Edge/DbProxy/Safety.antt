-- ===== src/Edge/DbProxy/Safety.antt =====
-- Which queries the database proxy sends, and for whom.
use securesupabase_js.Prelude.{◌≡◌, none, some, All}
use securesupabase_js.Js.Text.{Str}
use securesupabase_js.Js.Json.{Json}
use securesupabase_js.Edge.Types.{
  Backend, Request, State, Event, Trace, Client, User, value, queried, fetched, post,
}
use securesupabase_js.Edge.Effects.Keeps.{Keeps}
use securesupabase_js.Edge.RateLimit.{Store, get_identifier, check_rate_limit_with_policy}
use securesupabase_js.Edge.Security.{check_blocked_with_policy}
use securesupabase_js.Edge.Gate.{
  bearer_header, Config, server_config, admin_client, user_client, jwt_of,
}
use securesupabase_js.Edge.Quiet.{CameFrom, CameIn}
use securesupabase_js.Edge.DbProxy.Handler.{rate_per_min}
use securesupabase_js.Edge.DbProxy.Plans.{IsAllowedPlan}

-- The request got past every check, and the client carries the caller's own token.
pub record IsAuthorized (be : Backend) (req : Request) (store : Store) (client : Client)
    : Type 0 where
  pub header : Str
  pub config : Config
  pub user : User
  pub posted : req.method ≡ post
  pub bearer : bearer_header req ≡ some header
  pub configured : server_config be ≡ some config
  pub known :
      (t : Trace) × (be.get_user t (admin_client config) (jwt_of header) ≡ value (some user))
  pub unblocked :
      CameFrom
        (check_blocked_with_policy be req (some (admin_client config)) (some user.id) user.email)
        none
  -- the limiter lets the request pass on the map with which the run starts
  pub within_rate :
      CameIn
        (λ s. s.store ≡ store)
        (check_rate_limit_with_policy be
          (admin_client config)
          (get_identifier req (some user.id))
          rate_per_min)
        none
  pub own_client : client ≡ user_client config header

-- An event that is a query has an authorised client and an allowed plan.
abbrev pub IsProper : Backend → Request → Store → Event → Type 0
IsProper be req store (queried client plan) =
    IsAuthorized be req store client × IsAllowedPlan be plan
IsProper be req store (fetched request) = ⊥
IsProper be req store _ = Unit

module _ (be : Backend) (req : Request) (store : Store) where
  abbrev Invariant : State → Type 0
  Invariant s = All (IsProper be req store) s.trace

  -- before the rate limiter: its map is still that of the start
  abbrev Early : State → Type 0
  Early s = Invariant s × (s.store ≡ store)
