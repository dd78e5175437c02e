-- ===== src/Edge/AuthProxy/Safety.antt =====
-- Which requests the authentication proxy passes on.
use securesupabase_js.Prelude.{◌≡◌, Option, none, some, List, All}
use securesupabase_js.Js.Text.{Str, truthy}
use securesupabase_js.Js.Json.{Json}
use securesupabase_js.Edge.Types.{
  Backend, Request, Response, State, Event, AuthAction, AuthBody, sign_out, GotrueRequest, post,
  queried, fetched, drew_iv,
}
use securesupabase_js.Edge.Effects.Keeps.{Keeps}
use securesupabase_js.Edge.RateLimit.{Store, get_identifier, check_rate_limit_with_policy}
use securesupabase_js.Edge.Security.{check_blocked_with_policy}
use securesupabase_js.Edge.Gate.{bearer_header, Config, server_config, admin_client, refuse}
use securesupabase_js.Edge.Quiet.{IsQuiet, after, CameFrom, CameIn, Keeps-refuse}
use securesupabase_js.Edge.AuthProxy.{rate_per_min}

-- The caller's token goes along with a sign-out alone, and nothing else does.
abbrev pub CarriesToken : Request → AuthAction → Option Str → Type 0
CarriesToken req sign_out token =
    (header : Str) × (bearer_header req ≡ some header) × (token ≡ truthy (some header))
CarriesToken req _ token = token ≡ none

-- A request that is passed on: a POST from an address that is not blocked and within the rate
-- limit, with an email that is not blocked, under the anonymous key.
pub record IsForwarded (be : Backend) (req : Request) (store : Store) (sent : GotrueRequest)
    : Type 0 where
  pub config : Config
  pub input : AuthBody
  pub posted : req.method ≡ post
  pub configured : server_config be ≡ some config
  pub unblocked :
      CameFrom (check_blocked_with_policy be req (some (admin_client config)) none none) none
  -- the limiter lets the request pass on the map with which the run starts
  pub within_rate :
      CameIn
        (λ s. s.store ≡ store)
        (check_rate_limit_with_policy be
          (admin_client config)
          (get_identifier req none)
          rate_per_min)
        none
  pub email_unblocked :
      CameFrom (check_blocked_with_policy be req (some (admin_client config)) none input.email) none
  pub anonymous : sent.apikey ≡ config.anon_key
  pub token : CarriesToken req input.action sent.authorization

abbrev pub IsProper : Backend → Request → Store → Event → Type 0
IsProper be req store (fetched sent) = IsForwarded be req store sent
IsProper be req store (queried client plan) = ⊥
IsProper be req store _ = Unit

module _ (be : Backend) (req : Request) (store : Store) where
  IsProper-quiet : (e : Event) → IsQuiet e → IsProper be req store e
  IsProper-quiet (queried client plan) h = h
  IsProper-quiet (fetched sent) h = absurd h
  IsProper-quiet drew_iv h = tt
  IsProper-quiet _ h = tt

  abbrev Invariant : State → Type 0
  Invariant s = All (IsProper be req store) s.trace

  Invariant-quiet : (s : State) (e : Event) → IsQuiet e → Invariant s → Invariant (after e s)
  Invariant-quiet s e q h = (IsProper-quiet e q, h)

  -- before the rate limiter: its map is still that of the start
  abbrev Early : State → Type 0
  Early s = Invariant s × (s.store ≡ store)

  Early-quiet : (s : State) (e : Event) → IsQuiet e → Early s → Early (after e s)
  Early-quiet s e q (h, same) = (Invariant-quiet s e q h, same)

  turned_away :
      {A : Type 0} {Q : A → Type 0} (event : Str) (extra : List (Str × Json)) (response : Response)
      → Keeps Early Q (refuse be req event extra response)
  turned_away event extra response = Keeps-refuse Early Early-quiet be req event extra response

  abbrev IsChosen : Config → AuthAction → GotrueRequest → Type 0
  IsChosen config action sent =
      (sent.apikey ≡ config.anon_key) × CarriesToken req action sent.authorization
