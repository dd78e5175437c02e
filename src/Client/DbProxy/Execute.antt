-- ===== src/Client/DbProxy/Execute.antt =====
-- SecureDbProxy.ts: a request goes through the invoker, and what comes back is data or an error.
-- `to_json` is the request as the object that JSON carries.
use securesupabase_js.Prelude.{
  ℕ, ◌≡◌, ◌≢◌, refl, Bool, true, false, not, Option, none, some, List, [], ◌∷◌, if◌then◌else◌,
}
use securesupabase_js.Js.Text.{Str, codes, str_eq}
use securesupabase_js.Js.Json.{Json, get, null, bool, member, object2}
use securesupabase_js.Edge.Query.{DbRequest, table, rpc, TableRequest}
use securesupabase_js.Edge.Types
use securesupabase_js.Edge.Types.{Backend}
use securesupabase_js.Edge.Effects as Server
use securesupabase_js.Edge.E2ee.{is_truthy_member, build_encrypted_response}
use securesupabase_js.Client.Effects.{
  Device, Sent, Result, ok, threw, Run, State, delivered, continue, pure, throw, catch, recover,
  invoke_function, ◌>>=◌,
}
use securesupabase_js.Client.E2ee.{encrypt_payload, seal, get_web_crypto}
use securesupabase_js.Client.E2ee.RoundTrip.{IsRuntime, decrypt-build}
use securesupabase_js.Client.Invoker.{
  Options, invoke, invoke_encrypted, get_public_key, cached_or_load,
}

-- SecureDbResponse: `none` is `null`, or `undefined` for data that is missing.
pub record DbResponse : Type 0 where
  pub data_ : Option Json
  pub error : Option Str

-- value ?? fallback, on members
abbrev present : Option Json → Option Json → Option Json
present none fallback = fallback
present (some null) fallback = fallback
present (some v) fallback = some v

abbrev message_of : Device → Json → Str
message_of device result =
    elim (present (member (codes "message") result)
      (present (member (codes "error") result) none)) [
        | none ↦ codes "db-proxy request failed"
        | some v ↦ device.to_string v
      ]

module _ (device : Device) (options : Options) (to_json : DbRequest → Json)
    (function_name : Str) where
  unfoldable pub execute_request : DbRequest → Run (Option Json)
  execute_request request = do
    result ← invoke device options function_name (to_json request)
    if not (is_truthy_member (member (codes "ok") result))
        then throw (message_of device result)
        else pure (member (codes "data") result)

  -- try { return { data, error: null } } catch { return { data: null, error } }
  unfoldable pub raw : DbRequest → Run DbResponse
  unfolding execute_request
  raw request =
      catch (do found ← execute_request request; pure (record { data_ = found; error = none }))
        (λ message. pure (record { data_ = none; error = some message }))

  unfoldable pub execute : TableRequest → Run DbResponse
  unfolding raw
  execute request = raw (table request)

  unfoldable pub call_rpc : Option Str → Str → Option Json → Run DbResponse
  unfolding raw
  call_rpc schema name args = raw (rpc (record { schema = schema; name = name; args = args }))

-- The answer of the database proxy to a request that went through.
abbrev pub success : Json → Json
success data_ = object2 (codes "ok") (bool true) (codes "data") data_

module _ (device : Device) (options : Options) (to_json : DbRequest → Json) (function_name : Str)
    (request : DbRequest) (s : State) where
  -- what the invoker gives for the request
  abbrev invoked : Result Json
  invoked = (invoke device options function_name (to_json request) s).0

  -- What a request comes to: the data of a result whose `ok` is true, or, without data, the message of
  -- any other result or the error that the invoker throws.
  pub data Settles : DbResponse → Type 0 where
    found :
        (result : Json)
        → invoked ≡ ok result
        → is_truthy_member (member (codes "ok") result) ≡ true
        → Settles (record { data_ = member (codes "data") result; error = none })
    refused :
        (result : Json)
        → invoked ≡ ok result
        → is_truthy_member (member (codes "ok") result) ≡ false
        → Settles (record { data_ = none; error = some (message_of device result) })
    failed :
        (message : Str)
        → invoked ≡ threw message
        → Settles (record { data_ = none; error = some message })

  -- A request never throws, whatever the function answers: it resolves to the data of the result that
  -- the invoker gives and no error, if the `ok` of the result is true; else to no data and an error,
  -- which is the message of the result or what the invoker throws.
  pub raw-settles :
      (response : DbResponse) × ((raw device options to_json function_name request s).0
        ≡ ok response)
      × Settles response
  unfolding raw execute_request catch ◌>>=◌
  raw-settles = go invoked (invoke device options function_name (to_json request) s).1 refl
    where
      checked : Bool → Json → Run (Option Json)
      checked c result =
          if not c then throw (message_of device result) else pure (member (codes "data") result)

      check : Json → Run (Option Json)
      check result = checked (is_truthy_member (member (codes "ok") result)) result

      finish : Option Json → Run DbResponse
      finish data_ = pure (record { data_ = data_; error = none })

      handle : Str → Run DbResponse
      handle message = pure (record { data_ = none; error = some message })

      ended : Result Json → State → Result DbResponse
      ended r s' =
          (recover (continue (continue r check s').0 finish (continue r check s').1) handle).0

      by_ok :
          (result : Json) (s' : State)
          → invoked ≡ ok result
          → (c : Bool) → is_truthy_member (member (codes "ok") result) ≡ c
          → (response : DbResponse) × ((recover
                (continue (checked c result s').0 finish (checked c result s').1)
                handle).0
              ≡ ok response)
            × Settles response
      by_ok result s' e true fine = (_, refl, found result e fine)
      by_ok result s' e false bad = (_, refl, refused result e bad)

      go :
          (r : Result Json) (s' : State)
          → invoked ≡ r
          → (response : DbResponse) × (ended r s' ≡ ok response) × Settles response
      go (ok result) s' e = by_ok result s' e (is_truthy_member (member (codes "ok") result)) refl
      go (threw message) s' e = (_, refl, failed message e)

-- With the public key at hand and a runtime whose base64 and ciphers undo themselves, a request
-- that the database proxy answers with data that survive JSON, encrypted under the AES key of the
-- request and a nonempty iv, gets exactly those data and no error.
pub raw-delivered :
    (device : Device) (be : Backend) (public_key : List ℕ) (private_key_b64 : Str)
    → IsRuntime device be public_key private_key_b64
    → (options : Options) (to_json : DbRequest → Json) (function_name : Str) (request : DbRequest)
      (data_ : Json) (sent : List Sent) (server : Types.State) (envelope : Json)
    → be.random_iv server.trace ≢ []
    → device.parse_json (be.stringify (success data_)) ≡ some (success data_)
    → (build_encrypted_response be (success data_) (device.random_key sent) server).0
      ≡ Server.Outcome.ok envelope
    → ((body : Json) → device.invoke sent function_name body ≡ delivered envelope)
    → (raw device options to_json function_name request
        (record { cached_public_key = some public_key; sent = sent })).0
      ≡ ok (record { data_ = some data_; error = none })
unfolding raw execute_request invoke invoke_encrypted get_public_key cached_or_load encrypt_payload
    get_web_crypto invoke_function catch ◌>>=◌ get str_eq
raw-delivered device be public_key private_key_b64 runtime options to_json function_name request
      data_ sent server envelope filled json built answers =
    simp (
      runtime.has_web_crypto,
      answers,
      decrypt-build device be public_key private_key_b64 runtime (success data_)
          (device.random_key sent) server (answered_state (to_json request)) filled json envelope
          built,
    )
  where
    answered_state : Json → State
    answered_state body = record {
      cached_public_key = some public_key;
      sent =
          record {
            function = function_name;
            body = seal device (device.random_key sent) (device.random_iv sent) body public_key;
          }
          ∷ sent;
    }
