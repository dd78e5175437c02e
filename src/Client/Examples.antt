-- ===== src/Client/Examples.antt =====
-- The theorems on the client at concrete inputs.
use securesupabase_js.Prelude.{◌≡◌, refl, Bool, true, false, none, some, [], ◌∷◌}
use securesupabase_js.Js.Text.{codes, str_eq}
use securesupabase_js.Js.Json.{Json, get, bool, obj, end}
use securesupabase_js.Edge.Types
use securesupabase_js.Edge.Types.{Client}
use securesupabase_js.Edge.Query.{DbRequest}
use securesupabase_js.Edge.Effects as Server
use securesupabase_js.Edge.E2ee.{
  parse_maybe_encrypted_request, build_encrypted_response, response_envelope,
}
use securesupabase_js.Client.Effects as Browser
use securesupabase_js.Client.E2ee.{seal, decrypt_payload, is_response_envelope, encrypted_of}
use securesupabase_js.Client.E2ee.RoundTrip.{IsRuntime, parse-seal, decrypt-build}
use securesupabase_js.Client.Invoker.{Options, invoke}
use securesupabase_js.Client.Invoker.Sealing.{AllSealed, invoke-AllSealed, invoke-resends}
use securesupabase_js.Client.DbProxy.Execute.{
  DbResponse, raw, success, Settles, raw-settles, raw-delivered,
}
use securesupabase_js.Client.AuthProxy.{AuthApi, AuthState, SessionResult, enter, sign_in_input}
use securesupabase_js.Client.AuthProxy.Sessions.{Grew, enter-Grew}
use securesupabase_js.Samples.{backend, device, request, table_request}

sample-IsRuntime : IsRuntime device backend (codes "public") (codes "private")
sample-IsRuntime = record {
  has_web_crypto = refl;
  private_key = refl;
  texts = λ s. refl;
  client_texts = λ s. refl;
  atob-btoa = λ bytes. refl;
  client_atob-btoa = λ bytes. refl;
  btoa_nonempty = λ bytes h. refl;
  client_btoa_nonempty = λ bytes h. refl;
  rsa = λ bytes. refl;
  rsa_nonempty = λ bytes e. cc;
  aes = λ key iv bytes. refl;
  aes_nonempty = λ key iv bytes e. cc;
  client_aes = λ key iv bytes. refl;
  client_aes_nonempty = λ key iv bytes e. cc;
}

json-true : backend.parse_json (device.stringify (bool true)) ≡ some (bool true)
unfolding str_eq
json-true = refl

client_json-true : device.parse_json (backend.stringify (bool true)) ≡ some (bool true)
unfolding str_eq
client_json-true = refl

abbrev sealed_request : Types.Request
sealed_request = record request {
  body = some (seal device (3 ∷ []) (4 ∷ []) (bool true) (codes "public"));
}

abbrev server_state : Types.State
server_state = record { store = []; trace = [] }

abbrev client_state : Browser.State
client_state = record { cached_public_key = some (codes "public"); sent = [] }

parse-seal_example :
    parse_maybe_encrypted_request backend sealed_request server_state
    ≡ (Server.Outcome.ok (bool true, some (3 ∷ [])), server_state)
parse-seal_example =
    parse-seal device backend (codes "public") (codes "private") sample-IsRuntime (bool true)
      (3 ∷ []) (4 ∷ []) sealed_request server_state (λ e. cc) json-true refl

abbrev answer : Json
answer =
    response_envelope (backend.btoa (7 ∷ []))
      (backend.btoa (backend.aes_encrypt (3 ∷ []) (7 ∷ []) (codes "true")))

built :
    (build_encrypted_response backend (bool true) (3 ∷ []) server_state).0
    ≡ Server.Outcome.ok answer
unfolding build_encrypted_response Server.◌>>=◌
built = refl

decrypt-build_example :
    decrypt_payload device answer (3 ∷ []) client_state
    ≡ (Browser.Result.ok (bool true), client_state)
decrypt-build_example =
    decrypt-build device backend (codes "public") (codes "private") sample-IsRuntime (bool true)
      (3 ∷ []) server_state client_state (λ e. cc) client_json-true answer built

abbrev options : Bool → Options
options fallback = record {
  public_key_function_name = none;
  allow_plain_fallback = some fallback;
  initial_public_key_b64 = none;
}

invoke-AllSealed_example :
    AllSealed device
      (options false)
      (codes "db-proxy")
      (bool true)
      (invoke device
        (options false)
        (codes "db-proxy")
        (bool true)
        (record { cached_public_key = none; sent = [] })).1
invoke-AllSealed_example =
    invoke-AllSealed device (options false) (codes "db-proxy") (bool true) none refl

abbrev shouting : Browser.Device
shouting = record device { to_lower = λ s. codes "invalid encrypted response envelope." }

in_the_clear : is_response_envelope (encrypted_of (obj end)) ≡ false
unfolding is_response_envelope get
in_the_clear = refl

invoke-resends_example :
    invoke shouting (options true) (codes "db-proxy") (bool true) client_state ≡ (
      Browser.Result.ok (obj end),
      record {
        cached_public_key = some (codes "public");
        sent =
            record { function = codes "db-proxy"; body = bool true }
            ∷ record {
              function = codes "db-proxy";
              body = seal shouting (5 ∷ []) (7 ∷ []) (bool true) (codes "public");
            }
            ∷ [];
      },
    )
invoke-resends_example =
    invoke-resends shouting (options true) (codes "db-proxy") (bool true) (obj end) (codes "public")
      [] refl refl refl in_the_clear (λ t body. refl)

abbrev to_json : DbRequest → Json
to_json _ = bool true

raw-settles_example :
    (response : DbResponse) × ((raw device
        (options false)
        to_json
        (codes "db-proxy")
        (DbRequest.table table_request)
        client_state).0
      ≡ Browser.Result.ok response)
    × Settles device
        (options false)
        to_json
        (codes "db-proxy")
        (DbRequest.table table_request)
        client_state
        response
raw-settles_example =
    raw-settles device (options false) to_json (codes "db-proxy") (DbRequest.table table_request)
      client_state

abbrev reply_envelope : Json
reply_envelope =
    response_envelope (backend.btoa (7 ∷ [])) (
      backend.btoa
        (backend.aes_encrypt (5 ∷ []) (7 ∷ []) (backend.stringify (success (bool true)))))

-- A device whose JSON knows one text: that of the reply.
abbrev replying : Browser.Device
replying = record device {
  parse_json = λ bytes. some (success (bool true));
  invoke = λ sent name body. Browser.delivered reply_envelope;
}

replying-IsRuntime : IsRuntime replying backend (codes "public") (codes "private")
replying-IsRuntime = record {
  has_web_crypto = refl;
  private_key = refl;
  texts = λ s. refl;
  client_texts = λ s. refl;
  atob-btoa = λ bytes. refl;
  client_atob-btoa = λ bytes. refl;
  btoa_nonempty = λ bytes h. refl;
  client_btoa_nonempty = λ bytes h. refl;
  rsa = λ bytes. refl;
  rsa_nonempty = λ bytes e. cc;
  aes = λ key iv bytes. refl;
  aes_nonempty = λ key iv bytes e. cc;
  client_aes = λ key iv bytes. refl;
  client_aes_nonempty = λ key iv bytes e. cc;
}

replied :
    (build_encrypted_response backend (success (bool true)) (5 ∷ []) server_state).0
    ≡ Server.Outcome.ok reply_envelope
unfolding build_encrypted_response Server.◌>>=◌
replied = refl

raw-delivered_example :
    (raw replying
      (options false)
      to_json
      (codes "db-proxy")
      (DbRequest.table table_request)
      (record { cached_public_key = some (codes "public"); sent = [] })).0
    ≡ Browser.Result.ok (record { data_ = some (bool true); error = none })
raw-delivered_example =
    raw-delivered replying backend (codes "public") (codes "private") replying-IsRuntime
      (options false) to_json (codes "db-proxy") (DbRequest.table table_request) (bool true) []
      server_state reply_envelope (λ e. cc) refl replied (λ body. refl)

abbrev api : AuthApi
api = record {
  session_of = λ calls access refresh. Browser.ok (some access);
  sign_out_error = λ calls. none;
}

abbrev auth_state : AuthState
auth_state = record {
  browser = record { cached_public_key = some (codes "public"); sent = [] };
  calls = [];
}

-- The device of the replies answers without tokens.
enter-Grew_example :
    ((result : SessionResult) × ((enter api replying
          (options false)
          (codes "auth-proxy")
          (codes "Sign in failed")
          (sign_in_input (codes "ann@example.org") (codes "secret"))
          auth_state).0
        ≡ Browser.Result.ok result))
    × Grew []
        (enter api replying
          (options false)
          (codes "auth-proxy")
          (codes "Sign in failed")
          (sign_in_input (codes "ann@example.org") (codes "secret"))
          auth_state).1.calls
enter-Grew_example =
    enter-Grew api replying (options false) (codes "auth-proxy") (codes "Sign in failed")
      (sign_in_input (codes "ann@example.org") (codes "secret")) auth_state
