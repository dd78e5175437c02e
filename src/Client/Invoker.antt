-- ===== src/Client/Invoker.antt =====
-- SecureEdgeInvoker.ts
pub mod Sealing
use securesupabase_js.Prelude.{
  ℕ, Bool, true, false, ◌&&◌, ◌||◌, Option, none, some, List, [], ◌∷◌, if◌then◌else◌,
}
use securesupabase_js.Js.Text.{Str, codes, starts_with, truthy, or_else}
use securesupabase_js.Js.Json.{Json, str, obj, end, member}
use securesupabase_js.Client.Effects.{
  Device, Result, FunctionResult, delivered, failed, Run, State, pure, throw, observe, catch,
  invoke_function, ◌>>=◌, ◌>>◌,
}
use securesupabase_js.Client.E2ee.{import_rsa_public_key_spki, encrypt_payload, decrypt_payload}

pub record Options : Type 0 where
  pub public_key_function_name : Option Str
  pub allow_plain_fallback : Option Bool
  pub initial_public_key_b64 : Option Str

-- msg.includes(part)
unfoldable pub includes : Str → Str → Bool
unfolding starts_with
includes [] part = starts_with [] part
includes (c ∷ s) part = starts_with (c ∷ s) part || includes s part

unfoldable pub is_e2ee_setup_error : Device → Str → Bool
unfolding includes
is_e2ee_setup_error device message =
    let msg : Str = device.to_lower message in
    includes msg (codes "keydata")
    || includes msg (codes "webcrypto is unavailable")
    || includes msg (codes "invalid e2ee public key payload")
    || includes msg (codes "invalid encrypted response envelope")

unfoldable pub cache_key : List ℕ → Run (List ℕ)
cache_key key s = (Result.ok key, record s { cached_public_key = some key })

abbrev pub function_data : Str → FunctionResult → Run Json
function_data fallback (delivered body) = pure body
function_data fallback (failed message) = throw (or_else message fallback)

-- `data?.public_key_b64 ?? ''`; the text of a value that is no string is not modelled
abbrev pub key_of : Json → Option Str
key_of body = elim (member (codes "public_key_b64") body) [
  | some v ↦ elim v [ str key ↦ truthy (some key) | _ ↦ none ]
  | none ↦ none
]

-- The text of the key, or the error of a payload without one.
abbrev pub require_key : Option Str → Run Str
require_key none = throw (codes "Invalid E2EE public key payload.")
require_key (some key) = pure key

-- Imports a key and keeps it for the next calls.
unfoldable pub import_and_cache : Device → Str → Run (List ℕ)
import_and_cache device key_b64 = do key ← import_rsa_public_key_spki device key_b64; cache_key key

-- The key that the options give, or the one that the key function answers with.
unfoldable pub load_key : Device → Options → Option Str → Run (List ℕ)
load_key device options (some initial) = import_and_cache device initial
load_key device options none = do
  result ←
      invoke_function device (or_else options.public_key_function_name (codes "e2ee-public-key"))
        (obj end)
  body ← function_data (codes "Unable to load E2EE public key.") result
  key_b64 ← require_key (key_of body)
  import_and_cache device key_b64

unfoldable pub cached_or_load : Device → Options → Option (List ℕ) → Run (List ℕ)
cached_or_load device options (some key) = pure key
cached_or_load device options none = load_key device options (truthy options.initial_public_key_b64)

unfoldable pub get_public_key : Device → Options → Run (List ℕ)
get_public_key device options = do
  cached ← observe (λ s. s.cached_public_key)
  cached_or_load device options cached

-- The body of the `try`.
unfoldable pub invoke_encrypted : Device → Options → Str → Json → Run Json
invoke_encrypted device options function_name body = do
  public_key ← get_public_key device options
  sealed ← encrypt_payload device body public_key
  result ← invoke_function device function_name sealed.0
  answer ← function_data (codes "Edge function failed.") result
  decrypt_payload device answer sealed.1

-- The `catch`: a second call with the plain body, where the options allow it.
unfoldable pub plain_fallback : Device → Options → Str → Json → Str → Run Json
plain_fallback device options function_name body message =
    if or_else options.allow_plain_fallback false && is_e2ee_setup_error device message
    then (do
      result ← invoke_function device function_name body
      function_data (codes "Edge function failed.") result)
    else throw message

unfoldable pub invoke : Device → Options → Str → Json → Run Json
unfolding invoke_encrypted plain_fallback
invoke device options function_name body =
    catch (invoke_encrypted device options function_name body)
      (plain_fallback device options function_name body)
