-- ===== src/Client/E2ee/RoundTrip.antt =====
-- The client's end-to-end encryption against that of the edge functions, in both directions.
use securesupabase_js.Prelude.{ℕ, ◌≡◌, ◌≢◌, true, some, List, []}
use securesupabase_js.Js.Text.{Str, str_eq, nonempty, truthy}
use securesupabase_js.Js.Json.{Json, str, get}
use securesupabase_js.Edge.Types
use securesupabase_js.Edge.Types.{Backend, Request, drew_iv}
use securesupabase_js.Edge.Effects as Server
use securesupabase_js.Edge.E2ee.{
  decrypt_envelope, parse_maybe_encrypted_request, build_encrypted_response, response_envelope,
}
use securesupabase_js.Client.Effects as Browser
use securesupabase_js.Client.Effects.{Device}
use securesupabase_js.Client.E2ee.{seal, decrypt_payload}

-- What both sides rely on of the runtime: base64, RSA-OAEP and AES-GCM undo themselves, and
-- none of them makes an empty text of a payload.
pub record IsRuntime (device : Device) (be : Backend) (public_key : List ℕ) (private_key_b64 : Str)
    : Type 0 where
  pub has_web_crypto : device.has_web_crypto ≡ true
  pub private_key : truthy be.env.e2ee_rsa_private_key_b64 ≡ some private_key_b64
  pub texts : (s : Str) → be.to_string (str s) ≡ s
  pub client_texts : (s : Str) → device.to_string (str s) ≡ s
  pub atob-btoa : (bytes : List ℕ) → be.atob (device.btoa bytes) ≡ some bytes
  pub client_atob-btoa : (bytes : List ℕ) → device.atob (be.btoa bytes) ≡ some bytes
  pub btoa_nonempty : (bytes : List ℕ) → bytes ≢ [] → nonempty (device.btoa bytes) ≡ true
  pub client_btoa_nonempty : (bytes : List ℕ) → bytes ≢ [] → nonempty (be.btoa bytes) ≡ true
  pub rsa :
      (bytes : List ℕ)
      → be.rsa_decrypt private_key_b64 (device.rsa_encrypt public_key bytes) ≡ some bytes
  pub rsa_nonempty : (bytes : List ℕ) → device.rsa_encrypt public_key bytes ≢ []
  pub aes :
      (key iv bytes : List ℕ) → be.aes_decrypt key iv (device.aes_encrypt key iv bytes) ≡ some bytes
  pub aes_nonempty : (key iv bytes : List ℕ) → device.aes_encrypt key iv bytes ≢ []
  pub client_aes :
      (key iv bytes : List ℕ) → device.aes_decrypt key iv (be.aes_encrypt key iv bytes) ≡ some bytes
  pub client_aes_nonempty : (key iv bytes : List ℕ) → be.aes_encrypt key iv bytes ≢ []

module _ (device : Device) (be : Backend) (public_key : List ℕ) (private_key_b64 : Str)
    (runtime : IsRuntime device be public_key private_key_b64) where
  -- With base64 and ciphers that undo themselves, a payload that survives JSON, sealed by the
  -- client under any AES key and any nonempty iv, is what the edge function reads from the
  -- request's body, with that AES key; the state does not change.
  pub parse-seal :
      (payload : Json) (aes_key iv : List ℕ) (req : Request) (s : Types.State)
      → iv ≢ []
      → be.parse_json (device.stringify payload) ≡ some payload
      → req.body ≡ some (seal device aes_key iv payload public_key)
      → parse_maybe_encrypted_request be req s ≡ (Server.Outcome.ok (payload, some aes_key), s)
  unfolding parse_maybe_encrypted_request decrypt_envelope seal get str_eq Server.◌>>=◌
  parse-seal payload aes_key iv req s filled json sent =
      let key = device.rsa_encrypt public_key aes_key in
      let ciphertext = device.aes_encrypt aes_key iv (device.stringify payload) in
      rw (
        sent,
        runtime.btoa_nonempty key (runtime.rsa_nonempty aes_key),
        runtime.btoa_nonempty iv filled,
        runtime.btoa_nonempty ciphertext (runtime.aes_nonempty aes_key iv _),
        runtime.private_key,
        runtime.texts (device.btoa key),
        runtime.atob-btoa key,
        runtime.rsa aes_key,
        runtime.texts (device.btoa iv),
        runtime.atob-btoa iv,
        runtime.texts (device.btoa ciphertext),
        runtime.atob-btoa ciphertext,
        runtime.aes aes_key iv (device.stringify payload),
        json,
      )

  -- With base64 and ciphers that undo themselves, a body that survives JSON and that the edge
  -- function encrypts under an AES key and a nonempty iv is what the client reads from the
  -- envelope with that key; its state does not change.
  pub decrypt-build :
      (body : Json) (aes_key : List ℕ) (s : Types.State) (c : Browser.State)
      → be.random_iv s.trace ≢ []
      → device.parse_json (be.stringify body) ≡ some body
      → (envelope : Json)
      → (build_encrypted_response be body aes_key s).0 ≡ Server.Outcome.ok envelope
      → decrypt_payload device envelope aes_key c ≡ (Browser.Result.ok body, c)
  unfolding build_encrypted_response decrypt_payload get str_eq Server.◌>>=◌ Browser.◌>>=◌
  decrypt-build body aes_key s c filled json envelope built =
      let iv = be.random_iv s.trace in
      let ciphertext = be.aes_encrypt aes_key iv (be.stringify body) in
      let same : response_envelope (be.btoa iv) (be.btoa ciphertext) ≡ envelope = cc in
      rw (
        ← same,
        runtime.client_btoa_nonempty iv filled,
        runtime.client_btoa_nonempty ciphertext (runtime.client_aes_nonempty aes_key iv _),
        runtime.has_web_crypto,
        runtime.client_texts (be.btoa iv),
        runtime.client_atob-btoa iv,
        runtime.client_texts (be.btoa ciphertext),
        runtime.client_atob-btoa ciphertext,
        runtime.client_aes aes_key iv (be.stringify body),
        json,
      )
