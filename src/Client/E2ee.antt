-- ===== src/Client/E2ee.antt =====
-- SecureE2EE.ts
pub mod RoundTrip
use securesupabase_js.Prelude.{
  ℕ, Bool, true, false, not, ◌&&◌, ◌||◌, Option, none, some, List, if◌then◌else◌,
}
use securesupabase_js.Js.Text.{Str, codes, str_eq}
use securesupabase_js.Js.Json.{Json, null, bool, num, str, arr, obj, end, field, member}
use securesupabase_js.Edge.E2ee.{algorithm, version, is_truthy, is_truthy_member, is_num, is_str}
use securesupabase_js.Client.Effects.{
  Device, Result, ok, threw, Run, State, pure, throw, lift, observe, ◌>>=◌, ◌>>◌,
}

abbrev pub expect : {A : Type 0} → Option A → Str → Run A
expect none message = throw message
expect (some a) message = pure a

-- getWebCrypto
unfoldable pub get_web_crypto : Device → Run (Unit {0})
get_web_crypto device =
    if device.has_web_crypto then pure tt else throw (codes "WebCrypto is unavailable.")

unfoldable pub import_rsa_public_key_spki : Device → Str → Run (List ℕ)
unfolding get_web_crypto
import_rsa_public_key_spki device public_key_b64 = do
  get_web_crypto device
  bytes ← expect (device.atob public_key_b64) (codes "InvalidCharacterError")
  lift (device.import_spki bytes)

-- { e2ee: { v, alg, key, iv, ciphertext } }
abbrev pub request_envelope : Str → Str → Str → Json
request_envelope key iv ciphertext = obj (
    field (codes "e2ee")
      (obj (
        field (codes "v") (num version) (
          field (codes "alg") (str algorithm) (
            field (codes "key") (str key)
              (field (codes "iv") (str iv) (field (codes "ciphertext") (str ciphertext) end))))))
      end)

-- The envelope of a payload under a fresh AES key, and that key.
unfoldable pub seal : Device → (aes_key iv : List ℕ) → Json → List ℕ → Json
seal device aes_key iv payload server_public_key =
    request_envelope (device.btoa (device.rsa_encrypt server_public_key aes_key)) (device.btoa iv)
      (device.btoa (device.aes_encrypt aes_key iv (device.stringify payload)))

unfoldable pub encrypt_payload : Device → Json → List ℕ → Run (Json × List ℕ)
unfolding get_web_crypto seal
encrypt_payload device payload server_public_key = do
  get_web_crypto device
  aes_key ← observe (λ s. device.random_key s.sent)
  iv ← observe (λ s. device.random_iv s.sent)
  pure (seal device aes_key iv payload server_public_key, aes_key)

abbrev pub encrypted_of : Json → Json
encrypted_of body = elim (member (codes "e2ee") body) [ none ↦ null | some enc ↦ enc ]

abbrev pub text_of : Device → Option Json → Str
text_of device none = codes "undefined"
text_of device (some v) = device.to_string v

unfoldable pub is_response_envelope : Json → Bool
unfolding is_str
is_response_envelope enc =
    is_truthy enc
    && is_num (member (codes "v") enc) version
    && is_str (member (codes "alg") enc) algorithm
    && is_truthy_member (member (codes "iv") enc)
    && is_truthy_member (member (codes "ciphertext") enc)

abbrev pub invalid_response : Str
invalid_response = codes "Invalid encrypted response envelope."

unfoldable pub decrypt_payload : Device → Json → List ℕ → Run Json
unfolding is_response_envelope get_web_crypto
decrypt_payload device body aes_key =
    let enc = encrypted_of body in
    if not (is_response_envelope enc) then throw invalid_response else (do
      get_web_crypto device
      iv ←
          expect (device.atob (text_of device (member (codes "iv") enc)))
            (codes "InvalidCharacterError")
      ciphertext ←
          expect (device.atob (text_of device (member (codes "ciphertext") enc)))
            (codes "InvalidCharacterError")
      plaintext ← expect (device.aes_decrypt aes_key iv ciphertext) (codes "OperationError")
      expect (device.parse_json plaintext) (codes "SyntaxError"))
