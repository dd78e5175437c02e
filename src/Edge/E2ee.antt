-- ===== src/Edge/E2ee.antt =====
-- functions/_shared/e2ee.ts; RSA-OAEP, AES-GCM, base64 and JSON are the runtime's.
use securesupabase_js.Prelude.{
  ℕ, Bool, true, false, not, ◌&&◌, ◌==◌, Option, none, some, List, if◌then◌else◌,
}
use securesupabase_js.Js.Text.{Str, codes, str_eq, nonempty, truthy}
use securesupabase_js.Js.Json.{Json, null, bool, num, str, arr, obj, end, field, member}
use securesupabase_js.Edge.Types.{Backend, Request, drew_iv}
use securesupabase_js.Edge.Effects.{Run, pure, throw, observe, emit, ◌>>=◌, ◌>>◌}

abbrev pub algorithm : Str
algorithm = codes "AES-256-GCM"

abbrev pub version : ℕ
version = 1

-- A call of the runtime that throws where it has no result.
abbrev pub expect : {A : Type 0} → Option A → Str → Run A
expect none message = throw message
expect (some a) message = pure a

-- Boolean(value)
abbrev pub is_truthy : Json → Bool
is_truthy null = false
is_truthy (bool b) = b
is_truthy (num n) = not (n == 0)
is_truthy (str s) = nonempty s
is_truthy _ = true

abbrev pub is_truthy_member : Option Json → Bool
is_truthy_member none = false
is_truthy_member (some v) = is_truthy v

-- value === n, value === s
abbrev pub is_num : Option Json → ℕ → Bool
is_num (some (num n)) m = n == m
is_num _ m = false

unfoldable pub is_str : Option Json → Str → Bool
unfolding str_eq
is_str (some (str s)) t = str_eq s t
is_str _ t = false

abbrev pub text_of : Backend → Option Json → Str
text_of be none = codes "undefined"
text_of be (some v) = be.to_string v

unfoldable pub is_envelope : Json → Bool
unfolding is_str
is_envelope enc =
    is_num (member (codes "v") enc) version
    && is_str (member (codes "alg") enc) algorithm
    && is_truthy_member (member (codes "key") enc)
    && is_truthy_member (member (codes "iv") enc)
    && is_truthy_member (member (codes "ciphertext") enc)

-- getPrivateKeyB64
unfoldable pub get_private_key_b64 : Backend → Run Str
get_private_key_b64 be =
    expect (truthy be.env.e2ee_rsa_private_key_b64) (codes "E2EE private key is not configured")

-- A payload with the AES key of its envelope.
abbrev pub Parsed : Type 0
Parsed = Json × Option (List ℕ)

unfoldable pub decrypt_envelope : Backend → Json → Run Parsed
unfolding get_private_key_b64
decrypt_envelope be enc = do
  private_key ← get_private_key_b64 be
  wrapped ← expect (be.atob (text_of be (member (codes "key") enc))) (codes "InvalidCharacterError")
  aes_key ← expect (be.rsa_decrypt private_key wrapped) (codes "OperationError")
  iv ← expect (be.atob (text_of be (member (codes "iv") enc))) (codes "InvalidCharacterError")
  ciphertext ←
      expect (be.atob (text_of be (member (codes "ciphertext") enc)))
        (codes "InvalidCharacterError")
  plaintext ← expect (be.aes_decrypt aes_key iv ciphertext) (codes "OperationError")
  payload ← expect (be.parse_json plaintext) (codes "SyntaxError")
  pure (payload, some aes_key)

-- `req.json().catch(() => null)`
abbrev pub read_body : Request → Json
read_body req = elim req.body [ none ↦ null | some v ↦ v ]

abbrev object_only : Json → Option Json
object_only (arr vs) = some (arr vs)
object_only (obj fields) = some (obj fields)
object_only _ = none

-- The value of `e2ee`, if it is an object.
abbrev pub encrypted_part : Json → Option Json
encrypted_part raw = elim (member (codes "e2ee") raw) [ none ↦ none | some enc ↦ object_only enc ]

unfoldable pub parse_payload : Backend → Json → Option Json → Run Parsed
unfolding is_envelope decrypt_envelope
parse_payload be raw none = pure (raw, none)
parse_payload be raw (some enc) =
    if not (is_envelope enc)
    then throw (codes "Invalid encrypted payload envelope")
    else decrypt_envelope be enc

unfoldable pub parse_maybe_encrypted_request : Backend → Request → Run Parsed
unfolding parse_payload
parse_maybe_encrypted_request be req =
    if not (is_truthy (read_body req))
    then throw (codes "Request body is required")
    else parse_payload be (read_body req) (encrypted_part (read_body req))

-- { e2ee: { v, alg, iv, ciphertext } }
abbrev pub response_envelope : Str → Str → Json
response_envelope iv ciphertext = obj (
    field (codes "e2ee")
      (obj (
        field (codes "v") (num version) (
          field (codes "alg") (str algorithm)
            (field (codes "iv") (str iv) (field (codes "ciphertext") (str ciphertext) end)))))
      end)

unfoldable pub build_encrypted_response : Backend → Json → List ℕ → Run Json
build_encrypted_response be body aes_key = do
  iv ← observe be.random_iv
  emit drew_iv
  pure (response_envelope (be.btoa iv) (be.btoa (be.aes_encrypt aes_key iv (be.stringify body))))
