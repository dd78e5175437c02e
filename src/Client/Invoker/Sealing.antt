-- ===== src/Client/Invoker/Sealing.antt =====
-- What the invoker sends in the clear.
use securesupabase_js.Prelude.{
  ◌≡◌, ◌⊎◌, inl, inr, refl, true, false, not, Option, none, some, List, [], ◌∷◌, ℕ, All,
}
use securesupabase_js.Js.Text.{Str, codes, truthy, or_else}
use securesupabase_js.Js.Json.{Json, obj, end, member}
use securesupabase_js.Client.Effects.{
  Device, Sent, State, Result, ok, threw, FunctionResult, delivered, failed, lift, observe, catch,
  invoke_function, ◌>>=◌,
}
use securesupabase_js.Client.Effects.Keeps.{
  Keeps, Anything, Keeps-pure, Keeps-throw, Keeps-if, Keeps-catch, Keeps-bind,
}
use securesupabase_js.Client.E2ee.{
  expect, get_web_crypto, import_rsa_public_key_spki, encrypt_payload, decrypt_payload, seal,
  encrypted_of, is_response_envelope, invalid_response, text_of,
}
use securesupabase_js.Client.Invoker.{
  Options, invoke, invoke_encrypted, plain_fallback, get_public_key, cached_or_load, load_key,
  import_and_cache, cache_key, require_key, key_of, function_data, is_e2ee_setup_error,
}

module _ (device : Device) (options : Options) (function_name : Str) (payload : Json) where
  -- A message to the function holds the payload sealed under some AES key.
  pub record IsRequest (sent : Sent) : Type 0 where
    pub aes_key : List ℕ
    pub iv : List ℕ
    pub public_key : List ℕ
    pub addressed : sent.function ≡ function_name
    pub sealed : sent.body ≡ seal device aes_key iv payload public_key

  -- A message that asks for the public key goes to the function of the keys, with an empty body.
  pub record IsKeyRequest (sent : Sent) : Type 0 where
    pub addressed :
        sent.function ≡ or_else options.public_key_function_name (codes "e2ee-public-key")
    pub empty : sent.body ≡ obj end

  abbrev pub IsSealed : Sent → Type 0
  IsSealed sent = IsRequest sent ⊎ IsKeyRequest sent

  abbrev pub AllSealed : State → Type 0
  AllSealed s = All IsSealed s.sent

  Keeps-invoke_function :
      (function : Str) (body : Json)
      → IsSealed (record { function = function; body = body })
      → Keeps AllSealed Anything (invoke_function device function body)
  unfolding invoke_function
  Keeps-invoke_function function body sealed = record { holds = λ s h. ((sealed, h), tt) }

  Keeps-lift : {A : Type 0} (r : Result A) → Keeps AllSealed Anything (lift r)
  Keeps-lift (ok a) = Keeps-pure a tt
  Keeps-lift (threw message) = Keeps-throw message

  Keeps-observe : {A : Type 0} (f : State → A) → Keeps AllSealed Anything (observe f)
  Keeps-observe f = record { holds = λ s h. (h, tt) }

  Keeps-expect :
      {A : Type 0} (o : Option A) (message : Str) → Keeps AllSealed Anything (expect o message)
  Keeps-expect none message = Keeps-throw message
  Keeps-expect (some a) message = Keeps-pure a tt

  Keeps-web_crypto : Keeps AllSealed Anything (get_web_crypto device)
  unfolding get_web_crypto
  Keeps-web_crypto = Keeps-if device.has_web_crypto _ _ (λ _. Keeps-pure tt tt) (λ _. Keeps-throw _)

  Keeps-import : (key_b64 : Str) → Keeps AllSealed Anything (import_and_cache device key_b64)
  unfolding import_and_cache import_rsa_public_key_spki cache_key
  Keeps-import key_b64 =
      Keeps-bind {Q = Anything} _ _
        (Keeps-bind _ _ Keeps-web_crypto (λ _ _.
          Keeps-bind _ _ (Keeps-expect (device.atob key_b64) _)
            (λ bytes _. Keeps-lift (device.import_spki bytes))))
        (λ key _. record { holds = λ s h. (h, tt) })

  Keeps-function_data :
      (message : Str) (r : FunctionResult) → Keeps AllSealed Anything (function_data message r)
  Keeps-function_data message (delivered body) = Keeps-pure body tt
  Keeps-function_data message (failed m) = Keeps-throw _

  Keeps-require_key : (key : Option Str) → Keeps AllSealed Anything (require_key key)
  Keeps-require_key none = Keeps-throw _
  Keeps-require_key (some key) = Keeps-pure key tt

  Keeps-load_key :
      (initial : Option Str) → Keeps AllSealed Anything (load_key device options initial)
  unfolding load_key
  Keeps-load_key (some initial) = Keeps-import initial
  Keeps-load_key none =
      Keeps-bind _ _
        (Keeps-invoke_function _ (obj end) (inr (record { addressed = refl; empty = refl })))
        λ result _. Keeps-bind _ _ (Keeps-function_data _ result) λ body _.
          Keeps-bind _ _ (Keeps-require_key (key_of body)) λ key_b64 _. Keeps-import key_b64

  Keeps-cached_or_load :
      (cached : Option (List ℕ)) → Keeps AllSealed Anything (cached_or_load device options cached)
  unfolding cached_or_load
  Keeps-cached_or_load (some key) = Keeps-pure key tt
  Keeps-cached_or_load none = Keeps-load_key (truthy options.initial_public_key_b64)

  Keeps-encrypt :
      (public_key : List ℕ)
      → Keeps AllSealed
          (λ sealed.
            (aes_key : List ℕ) × (iv : List ℕ) × (sealed.0
              ≡ seal device aes_key iv payload public_key))
          (encrypt_payload device payload public_key)
  unfolding encrypt_payload
  Keeps-encrypt public_key = Keeps-bind _ _ Keeps-web_crypto λ _ _.
      Keeps-bind _ _ (Keeps-observe (λ s. device.random_key s.sent)) λ aes_key _.
        Keeps-bind _ _ (Keeps-observe (λ s. device.random_iv s.sent))
          λ iv _. Keeps-pure _ (aes_key, iv, refl)

  Keeps-decrypt :
      (body : Json) (aes_key : List ℕ)
      → Keeps AllSealed Anything (decrypt_payload device body aes_key)
  unfolding decrypt_payload
  Keeps-decrypt body aes_key =
      let enc = encrypted_of body in
      Keeps-if (not (is_response_envelope enc)) _ _ (λ _. Keeps-throw _)
        λ _. Keeps-bind _ _ Keeps-web_crypto λ _ _.
          Keeps-bind _ _ (Keeps-expect (device.atob (text_of device (member (codes "iv") enc))) _)
            λ iv _.
              Keeps-bind _ _
                (Keeps-expect (device.atob (text_of device (member (codes "ciphertext") enc))) _)
                λ ciphertext _.
                  Keeps-bind _ _ (Keeps-expect (device.aes_decrypt aes_key iv ciphertext) _)
                    λ plaintext _. Keeps-expect (device.parse_json plaintext) _

  Keeps-invoke_encrypted :
      Keeps AllSealed Anything (invoke_encrypted device options function_name payload)
  unfolding invoke_encrypted get_public_key
  Keeps-invoke_encrypted =
      Keeps-bind {Q = Anything} _ _
        (Keeps-bind _ _ (Keeps-observe (λ s. s.cached_public_key))
          (λ cached _. Keeps-cached_or_load cached))
        λ public_key _. Keeps-bind _ _ (Keeps-encrypt public_key) λ sealed (aes_key, iv, same).
          Keeps-bind _ _
            (Keeps-invoke_function function_name sealed.0 (
              inl (record {
                aes_key = aes_key;
                iv = iv;
                public_key = public_key;
                addressed = refl;
                sealed = same;
              })))
            λ result _.
              Keeps-bind _ _ (Keeps-function_data _ result)
                λ answer _. Keeps-decrypt answer sealed.1

  -- Without the plain fallback, whatever the functions answer and however the call ends, every
  -- message that the call sends goes to the function with the payload sealed under an AES key, or to
  -- the function of the public key with an empty body.
  pub invoke-AllSealed :
      (cached : Option (List ℕ))
      → or_else options.allow_plain_fallback false ≡ false
      → AllSealed
          (invoke device options function_name payload
            (record { cached_public_key = cached; sent = [] })).1
  unfolding invoke plain_fallback
  invoke-AllSealed cached off =
      ((Keeps-catch {Q = Anything} _ _ Keeps-invoke_encrypted
          (λ message. rw off (Keeps-throw message))).holds
        _ tt).0

-- With the plain fallback, WebCrypto and a cached key, a function that answers every call with the
-- same reply in the clear gets the request twice, sealed and then unsealed, and that reply is the
-- result; lower case is that of ASCII on the error's text.
pub invoke-resends :
    (device : Device) (options : Options) (function_name : Str) (payload answer : Json)
    (key : List ℕ) (sent : List Sent)
    → options.allow_plain_fallback ≡ some true
    → device.has_web_crypto ≡ true
    → device.to_lower invalid_response ≡ codes "invalid encrypted response envelope."
    → is_response_envelope (encrypted_of answer) ≡ false
    → ((t : List Sent) (body : Json) → device.invoke t function_name body ≡ delivered answer)
    → invoke device options function_name payload
        (record { cached_public_key = some key; sent = sent })
      ≡ (
        ok answer,
        record {
          cached_public_key = some key;
          sent =
              record { function = function_name; body = payload }
              ∷ record {
                function = function_name;
                body = seal device (device.random_key sent) (device.random_iv sent) payload key;
              }
              ∷ sent;
        },
      )
unfolding invoke invoke_encrypted plain_fallback get_public_key cached_or_load encrypt_payload
    get_web_crypto invoke_function decrypt_payload is_e2ee_setup_error catch ◌>>=◌
invoke-resends device options function_name payload answer key sent allowed crypto lower clear
      answers =
    rw (allowed, crypto, answers, clear, lower, answers)
