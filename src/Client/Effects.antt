-- ===== src/Client/Effects.antt =====
-- The client's asynchronous methods as actions on its state: they return a value or throw.
pub mod Keeps
use securesupabase_js.Prelude.{ℕ, Bool, Option, List, ◌∷◌}
use securesupabase_js.Js.Text.{Str}
use securesupabase_js.Js.Json.{Json}

-- A message that `functions.invoke` sends: the function's name and the body.
pub record Sent : Type 0 where
  pub function : Str
  pub body : Json

-- `{ data, error }` of `functions.invoke`; an error may have no message.
pub data FunctionResult : Type 0 where
  delivered : Json → FunctionResult
  failed : Option Str → FunctionResult

pub data Result (A : Type 0) : Type 0 where
  ok : A → Result A
  threw : Str → Result A

-- The browser or process that the client runs in, and the functions that it calls. What an answer
-- depends on besides the call is a function of what was sent before.
pub record Device : Type 0 where
  pub has_web_crypto : Bool
  pub to_lower : Str → Str
  pub to_string : Json → Str
  pub stringify : Json → List ℕ
  pub parse_json : List ℕ → Option Json
  pub atob : Str → Option (List ℕ)
  pub btoa : List ℕ → Str
  -- `importKey('spki', …)` rejects with a message where the bytes are no key
  pub import_spki : List ℕ → Result (List ℕ)
  pub rsa_encrypt : (key plaintext : List ℕ) → List ℕ
  pub aes_encrypt : (key iv plaintext : List ℕ) → List ℕ
  pub aes_decrypt : (key iv ciphertext : List ℕ) → Option (List ℕ)
  pub random_key : List Sent → List ℕ
  pub random_iv : List Sent → List ℕ
  pub invoke : List Sent → Str → Json → FunctionResult

-- The cached public key of the invoker, and the messages sent so far, the latest first.
pub record State : Type 0 where
  pub cached_public_key : Option (List ℕ)
  pub sent : List Sent

abbrev pub Run : Type 0 → Type 0
Run A = State → Result A × State

module _ {A : Type 0} where
  abbrev pub pure : A → Run A
  pure a s = (ok a, s)

  abbrev pub throw : Str → Run A
  throw message s = (threw message, s)

  abbrev pub lift : Result A → Run A
  lift r s = (r, s)

  abbrev pub observe : (State → A) → Run A
  observe f s = (ok (f s), s)

module _ {A B : Type 0} where
  abbrev pub continue : Result A → (A → Run B) → Run B
  continue (ok a) f s = f a s
  continue (threw message) f s = (threw message, s)

  infixl 5 ◌>>=◌ ◌>>◌
  unfoldable pub ◌>>=◌ : Run A → (A → Run B) → Run B
  ◌>>=◌ m f s = let (r, s') = m s in continue r f s'

  abbrev pub ◌>>◌ : Run A → Run B → Run B
  m >> n = m >>= λ _. n

-- `try { m } catch (error) { handle(error) }`
abbrev pub recover : {A : Type 0} → Result A × State → (Str → Run A) → Result A × State
recover (ok a, s) handle = (ok a, s)
recover (threw message, s) handle = handle message s

unfoldable pub catch : {A : Type 0} → Run A → (Str → Run A) → Run A
catch m handle s = recover (m s) handle

-- `supabase.functions.invoke(name, { body })`
unfoldable pub invoke_function : Device → Str → Json → Run FunctionResult
invoke_function device function body s = (
  ok (device.invoke s.sent function body),
  record s { sent = record { function = function; body = body } ∷ s.sent },
)
