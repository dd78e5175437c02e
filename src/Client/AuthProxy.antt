-- ===== src/Client/AuthProxy.antt =====
-- SecureAuthProxy.ts; `setSession` and `signOut` of the auth client are parameters.
pub mod Sessions
use securesupabase_js.Prelude.{
  Bool, true, false, not, ◌&&◌, Option, none, some, List, [], ◌∷◌, ◌++◌, if◌then◌else◌,
}
use securesupabase_js.Js.Text.{Str, codes}
use securesupabase_js.Js.Json.{Json, null, str, obj, end, field, Fields, member}
use securesupabase_js.Edge.E2ee.{is_truthy, is_truthy_member}
use securesupabase_js.Client.Effects as Browser
use securesupabase_js.Client.Effects.{Device, Result, ok, threw}
use securesupabase_js.Client.E2ee.{text_of}
use securesupabase_js.Client.Invoker.{Options, invoke}

-- The calls of the auth client.
pub data AuthCall : Type 0 where
  session_set : (access refresh : Json) → AuthCall
  signed_out : AuthCall

-- What the auth client answers: `out.data.session ?? null` or a thrown error; the error of a
-- local sign-out.
pub record AuthApi : Type 0 where
  pub session_of : List AuthCall → (access refresh : Json) → Result (Option Json)
  pub sign_out_error : List AuthCall → Option Str

pub record AuthState : Type 0 where
  pub browser : Browser.State
  pub calls : List AuthCall

abbrev pub Run : Type 0 → Type 0
Run A = AuthState → Result A × AuthState

module _ {A B : Type 0} where
  abbrev pub continue : Result A → (A → Run B) → Run B
  continue (ok a) f s = f a s
  continue (threw message) f s = (threw message, s)

  infixl 5 ◌>>=◌ ◌>>◌
  unfoldable pub ◌>>=◌ : Run A → (A → Run B) → Run B
  ◌>>=◌ m f s = let (r, s') = m s in continue r f s'

  abbrev pub ◌>>◌ : Run A → Run B → Run B
  m >> n = m >>= λ _. n

module _ {A : Type 0} where
  abbrev pub pure : A → Run A
  pure a s = (ok a, s)

  abbrev pub recover : Result A × AuthState → (Str → A) → Result A × AuthState
  recover (ok a, s) handle = (ok a, s)
  recover (threw message, s) handle = (ok (handle message), s)

  -- try { m } catch (error) { return handle(error) }
  unfoldable pub attempt : Run A → (Str → A) → Run A
  attempt m handle s = recover (m s) handle

-- value.name, which throws where the value is null or undefined
unfoldable pub read : Str → Option Json → Run (Option Json)
read name none s = (threw (codes "TypeError"), s)
read name (some null) s = (threw (codes "TypeError"), s)
read name (some v) s = (ok (member name v), s)

pub record SessionResult : Type 0 where
  pub session : Option Json
  pub error : Option Str

pub record OkResult : Type 0 where
  pub done : Bool
  pub error : Option Str

abbrev field_if : Str → Option Str → Fields → Fields
field_if name none rest = rest
field_if name (some v) rest = field name (str v) rest

-- The inputs of the four calls; an undefined field does not reach JSON.
abbrev pub sign_in_input : Str → Str → Json
sign_in_input email password = obj (
    field (codes "action") (str (codes "sign_in"))
      (field (codes "email") (str email) (field (codes "password") (str password) end)))

abbrev pub sign_up_input : Str → Str → Option Str → Json
sign_up_input email password display_name = obj (
    field (codes "action") (str (codes "sign_up")) (
      field (codes "email") (str email) (
        field (codes "password") (str password)
          (field_if (codes "display_name") display_name end))))

abbrev pub reset_password_input : Str → Option Str → Json
reset_password_input email redirect_to = obj (
    field (codes "action") (str (codes "reset_password"))
      (field (codes "email") (str email) (field_if (codes "redirect_to") redirect_to end)))

abbrev pub sign_out_input : Json
sign_out_input = obj (field (codes "action") (str (codes "sign_out")) end)

module _ (api : AuthApi) (device : Device) (options : Options) (function_name : Str) where
  -- The invoker's call.
  unfoldable pub call : Json → Run Json
  call input s =
      let (r, browser') = invoke device options function_name input s.browser in
      (r, record s { browser = browser' })

  unfoldable pub set_tokens : (access refresh : Json) → Run (Option Json)
  set_tokens access refresh s = (
    api.session_of s.calls access refresh,
    record s { calls = session_set access refresh ∷ s.calls },
  )

  -- A session is set if both tokens are there and truthy.
  unfoldable pub set_if_both : Option Json → Option Json → Run (Option Json)
  unfolding set_tokens
  set_if_both (some access) (some refresh) =
      if is_truthy access && is_truthy refresh then set_tokens access refresh else pure none
  set_if_both _ _ = pure none

  unfoldable pub hydrate_session : Json → Run (Option Json)
  hydrate_session result = do
    data_ ← read (codes "data") (some result)
    access ← read (codes "access_token") data_
    refresh ← read (codes "refresh_token") data_
    set_if_both access refresh

  -- `${text} (${out.status})`
  abbrev pub status_message : Str → Json → Str
  status_message text out =
      text ++ (codes " (" ++ (text_of device (member (codes "status") out) ++ codes ")"))

  -- The answer of the proxy, if its `ok` is truthy.
  unfoldable pub answered_ok : Str → Json → Run Json
  answered_ok text input = do
    out ← call input
    passed ← read (codes "ok") (some out)
    if is_truthy_member passed then pure out else λ s. (threw (status_message text out), s)

  unfoldable pub enter : Str → Json → Run SessionResult
  enter text input =
      attempt
        (do
          out ← answered_ok text input
          session ← hydrate_session out
          pure (record { session = session; error = none }))
        (λ message. record { session = none; error = some message })

  unfoldable pub sign_in_with_password : (email password : Str) → Run SessionResult
  unfolding enter
  sign_in_with_password email password =
      enter (codes "Sign in failed") (sign_in_input email password)

  unfoldable pub sign_up : (email password : Str) (display_name : Option Str) → Run SessionResult
  unfolding enter
  sign_up email password display_name =
      enter (codes "Sign up failed") (sign_up_input email password display_name)

  unfoldable pub reset_password_for_email : (email : Str) (redirect_to : Option Str) → Run OkResult
  reset_password_for_email email redirect_to =
      attempt
        (do
          answered_ok (codes "Reset password failed") (reset_password_input email redirect_to)
          pure (record { done = true; error = none }))
        (λ message. record { done = false; error = some message })

  abbrev local_result : Option Str → Result OkResult
  local_result none = ok (record { done = true; error = none })
  local_result (some message) = threw message

  -- The local sign-out after that of the proxy.
  unfoldable pub sign_out_locally : Run OkResult
  sign_out_locally s =
      (local_result (api.sign_out_error s.calls), record s { calls = signed_out ∷ s.calls })

  unfoldable pub sign_out : Run OkResult
  sign_out =
      attempt (answered_ok (codes "Sign out failed") sign_out_input >> sign_out_locally)
        (λ message. record { done = false; error = some message })
