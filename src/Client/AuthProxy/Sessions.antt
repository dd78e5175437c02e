-- ===== src/Client/AuthProxy/Sessions.antt =====
-- Which sessions the secure authentication client sets.
use securesupabase_js.Prelude.{
  ◌≡◌, ◌⊎◌, ◌∙◌, inl, inr, refl, sym, Bool, true, false, Option, none, some, List, ◌∷◌,
  if◌then◌else◌, Bool-cases,
}
use mathlib.Core.Path.{subst}
use securesupabase_js.Js.Text.{Str}
use securesupabase_js.Js.Json.{Json, null, bool, num, other_num, str, arr, obj}
use securesupabase_js.Edge.E2ee.{is_truthy, is_truthy_member}
use securesupabase_js.Client.Effects.{Device, Result, ok, threw}
use securesupabase_js.Client.Invoker.{Options}
use securesupabase_js.Client.AuthProxy.{
  AuthApi, AuthCall, session_set, AuthState, Run, continue, ◌>>=◌, pure, recover, attempt, read,
  SessionResult, call, set_tokens, set_if_both, hydrate_session, answered_ok, status_message, enter,
}

-- Either no call was added, or one that sets a session of two tokens that are there.
abbrev pub Grew : List AuthCall → List AuthCall → Type 0
Grew before after =
    (after ≡ before)
    ⊎ ((access : Json) × (refresh : Json) × (after ≡ session_set access refresh ∷ before)
        × (is_truthy access ≡ true)
        × (is_truthy refresh ≡ true))

abbrev Same : {A : Type 0} → Run A → Type 0
Same m = (s : AuthState) → (m s).1.calls ≡ s.calls

abbrev Grows : {A : Type 0} → Run A → Type 0
Grows m = (s : AuthState) → Grew s.calls (m s).1.calls

module _ {A B : Type 0} (m : Run A) (f : A → Run B) where
  Same-bind : Same m → ((a : A) → Same (f a)) → Same (m >>= f)
  unfolding ◌>>=◌
  Same-bind h k s = go s.calls (m s).0 (m s).1 (h s)
    where
      go :
          (before : List AuthCall) (r : Result A) (s' : AuthState)
          → s'.calls ≡ before
          → (continue r f s').1.calls ≡ before
      go before (ok a) s' e = k a s' ∙ e
      go before (threw message) s' e = e

  Grows-bind : Same m → ((a : A) → Grows (f a)) → Grows (m >>= f)
  unfolding ◌>>=◌
  Grows-bind h k s = go s.calls (m s).0 (m s).1 (h s)
    where
      go :
          (before : List AuthCall) (r : Result A) (s' : AuthState)
          → s'.calls ≡ before
          → Grew before (continue r f s').1.calls
      go before (ok a) s' e = subst (λ b. Grew b (f a s').1.calls) e (k a s')
      go before (threw message) s' e = inl e

  Grows-then : Grows m → ((a : A) → Same (f a)) → Grows (m >>= f)
  unfolding ◌>>=◌
  Grows-then h k s = go s.calls (m s).0 (m s).1 (h s)
    where
      go :
          (before : List AuthCall) (r : Result A) (s' : AuthState)
          → Grew before s'.calls
          → Grew before (continue r f s').1.calls
      go before (ok a) s' g = subst (λ after. Grew before after) (sym (k a s')) g
      go before (threw message) s' g = g

Same-read : (name : Str) (v : Option Json) → Same (read name v)
unfolding read
Same-read name none s = refl
Same-read name (some null) s = refl
Same-read name (some (bool b)) s = refl
Same-read name (some (num n)) s = refl
Same-read name (some (other_num t)) s = refl
Same-read name (some (str t)) s = refl
Same-read name (some (arr vs)) s = refl
Same-read name (some (obj fields)) s = refl

module _ (api : AuthApi) (device : Device) (options : Options) (function_name : Str) where
  Same-call : (input : Json) → Same (call api device options function_name input)
  unfolding call
  Same-call input s = refl

  Grows-set_if_both :
      (access refresh : Option Json)
      → Grows (set_if_both api device options function_name access refresh)
  unfolding set_if_both set_tokens
  Grows-set_if_both none refresh s = inl refl
  Grows-set_if_both (some access) none s = inl refl
  Grows-set_if_both (some access) (some refresh) s = elim (Bool-cases (is_truthy access)) [
    | inr missing ↦ rw missing (inl refl)
    | inl first ↦ elim (Bool-cases (is_truthy refresh)) [
      | inr missing ↦ rw (first, missing) (inl refl)
      | inl second ↦ rw (first, second) (inr (access, refresh, refl, first, second))
    ]
  ]

  Grows-hydrate : (result : Json) → Grows (hydrate_session api device options function_name result)
  unfolding hydrate_session
  Grows-hydrate result = Grows-bind _ _ (Same-read _ _) λ data_.
      Grows-bind _ _ (Same-read _ _)
        λ access. Grows-bind _ _ (Same-read _ _) λ refresh. Grows-set_if_both access refresh

  Same-answered_ok :
      (text : Str) (input : Json) → Same (answered_ok api device options function_name text input)
  unfolding answered_ok
  Same-answered_ok text input =
      Same-bind _ _ (Same-call input)
        λ out. Same-bind _ _ (Same-read _ _) λ passed s. checked (is_truthy_member passed) out s
    where
      checked :
          (b : Bool) (out : Json) (s : AuthState)
          → ((if b then pure out else λ s.
                (threw (status_message api device options function_name text out), s))
              s).1.calls
            ≡ s.calls
      checked true out s = refl
      checked false out s = refl

  -- Signing in or up never throws, whatever the proxy answers, and sets at most one session, of two
  -- tokens that are truthy.
  pub enter-Grew :
      (text : Str) (input : Json) (s : AuthState)
      → ((result : SessionResult) × ((enter api device options function_name text input s).0
            ≡ ok result))
        × Grew s.calls (enter api device options function_name text input s).1.calls
  unfolding enter attempt
  enter-Grew text input s = go _ _ (Grows-body s)
    where
      finish : Option Json → Run SessionResult
      finish session = pure (record { session = session; error = none })

      body : Run SessionResult
      body = answered_ok api device options function_name text input >>= λ out.
          hydrate_session api device options function_name out >>= finish

      Grows-body : Grows body
      Grows-body =
          Grows-bind _ _ (Same-answered_ok text input)
            λ out. Grows-then _ _ (Grows-hydrate out) λ session s'. refl

      handled : Str → SessionResult
      handled message = record { session = none; error = some message }

      go :
          (r : Result SessionResult) (s' : AuthState)
          → Grew s.calls s'.calls
          → ((result : SessionResult) × ((recover (r, s') handled).0 ≡ ok result))
            × Grew s.calls (recover (r, s') handled).1.calls
      go (ok result) s' g = ((result, refl), g)
      go (threw message) s' g = ((handled message, refl), g)
