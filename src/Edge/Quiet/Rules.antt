-- ===== src/Edge/Quiet/Rules.antt =====
-- The steps that call neither the user's database client nor the authentication server: they keep
-- every property of the trace that says nothing of other events.
use securesupabase_js.Prelude.{ℕ, ◌≡◌, refl, false, Option, none, some, List, ◌∷◌}
use securesupabase_js.Js.Text.{Str}
use securesupabase_js.Js.Json.{Json}
use securesupabase_js.Edge.Types.{
  Backend, Request, Response, State, Event, Trace, Reply, value, rejects, logged, queried, fetched,
}
use securesupabase_js.Edge.Effects.{
  Outcome, ok, answered, threw, Run, pure, observe, await, emit, or_do,
}
use securesupabase_js.Edge.Effects.Keeps.{
  Returns, Keeps, Takes, Anything, Keeps-pure, Keeps-answer, Keeps-throw, Keeps-bind, Keeps-if,
}
use securesupabase_js.Edge.E2ee.{expect}
use securesupabase_js.Edge.Security.{log_security_context, parse_bool, get_device_context}
use securesupabase_js.Edge.Gate.{refuse, stop_if, stop_if_limited}

-- Every event but a query of the user's client and a request to the authentication server.
abbrev pub IsQuiet : Event → Type 0
IsQuiet (queried client plan) = ⊥
IsQuiet (fetched request) = ⊥
IsQuiet _ = Unit

-- The state when the event has happened.
abbrev pub after : Event → State → State
after e s = record s { trace = e ∷ s.trace }

-- The value came from a run of the action.
abbrev pub CameFrom : {A : Type 0} → Run A → A → Type 0
CameFrom m a = (s : State) × ((m s).0 ≡ ok a)

-- The value came from a run of the action in a state of the kind that `P` says.
abbrev pub CameIn : {A : Type 0} → (State → Type 0) → Run A → A → Type 0
CameIn P m a = (s : State) × P s × ((m s).0 ≡ ok a)

pub Keeps-ran :
    {A : Type 0} {P : State → Type 0} (m : Run A) → Keeps P Anything m → Keeps P (CameFrom m) m
Keeps-ran {A} {P} m k = record { at = λ s h. ((k.at s h).0, came s (m s).0 refl) }
  where
    came : (s : State) (r : Outcome A) → (m s).0 ≡ r → Returns (CameFrom m) r
    came s (ok a) e = (s, e)
    came s (answered r) e = tt
    came s (threw message) e = tt

-- A step from states of one kind to states of a wider kind; `K` is what is kept of the first kind.
pub Takes-ran :
    {A : Type 0} {P P' K : State → Type 0} (m : Run A)
    → ((s : State) → P s → P' s)
    → ((s : State) → P s → K s)
    → Keeps P' Anything m
    → Takes P P' (CameIn K m) m
Takes-ran {A} {P} {P'} {K} m wider kind k = record {
  at = λ s h. ((k.at s (wider s h)).0, came s (kind s h) (m s).0 refl);
}
  where
    came : (s : State) → K s → (r : Outcome A) → (m s).0 ≡ r → Returns (CameIn K m) r
    came s h (ok a) e = (s, h, e)
    came s h (answered r) e = tt
    came s h (threw message) e = tt

module _ (Inv : State → Type 0)
    (quiet : (s : State) (e : Event) → IsQuiet e → Inv s → Inv (after e s)) where
  pub Keeps-emit :
      (e : Event) → ((s : State) → Inv s → Inv (after e s)) → Keeps Inv Anything (emit e)
  Keeps-emit e g = record { at = λ s h. (g s h, tt) }

  pub Keeps-await :
      {A : Type 0} (e : Event) (reply : Trace → Reply A)
      → ((s : State) → Inv s → Inv (after e s))
      → Keeps Inv (λ a. (t : Trace) × (reply t ≡ value a)) (await e reply)
  unfolding await
  Keeps-await {A} e reply g = record { at = λ s h. (g s h, settled s (reply s.trace) refl) }
    where
      settled :
          (s : State) (r : Reply A)
          → reply s.trace ≡ r
          → Returns (λ a. (t : Trace) × (reply t ≡ value a)) (await e reply s).0
      settled s (value a) eq_ = rw eq_ (s.trace, eq_)
      settled s (rejects message) eq_ = rw eq_ tt

  pub Keeps-observe : {A : Type 0} (f : Trace → A) → Keeps Inv Anything (observe f)
  Keeps-observe f = record { at = λ s h. (h, tt) }

  pub Keeps-expect :
      {A : Type 0} (o : Option A) (message : Str) → Keeps Inv Anything (expect o message)
  Keeps-expect none message = Keeps-throw message
  Keeps-expect (some a) message = Keeps-pure a tt

  -- a step that answers where there is no value
  pub Keeps-or_do :
      {A : Type 0} (o : Option A) (m : Run A)
      → Keeps Inv (λ a. o ≡ some a) m
      → Keeps Inv (λ a. o ≡ some a) (or_do o m)
  Keeps-or_do none m k = k
  Keeps-or_do (some a) m k = Keeps-pure a refl

  pub Keeps-log :
      (be : Backend) (req : Request) (event : Str) (extra : List (Str × Json))
      → Keeps Inv Anything (log_security_context be req event extra)
  unfolding log_security_context
  Keeps-log be req event extra =
      Keeps-if (parse_bool be be.env.security_log_device_context false)
        (emit (logged event (get_device_context be req) extra)) (pure tt)
        (λ _.
          Keeps-emit (logged event (get_device_context be req) extra)
            (λ s. quiet s (logged event (get_device_context be req) extra) tt))
        (λ _. Keeps-pure tt tt)

  pub Keeps-refuse :
      {A : Type 0} {Q : A → Type 0} (be : Backend) (req : Request) (event : Str)
      (extra : List (Str × Json)) (response : Response)
      → Keeps Inv Q (refuse be req event extra response)
  unfolding refuse
  Keeps-refuse be req event extra response =
      Keeps-bind _ _ (Keeps-log be req event extra) (λ _ _. Keeps-answer response)

  pub Keeps-stop_if :
      (be : Backend) (req : Request) (event : Str) (extra : List (Str × Json)) (o : Option Response)
      → Keeps Inv (λ _. o ≡ none) (stop_if be req event extra o)
  unfolding stop_if
  Keeps-stop_if be req event extra none = Keeps-pure tt refl
  Keeps-stop_if be req event extra (some response) = Keeps-refuse be req event extra response

  pub Keeps-stop_if_limited :
      (be : Backend) (req : Request) (event : Str) (extra : List (Str × Json)) (o : Option ℕ)
      → Keeps Inv (λ _. o ≡ none) (stop_if_limited be req event extra o)
  unfolding stop_if_limited
  Keeps-stop_if_limited be req event extra none = Keeps-pure tt refl
  Keeps-stop_if_limited be req event extra (some wait) = Keeps-refuse be req event _ _
