-- ===== src/Edge/Effects.antt =====
-- The handlers as actions on the state: they return a value, answer early, or throw. What was done
-- before a throw stays done.
pub mod Keeps
use securesupabase_js.Prelude.{ℕ, Bool, true, false, Option, none, some, List, ◌∷◌}
use securesupabase_js.Js.Text.{Str}
use securesupabase_js.Edge.Types.{State, Response, Event, Trace, Reply, value, rejects}

pub data Outcome (A : Type 0) : Type 0 where
  ok : A → Outcome A
  answered : Response → Outcome A
  threw : Str → Outcome A

abbrev pub Run : Type 0 → Type 0
Run A = State → Outcome A × State

module _ {A : Type 0} where
  abbrev pub pure : A → Run A
  pure a s = (ok a, s)

  -- `return response` before the end of a handler
  abbrev pub answer : Response → Run A
  answer r s = (answered r, s)

  abbrev pub throw : Str → Run A
  throw message s = (threw message, s)

  -- a value that depends on what has happened so far
  abbrev pub observe : (Trace → A) → Run A
  observe f s = (ok (f s.trace), s)

  -- `await` of a call that is recorded as `event`
  abbrev settle : Reply A → Outcome A
  settle (value a) = ok a
  settle (rejects message) = threw message

  unfoldable pub await : Event → (Trace → Reply A) → Run A
  await event reply s = (settle (reply s.trace), record s { trace = event ∷ s.trace })

-- the value, or what is done where there is none
abbrev pub or_do : {A : Type 0} → Option A → Run A → Run A
or_do none m = m
or_do (some a) m = pure a

-- the first result that is there
unfoldable pub or_run : {A : Type 0} → Option A → Run (Option A) → Run (Option A)
or_run none m = m
or_run (some a) m = pure (some a)

abbrev pub emit : Event → Run (Unit {0})
emit event s = (ok tt, record s { trace = event ∷ s.trace })

module _ {A B : Type 0} where
  abbrev pub continue : Outcome A → (A → Run B) → Run B
  continue (ok a) f s = f a s
  continue (answered r) f s = (answered r, s)
  continue (threw message) f s = (threw message, s)

  infixl 5 ◌>>=◌ ◌>>◌
  unfoldable pub ◌>>=◌ : Run A → (A → Run B) → Run B
  ◌>>=◌ m f s = let (r, s') = m s in continue r f s'

  abbrev pub ◌>>◌ : Run A → Run B → Run B
  m >> n = m >>= λ _. n

-- `try { … } catch { … }` around a handler: the response that goes out, and the final state.
abbrev pub recover : Outcome Response × State → (State → Response × State) → Response × State
recover (ok r, s) handle = (r, s)
recover (answered r, s) handle = (r, s)
recover (threw message, s) handle = handle s

unfoldable pub try_catch : Run Response → (State → Response × State) → State → Response × State
try_catch body handle s = recover (body s) handle
