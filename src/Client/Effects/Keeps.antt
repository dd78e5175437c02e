-- ===== src/Client/Effects/Keeps.antt =====
-- Invariants of the client's actions, with what holds of the value that an action returns.
use securesupabase_js.Prelude.{◌≡◌, refl, Bool, true, false, if◌then◌else◌}
use securesupabase_js.Js.Text.{Str}
use securesupabase_js.Client.Effects.{
  State, Result, ok, threw, Run, pure, throw, continue, recover, catch, ◌>>=◌,
}

abbrev pub Returns : {A : Type 0} → (A → Type 0) → Result A → Type 0
Returns Q (ok a) = Q a
Returns Q (threw message) = Unit

pub record Keeps {A : Type 0} (P : State → Type 0) (Q : A → Type 0) (m : Run A) : Type 0 where
  pub holds : (s : State) → P s → P (m s).1 × Returns Q (m s).0

abbrev pub Anything : {A : Type 0} → A → Type 0
Anything a = Unit

module _ {P : State → Type 0} {A : Type 0} {Q : A → Type 0} where
  pub Keeps-pure : (a : A) → Q a → Keeps P Q (pure a)
  Keeps-pure a q = record { holds = λ s h. (h, q) }

  pub Keeps-throw : (message : Str) → Keeps P Q (throw message)
  Keeps-throw message = record { holds = λ s h. (h, tt) }

  pub Keeps-if :
      (b : Bool) (m n : Run A)
      → (b ≡ true → Keeps P Q m)
      → (b ≡ false → Keeps P Q n)
      → Keeps P Q (if b then m else n)
  Keeps-if true m n km kn = km refl
  Keeps-if false m n km kn = kn refl

  -- a handler that itself keeps `P`
  pub Keeps-catch :
      (m : Run A) (handle : Str → Run A)
      → Keeps P Q m
      → ((message : Str) → Keeps P Q (handle message))
      → Keeps P Q (catch m handle)
  unfolding catch
  Keeps-catch m handle km kh = record {
    holds = λ s h. recovered (m s).0 (m s).1 (km.holds s h).0 (km.holds s h).1;
  }
    where
      recovered :
          (r : Result A) (s : State)
          → P s
          → Returns Q r
          → P (recover (r, s) handle).1 × Returns Q (recover (r, s) handle).0
      recovered (ok a) s h q = (h, q)
      recovered (threw message) s h q = (kh message).holds s h

pub Keeps-bind :
    {P : State → Type 0} {A B : Type 0} {Q : A → Type 0} {R : B → Type 0} (m : Run A)
    (f : A → Run B)
    → Keeps P Q m
    → ((a : A) → Q a → Keeps P R (f a))
    → Keeps P R (m >>= f)
unfolding ◌>>=◌
Keeps-bind {P} {A} {B} {Q} {R} m f km kf = record {
  holds = λ s h. continued (m s).0 (m s).1 (km.holds s h).0 (km.holds s h).1;
}
  where
    continued :
        (r : Result A) (s : State)
        → P s
        → Returns Q r
        → P (continue r f s).1 × Returns R (continue r f s).0
    continued (ok a) s h q = (kf a q).holds s h
    continued (threw message) s h q = (h, tt)
