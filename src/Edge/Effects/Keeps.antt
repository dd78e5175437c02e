-- ===== src/Edge/Effects/Keeps.antt =====
-- Invariants of actions, with what holds of the value that an action returns.
use securesupabase_js.Prelude.{◌≡◌, refl, Bool, true, false, if◌then◌else◌}
use securesupabase_js.Js.Text.{Str}
use securesupabase_js.Edge.Types.{State, Response}
use securesupabase_js.Edge.Effects.{
  Outcome, ok, answered, threw, Run, pure, answer, throw, continue, ◌>>=◌,
}

abbrev pub Returns : {A : Type 0} → (A → Type 0) → Outcome A → Type 0
Returns Q (ok a) = Q a
Returns Q (answered r) = Unit
Returns Q (threw message) = Unit

-- `m` keeps `P`, however it ends, and a value that it returns satisfies `Q`.
pub record Keeps {A : Type 0} (P : State → Type 0) (Q : A → Type 0) (m : Run A) : Type 0 where
  pub at : (s : State) → P s → P (m s).1 × Returns Q (m s).0

-- From states that satisfy `P`, `m` leads to states that satisfy `P'`.
pub record Takes {A : Type 0} (P P' : State → Type 0) (Q : A → Type 0) (m : Run A) : Type 0 where
  pub at : (s : State) → P s → P' (m s).1 × Returns Q (m s).0

-- nothing is said of the value
abbrev pub Anything : {A : Type 0} → A → Type 0
Anything a = Unit

module _ {P : State → Type 0} where
  pub Keeps-pure : {A : Type 0} {Q : A → Type 0} (a : A) → Q a → Keeps P Q (pure a)
  Keeps-pure a q = record { at = λ s h. (h, q) }

  pub Keeps-answer : {A : Type 0} {Q : A → Type 0} (r : Response) → Keeps P Q (answer r)
  Keeps-answer r = record { at = λ s h. (h, tt) }

  pub Keeps-throw : {A : Type 0} {Q : A → Type 0} (message : Str) → Keeps P Q (throw message)
  Keeps-throw message = record { at = λ s h. (h, tt) }

  pub Keeps-bind :
      {A B : Type 0} {Q : A → Type 0} {R : B → Type 0} (m : Run A) (f : A → Run B)
      → Keeps P Q m
      → ((a : A) → Q a → Keeps P R (f a))
      → Keeps P R (m >>= f)
  unfolding ◌>>=◌
  Keeps-bind {A} {B} {Q} {R} m f km kf = record {
    at = λ s h. continue_keeps (m s).0 (m s).1 (km.at s h).0 (km.at s h).1;
  }
    where
      continue_keeps :
          (r : Outcome A) (s : State)
          → P s
          → Returns Q r
          → P (continue r f s).1 × Returns R (continue r f s).0
      continue_keeps (ok a) s h q = (kf a q).at s h
      continue_keeps (answered r) s h q = (h, tt)
      continue_keeps (threw message) s h q = (h, tt)

  pub Keeps-if :
      {A : Type 0} {Q : A → Type 0} (b : Bool) (m n : Run A)
      → (b ≡ true → Keeps P Q m)
      → (b ≡ false → Keeps P Q n)
      → Keeps P Q (if b then m else n)
  Keeps-if true m n km kn = km refl
  Keeps-if false m n km kn = kn refl

module _ {P P' : State → Type 0} {A B : Type 0} {Q : A → Type 0} {R : B → Type 0} where
  -- the steps before the change
  pub Takes-bind :
      (m : Run A) (f : A → Run B)
      → ((s : State) → P s → P' s)
      → Keeps P Q m
      → ((a : A) → Q a → Takes P P' R (f a))
      → Takes P P' R (m >>= f)
  unfolding ◌>>=◌
  Takes-bind m f wider km kf = record {
    at = λ s h. goes_on (m s).0 (m s).1 (km.at s h).0 (km.at s h).1;
  }
    where
      goes_on :
          (r : Outcome A) (s : State)
          → P s
          → Returns Q r
          → P' (continue r f s).1 × Returns R (continue r f s).0
      goes_on (ok a) s h q = (kf a q).at s h
      goes_on (answered r) s h q = (wider s h, tt)
      goes_on (threw message) s h q = (wider s h, tt)

  -- the change, and the steps after it
  pub Takes-then :
      (m : Run A) (f : A → Run B)
      → Takes P P' Q m
      → ((a : A) → Q a → Keeps P' R (f a))
      → Takes P P' R (m >>= f)
  unfolding ◌>>=◌
  Takes-then m f km kf = record { at = λ s h. goes_on (m s).0 (m s).1 (km.at s h).0 (km.at s h).1 }
    where
      goes_on :
          (r : Outcome A) (s : State)
          → P' s
          → Returns Q r
          → P' (continue r f s).1 × Returns R (continue r f s).0
      goes_on (ok a) s h q = (kf a q).at s h
      goes_on (answered r) s h q = (h, tt)
      goes_on (threw message) s h q = (h, tt)
