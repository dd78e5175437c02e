-- ===== src/Postgrest/Response/Ends.antt =====
-- How the steps of `then` in packages/core/postgrest-js/src/PostgrestBuilder.ts may end.
use securesupabase_js.Prelude.{◌≡◌, refl, Bool, true, false, if◌then◌else◌}
use securesupabase_js.Postgrest.Http.{
  FetchError, Attempt, resolves, rejects, await, Result, ok, threw, threw_postgrest_error, ◌>>=◌,
}

-- A value with the property, or an error of the platform; a PostgrestError only if errors are thrown.
abbrev pub EndsAt : {A : Type 0} → Bool → (A → Type 0) → Result A → Type 0
EndsAt throwing P (ok a) = P a
EndsAt throwing P (threw e) = Unit
EndsAt throwing P (threw_postgrest_error e) = throwing ≡ true

pub record Ends {A : Type 0} (throwing : Bool) (P : A → Type 0) (m : Result A) : Type 0 where
  pub holds : EndsAt throwing P m

abbrev pub Anything : {A : Type 0} → A → Type 0
Anything a = Unit

pub Ends-await : {A : Type 0} → (throwing : Bool) (m : Attempt A) → Ends throwing Anything (await m)
Ends-await throwing (resolves a) = record { holds = tt }
Ends-await throwing (rejects e) = record { holds = tt }

module _ {A : Type 0} {P : A → Type 0} (throwing : Bool) where
  pub Ends-ok : (a : A) → P a → Ends throwing P (ok a)
  Ends-ok a h = record { holds = h }

  pub Ends-threw : (e : FetchError) → Ends throwing P (threw e)
  Ends-threw e = record { holds = tt }

  pub Ends-if :
      (c : Bool) (m n : Result A)
      → (c ≡ true → Ends throwing P m)
      → (c ≡ false → Ends throwing P n)
      → Ends throwing P (if c then m else n)
  Ends-if true m n h k = h refl
  Ends-if false m n h k = k refl

  pub Ends-bind :
      {B : Type 0} {Q : B → Type 0} (m : Result A) (f : A → Result B)
      → Ends throwing P m
      → ((a : A) → P a → Ends throwing Q (f a))
      → Ends throwing Q (m >>= f)
  unfolding ◌>>=◌
  Ends-bind (ok a) f h k = k a h.holds
  Ends-bind (threw e) f h k = record { holds = tt }
  Ends-bind (threw_postgrest_error e) f h k = record { holds = h.holds }
