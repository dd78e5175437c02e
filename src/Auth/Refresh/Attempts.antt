-- ===== src/Auth/Refresh/Attempts.antt =====
-- That the loop of `_refreshAccessToken` in packages/core/auth-js/src/GoTrueClient.ts ends.
use securesupabase_js.Prelude.{
  ℕ, zero, suc, ◌+◌, ◌*◌, ◌^◌, ◌≤◌, ◌<◌, ◌≡◌, ◌⊎◌, refl, ap, Bool, true, false, Option, some,
  Bool-cases, inl, inr, arith,
}
use mathlib.Core.Option
use mathlib.Core.Path.{subst}
use securesupabase_js.Js.Json.{Json}
use securesupabase_js.Js.Promise.{Outcome, fulfilled, rejected, error_of, result_of}
use securesupabase_js.Auth.Refresh.{
  goes_on, retry_from, Failure, Server, is_retryable, backoff, answer_of, refresh_access_token,
}

module _ {A E : Type 0} (fn : ℕ → Outcome A E) (again : ℕ → Option E → Option A → Bool) where
  -- The attempts from `from` on up to `last`, which alone does not go on.
  pub record EndsAt (from last : ℕ) : Type 0 where
    pub reached : from ≤ last
    pub stops : goes_on fn again last ≡ false
    pub earlier : (n : ℕ) → from ≤ n → n < last → goes_on fn again n ≡ true

  -- What the loop comes to within its fuel.
  pub record Ends (more_ from : ℕ) : Type 0 where
    pub last : ℕ
    pub bound : last ≤ more_ + from
    pub at : EndsAt from last
    pub result : retry_from fn again (suc more_) from ≡ some (fn last)

  Ends-now : (more_ from : ℕ) → goes_on fn again from ≡ false → Ends more_ from
  unfolding retry_from
  Ends-now more_ from stop = record {
    last = from;
    bound = omega arith;
    at = record {
      reached = omega arith;
      stops = stop;
      earlier = λ n low high. absurd (n-Between n low high);
    };
    result = rw (stop) refl;
  }
    where
      n-Between : (n : ℕ) → from ≤ n → n < from → ⊥
      n-Between n low high = omega arith

  Ends-later :
      (more_ from : ℕ)
      → goes_on fn again from ≡ true
      → Ends more_ (suc from)
      → Ends (suc more_) from
  unfolding retry_from
  Ends-later more_ from goes rest = record {
    last = rest.last;
    bound = let h = rest.bound in omega arith;
    at = record {
      reached = let h = rest.at.reached in omega arith;
      stops = rest.at.stops;
      earlier = λ n low high. by_order n high (n-First n low);
    };
    result = rw (goes) rest.result;
  }
    where
      n-First : (n : ℕ) → from ≤ n → (n ≡ from) ⊎ (suc from ≤ n)
      n-First n low = ground arith

      by_order : (n : ℕ) → n < rest.last → (n ≡ from) ⊎ (suc from ≤ n) → goes_on fn again n ≡ true
      by_order n high (inl e) = rw (e) goes
      by_order n high (inr low) = rest.at.earlier n low high

  retry_from-Ends : (more_ from : ℕ) → goes_on fn again (more_ + from) ≡ false → Ends more_ from
  retry_from-Ends zero from stop =
      Ends-now zero from (subst (λ n. goes_on fn again n ≡ false) zero-more stop)
    where
      zero-more : 0 + from ≡ from
      zero-more = omega arith
  retry_from-Ends (suc more_) from stop = elim (Bool-cases (goes_on fn again from)) [
    | inl goes ↦ Ends-later more_ from goes (
        retry_from-Ends more_ (suc from)
          (subst (λ n. goes_on fn again n ≡ false) (moved more_ from) stop))
    | inr stops ↦ Ends-now (suc more_) from stops
  ]
    where
      moved : (m n : ℕ) → suc m + n ≡ m + suc n
      moved m n = omega arith

module _ (server : Server) where
  -- The clock starts before the first attempt has ended, and a pause takes its time.
  pub record Pauses : Type 0 where
    pub first : server.started_at ≤ server.now_after 0
    pub later : (n : ℕ) → server.now_after n + backoff (suc n) ≤ server.now_after (suc n)

  now_after-bound : Pauses → (n : ℕ) → server.started_at + 200 * 2 ^ n ≤ server.now_after n + 200
  now_after-bound p zero = let h = p.first in omega arith
  now_after-bound p (suc n) = let h = now_after-bound p n in let k = p.later n in omega arith

  stops-seventh : Pauses → goes_on server.request (is_retryable server) 7 ≡ false
  unfolding goes_on is_retryable
  stops-seventh p = at-seventh (server.request 7)
    where
      at-seventh :
          (o : Outcome Json Failure) → is_retryable server 7 (error_of o) (result_of o) ≡ false
      at-seventh (fulfilled a) = refl
      at-seventh (rejected e) = let h = now_after-bound p 7 in ground arith

  -- With pauses that take their time, the loop ends after at most eight requests. What the method
  -- returns or throws is what the last of them came to, and every one before it failed with an error
  -- of the network that is to be tried again.
  pub refresh_access_token-ends :
      Pauses
      → (throw_on_error : Bool)
      → (last : ℕ) × (last ≤ 7)
        × (refresh_access_token server throw_on_error
            ≡ some (answer_of server throw_on_error (server.request last)))
        × EndsAt server.request (is_retryable server) 0 last
  unfolding refresh_access_token
  refresh_access_token-ends pauses throw_on_error =
      let ends = retry_from-Ends server.request (is_retryable server) 7 0 (stops-seventh pauses) in
      (
        ends.last,
        ends.bound,
        ap (Option.map (answer_of server throw_on_error)) ends.result,
        ends.at,
      )
