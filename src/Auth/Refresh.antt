-- ===== src/Auth/Refresh.antt =====
-- packages/core/auth-js/src/lib/helpers.ts, `retryable`, and `_refreshAccessToken` of
-- packages/core/auth-js/src/GoTrueClient.ts, which sends a request again with growing pauses.
-- What the request with each attempt comes to, and the clock when it has, are the platform's.
pub mod Attempts
use securesupabase_js.Prelude.{
  ℕ, zero, suc, ◌+◌, ◌*◌, ◌^◌, ltb, Bool, true, false, ◌&&◌, Option, none, some, if◌then◌else◌,
}
use mathlib.Core.Option
use securesupabase_js.Js.Json.{Json}
use securesupabase_js.Js.Promise.{Outcome, fulfilled, rejected, error_of, result_of}

module _ {A E : Type 0} (fn : ℕ → Outcome A E) (is_retryable : ℕ → Option E → Option A → Bool) where
  -- Whether the loop goes on after an attempt.
  unfoldable pub goes_on : ℕ → Bool
  goes_on attempt = is_retryable attempt (error_of (fn attempt)) (result_of (fn attempt))

  -- The loop from an attempt on; `none` is that the fuel does not suffice.
  unfoldable pub retry_from : (fuel attempt : ℕ) → Option (Outcome A E)
  unfolding goes_on
  retry_from zero attempt = none
  retry_from (suc fuel) attempt =
      let rest = retry_from fuel (suc attempt) in
      if goes_on attempt then rest else some (fn attempt)

-- AuthError: what the client tests of an error that is thrown.
pub record Failure : Type 0 where
  pub is_auth_error : Bool
  pub is_retryable_fetch_error : Bool
  pub error : Json

abbrev pub auto_refresh_tick_duration_ms : ℕ
auto_refresh_tick_duration_ms = 30 * 1000

-- The pause before an attempt.
abbrev pub backoff : ℕ → ℕ
backoff zero = 0
backoff (suc n) = 200 * 2 ^ n

-- The request of each attempt, `Date.now()` at the start and after each attempt.
pub record Server : Type 0 where
  pub request : ℕ → Outcome Json Failure
  pub started_at : ℕ
  pub now_after : ℕ → ℕ

module _ (server : Server) where
  -- A request is sent again if the next pause ends before the next tick.
  unfoldable pub is_retryable : ℕ → Option Failure → Option Json → Bool
  is_retryable attempt none result = false
  is_retryable attempt (some e) result =
      e.is_retryable_fetch_error
      && ltb (server.now_after attempt + 200 * 2 ^ attempt)
          (server.started_at + auto_refresh_tick_duration_ms)

  -- What the method returns, or throws.
  pub data Answer : Type 0 where
    returned : Json → Answer
    returned_error thrown : Failure → Answer

  abbrev pub answer_of : (throw_on_error : Bool) → Outcome Json Failure → Answer
  answer_of throw_on_error (fulfilled response) = returned response
  answer_of throw_on_error (rejected e) =
      if e.is_auth_error then if throw_on_error then thrown e else returned_error e else thrown e

  -- Eight attempts; after each there is a pause that doubles.
  abbrev pub fuel : ℕ
  fuel = 8

  unfoldable pub refresh_access_token : (throw_on_error : Bool) → Option Answer
  refresh_access_token throw_on_error =
      Option.map (answer_of throw_on_error) (retry_from server.request is_retryable fuel 0)
