-- ===== src/Auth/Examples.antt =====
-- The theorems on the lock at concrete calls.
use securesupabase_js.Prelude.{
  inl, ℕ, ◌≡◌, ◌≤◌, ◌*◌, ◌^◌, ltb, true, false, arith, if◌then◌else◌, ◌⊎◌, refl, none, some, [],
  ◌∷◌, length, All,
}
use securesupabase_js.Auth.ProcessLock.{
  Phase, Callers, caller, settled, Step, start, time_out, finish, earlier, Reachable, initial, call,
  step,
}
use securesupabase_js.Auth.ProcessLock.Exclusion.{
  IsOver, IsOrdered, running_count, Reachable-IsExclusive,
}
use securesupabase_js.Auth.ProcessLock.Progress.{Steps, done, more, Steps-end}
use securesupabase_js.Js.Text.{codes}
use securesupabase_js.Js.Json.{Json, null, str}
use securesupabase_js.Js.Promise.{Outcome, fulfilled, rejected}
use securesupabase_js.Auth.Refresh.{
  Failure, Server, is_retryable, answer_of, refresh_access_token, retry_from, goes_on, returned,
}
use securesupabase_js.Auth.Refresh.Attempts.{EndsAt, Pauses, refresh_access_token-ends}
use securesupabase_js.Auth.AcquireLock.{
  in_phase, Lock, held, draining, pending_of, Kind, Moves, done,
}
use securesupabase_js.Auth.AcquireLock.Exclusion.{failure-overlaps, late-overlaps}

abbrev at : Phase → Phase → Callers
at second first = caller (some 100) second ∷ caller none first ∷ []

one-starts : Step (caller none Phase.waiting ∷ []) (caller none Phase.running ∷ [])
unfolding settled
one-starts = start none [] refl

-- The second call gives up while the first one runs, and a third one waits.
abbrev calls : Callers
calls = caller none Phase.waiting ∷ at Phase.timed_out Phase.running

calls-Reachable : Reachable calls
calls-Reachable = call none (at Phase.timed_out Phase.running) (
    step (at Phase.waiting Phase.running) (at Phase.timed_out Phase.running)
      (call (some 100) (caller none Phase.running ∷ []) (
        step (caller none Phase.waiting ∷ []) (caller none Phase.running ∷ [])
          (call none [] initial) one-starts))
      (time_out 100 (caller none Phase.running ∷ [])))

Reachable-IsExclusive_example : (running_count calls ≤ 1) × IsOrdered calls
Reachable-IsExclusive_example = Reachable-IsExclusive calls calls-Reachable

two-Steps : Steps 2 (at Phase.waiting Phase.running) (at Phase.running Phase.finished)
unfolding settled
two-Steps =
    more 1 (at Phase.waiting Phase.running) (at Phase.waiting Phase.finished)
      (at Phase.running Phase.finished)
      (earlier (caller (some 100) Phase.waiting) (caller none Phase.running ∷ [])
        (caller none Phase.finished ∷ []) (finish none []))
      (more 0 (at Phase.waiting Phase.finished) (at Phase.running Phase.finished)
        (at Phase.running Phase.finished) (start (some 100) (caller none Phase.finished ∷ []) refl)
        (done (at Phase.running Phase.finished)))

Steps-end_example :
    (2 ≤ 2 * length (at Phase.waiting Phase.running))
    × (((cs : Callers) × Step (at Phase.running Phase.finished) cs)
        ⊎ All IsOver (at Phase.running Phase.finished))
Steps-end_example =
    Steps-end 2 (at Phase.waiting Phase.running) (at Phase.running Phase.finished) two-Steps

abbrev offline : Failure
offline = record { is_auth_error = true; is_retryable_fetch_error = true; error = null }

-- The network comes back for the third attempt.
abbrev request : ℕ → Outcome Json Failure
request n = if ltb n 2 then rejected offline else fulfilled (str (codes "session"))

abbrev server : Server
server = record { request = request; started_at = 0; now_after = λ n. 200 * 2 ^ n }

server-Pauses : Pauses server
server-Pauses = record { first = omega arith; later = λ n. omega arith }

refresh_access_token-ends_example :
    (last : ℕ) × (last ≤ 7)
    × (refresh_access_token server false ≡ some (answer_of server false (server.request last)))
    × EndsAt server.request (is_retryable server) 0 last
refresh_access_token-ends_example = refresh_access_token-ends server server-Pauses false

third-attempt : refresh_access_token server false ≡ some (returned (str (codes "session")))
unfolding refresh_access_token retry_from goes_on is_retryable
third-attempt = refl

-- One call holds the lock, and one waits in the queue.
abbrev waiting_one : Callers
waiting_one = in_phase Phase.waiting ∷ []

failure-overlaps_example :
    (s : Lock) × Moves (Kind.fails ∷ Kind.calm ∷ Kind.calm ∷ []) (held waiting_one []) s
    × (2 ≤ running_count (pending_of s))
failure-overlaps_example = failure-overlaps [] []

late-overlaps_example :
    (s : Lock) × Moves
      (Kind.calm ∷ Kind.calm ∷ Kind.comes_late ∷ Kind.calm ∷ Kind.calm ∷ Kind.calm ∷ [])
      (draining (in_phase Phase.finished ∷ []))
      s
    × (2 ≤ running_count (pending_of s))
late-overlaps_example = late-overlaps (in_phase Phase.finished ∷ []) (inl refl, tt)
