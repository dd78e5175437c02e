-- ===== src/Auth/ProcessLock.antt =====
-- packages/core/auth-js/src/lib/locks.ts: `processLock`, for the calls of one name. Every call waits for
-- the promise that the call before it left in `PROCESS_LOCKS`, and leaves one for the call after it.
pub mod Exclusion
pub mod Progress
use securesupabase_js.Prelude.{
  ℕ, zero, suc, ◌+◌, ◌≡◌, Bool, true, false, Option, none, some, List, [], ◌∷◌,
}

-- A call is waiting for the one before it; then it runs `fn`, or has given up; `fn` has ended when
-- its promise is fulfilled or rejected.
pub data Phase : Type 0 where
  waiting running finished timed_out : Phase

-- `acquire_timeout` is `none` for a negative number.
pub record Caller : Type 0 where
  pub acquire_timeout : Option ℕ
  pub phase : Phase

-- The calls of a name, the last one first.
abbrev pub Callers : Type 0
Callers = List Caller

-- Whether the promise that a call leaves is settled, given whether the one before it is: that of a call
-- that has given up waits for the latter.
abbrev pub settled_at : Phase → Bool → Bool
settled_at Phase.waiting earlier = false
settled_at Phase.running earlier = false
settled_at Phase.finished earlier = true
settled_at Phase.timed_out earlier = earlier

-- PROCESS_LOCKS[name]: whether the promise that the last call left there is settled.
unfoldable pub settled : Callers → Bool
settled [] = true
settled (c ∷ older) = let rest = settled older in settled_at c.phase rest

abbrev pub caller : Option ℕ → Phase → Caller
caller acquire_timeout phase = record { acquire_timeout = acquire_timeout; phase = phase }

-- What one call does next.
pub data Step : Callers → Callers → Type 0 where
  -- previousOperationHandled wins the race: `fn` starts
  start :
      (t : Option ℕ) (older : Callers)
      → settled older ≡ true
      → Step (caller t Phase.waiting ∷ older) (caller t Phase.running ∷ older)
  -- the timer wins: the call throws a ProcessLockAcquireTimeoutError
  time_out :
      (ms : ℕ) (older : Callers)
      → Step (caller (some ms) Phase.waiting ∷ older) (caller (some ms) Phase.timed_out ∷ older)
  -- `fn` returns or throws
  finish :
      (t : Option ℕ) (older : Callers)
      → Step (caller t Phase.running ∷ older) (caller t Phase.finished ∷ older)
  earlier :
      (c : Caller) (older older' : Callers) → Step older older' → Step (c ∷ older) (c ∷ older')

-- The calls that can come about.
pub data Reachable : Callers → Type 0 where
  initial : Reachable []
  call : (t : Option ℕ) (cs : Callers) → Reachable cs → Reachable (caller t Phase.waiting ∷ cs)
  step : (cs cs' : Callers) → Reachable cs → Step cs cs' → Reachable cs'
