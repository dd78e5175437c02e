-- ===== src/Auth/AcquireLock.antt =====
-- `_acquireLock` of packages/core/auth-js/src/GoTrueClient.ts: the first call takes the client's lock, and
-- calls that come while it is held wait in `pendingInLock`, each for the one before it. An entry of
-- `pendingInLock` is settled when its call has ended, by a result or an error.
pub mod Exclusion
use securesupabase_js.Prelude.{ℕ, zero, suc, Bool, true, false, none, List, [], ◌∷◌, ◌++◌, All}
use securesupabase_js.Auth.ProcessLock.{Phase, Caller, Callers, caller, Step}
use securesupabase_js.Auth.ProcessLock.Exclusion.{IsOver}

abbrev pub in_phase : Phase → Caller
in_phase phase = caller none phase

-- Whether the lock is held, and `pendingInLock`, the last entry first. While the holder's `fn` runs, its
-- entry stands between those that came after it and those before.
pub data Lock : Type 0 where
  -- lockAcquired is false
  free : (pending : Callers) → Lock
  held : (queued before : Callers) → Lock
  -- the holder's `fn` has a result, and the queue is drained
  draining : (pending : Callers) → Lock
  -- the loop has found the queue empty, but `return await result` has not come to `finally` yet
  leaving : (pending : Callers) → Lock

unfoldable pub pending_of : Lock → Callers
pending_of (free pending) = pending
pending_of (held queued before) = queued ++ in_phase Phase.running ∷ before
pending_of (draining pending) = pending
pending_of (leaving pending) = pending

abbrev waiting_calls : ℕ → Callers
waiting_calls zero = []
waiting_calls (suc n) = in_phase Phase.waiting ∷ waiting_calls n

-- What a move is: that of a holder whose `fn` fails, or that calls for the lock before it gives up
-- control, or of a call that comes while the holder leaves; every other is calm.
pub data Kind : Type 0 where
  calm fails calls_at_once comes_late : Kind

-- A call that waits starts when the one before it in the queue has ended: the steps of ProcessLock, for
-- calls without a timeout.
pub data Move : Kind → Lock → Lock → Type 0 where
  enter : (before : Callers) → Move Kind.calm (free before) (held [] before)
  -- `fn` calls for the lock before it gives up control, so before its own entry is there
  enter_calling :
      (n : ℕ) (before : Callers)
      → Move Kind.calls_at_once (free before) (held [] (waiting_calls (suc n) ++ before))
  queue_held :
      (queued before : Callers)
      → Move Kind.calm (held queued before) (held (in_phase Phase.waiting ∷ queued) before)
  queue_draining :
      (pending : Callers)
      → Move Kind.calm (draining pending) (draining (in_phase Phase.waiting ∷ pending))
  queue_leaving :
      (pending : Callers)
      → Move Kind.comes_late (leaving pending) (leaving (in_phase Phase.waiting ∷ pending))
  work_free :
      (pending pending' : Callers)
      → Step pending pending'
      → Move Kind.calm (free pending) (free pending')
  work_before :
      (queued before before' : Callers)
      → Step before before'
      → Move Kind.calm (held queued before) (held queued before')
  work_draining :
      (pending pending' : Callers)
      → Step pending pending'
      → Move Kind.calm (draining pending) (draining pending')
  work_leaving :
      (pending pending' : Callers)
      → Step pending pending'
      → Move Kind.calm (leaving pending) (leaving pending')
  -- `await result` gives a value
  succeed :
      (queued before : Callers)
      → Move Kind.calm (held queued before) (draining (queued ++ in_phase Phase.finished ∷ before))
  -- `await result` throws: `finally` frees the lock, and the queue stays as it is
  fail :
      (queued before : Callers)
      → Move Kind.fails (held queued before) (free (queued ++ in_phase Phase.finished ∷ before))
  -- a round of the loop: `pendingInLock.splice(0, waitOn.length)` when all of waitOn have ended
  drain :
      (later wait_on : Callers)
      → All IsOver wait_on
      → Move Kind.calm (draining (later ++ wait_on)) (draining later)
  -- the loop ends, and `return await result` gives up control once more
  leave : Move Kind.calm (draining []) (leaving [])
  -- `finally` after that: the lock is free, and the queue stays as it is
  release : (pending : Callers) → Move Kind.calm (leaving pending) (free pending)

-- The moves, by their kinds.
pub data Moves : List Kind → Lock → Lock → Type 0 where
  done : (lock : Lock) → Moves [] lock lock
  move :
      (kind : Kind) (kinds : List Kind) (s t u : Lock)
      → Move kind s t
      → Moves kinds t u
      → Moves (kind ∷ kinds) s u
