-- ===== src/Auth/AcquireLock/Exclusion.antt =====
-- What the queue of `_acquireLock` in packages/core/auth-js/src/GoTrueClient.ts keeps apart.
use securesupabase_js.Prelude.{◌≤◌, ◌≡◌, refl, none, [], ◌∷◌, ◌++◌, All, arith}
use securesupabase_js.Auth.ProcessLock.{Phase, Caller, Callers, settled, Step, start, earlier}
use securesupabase_js.Auth.ProcessLock.Exclusion.{IsOver, IsOrdered, running_count}
use securesupabase_js.Auth.AcquireLock.{
  in_phase, Lock, free, held, draining, leaving, pending_of, Kind, enter, queue_leaving, work_free,
  work_before, fail, drain, leave, release, Moves, done, move,
}

abbrev IsWaiting : Caller → Type 0
IsWaiting c = c.phase ≡ Phase.waiting

-- What calm moves keep.
abbrev IsSound : Lock → Type 0
IsSound (free pending) = pending ≡ []
IsSound (held queued before) = All IsWaiting queued × (before ≡ [])
IsSound (draining pending) = IsOrdered pending
IsSound (leaving pending) = pending ≡ []

abbrev pub IsCalm : Kind → Type 0
IsCalm kind = kind ≡ Kind.calm

-- The queue in which the oldest call is in the phase, and what is below it.
abbrev oldest : Phase → Callers → Callers → Callers
oldest phase queued before = (queued ++ in_phase phase ∷ []) ++ in_phase Phase.finished ∷ before

Step-oldest :
    (queued before : Callers)
    → Step (oldest Phase.waiting queued before) (oldest Phase.running queued before)
unfolding settled
Step-oldest [] before = start none (in_phase Phase.finished ∷ before) refl
Step-oldest (c ∷ queued) before = earlier c _ _ (Step-oldest queued before)

running_count-oldest :
    (queued before : Callers) → 1 ≤ running_count (oldest Phase.running queued before)
unfolding running_count
running_count-oldest [] before = omega arith
running_count-oldest (c ∷ queued) before = let h = running_count-oldest queued before in omega arith

overlap :
    (queued before : Callers)
    → 2 ≤ running_count (pending_of (held [] (oldest Phase.running queued before)))
unfolding pending_of running_count
overlap queued before = let h = running_count-oldest queued before in omega arith

-- If the `fn` that holds the lock fails while a call waits in the queue, the lock is free although the
-- queue is not done: with two calm moves more, the start of the call that waited and the entry of a new
-- one, two run at the same time.
pub failure-overlaps :
    (queued before : Callers)
    → (s : Lock) × Moves
        (Kind.fails ∷ Kind.calm ∷ Kind.calm ∷ [])
        (held (queued ++ in_phase Phase.waiting ∷ []) before)
        s
      × (2 ≤ running_count (pending_of s))
failure-overlaps queued before = (
  held [] (oldest Phase.running queued before),
  move _ _ _ _ _ (fail (queued ++ in_phase Phase.waiting ∷ []) before) (
      move _ _ _ _ _ (work_free _ _ (Step-oldest queued before))
        (move _ _ _ _ _ (enter (oldest Phase.running queued before)) (done _))),
  overlap queued before,
)

Step-alone : Step (in_phase Phase.waiting ∷ []) (in_phase Phase.running ∷ [])
unfolding settled
Step-alone = start none [] refl

two_running : 2 ≤ running_count (pending_of (held [] (in_phase Phase.running ∷ [])))
unfolding pending_of running_count
two_running = omega arith

-- When the whole queue has ended, one call that comes after the loop has found the queue empty and
-- before the lock is free runs at the same time as the next one to enter; every other move is calm.
pub late-overlaps :
    (wait_on : Callers)
    → All IsOver wait_on
    → (s : Lock) × Moves
        (Kind.calm ∷ Kind.calm ∷ Kind.comes_late ∷ Kind.calm ∷ Kind.calm ∷ Kind.calm ∷ [])
        (draining wait_on)
        s
      × (2 ≤ running_count (pending_of s))
late-overlaps wait_on over = (
  held [] (in_phase Phase.running ∷ []),
  move _ _ _ _ _ (drain [] wait_on over) (
      move _ _ _ _ _ leave (
        move _ _ _ _ _ (queue_leaving []) (
          move _ _ _ _ _ (release _)
            (move _ _ _ _ _ (enter _) (move _ _ _ _ _ (work_before [] _ _ Step-alone) (done _)))))),
  two_running,
)
