-- ===== src/Auth/ProcessLock/Exclusion.antt =====
-- What `processLock` keeps apart: packages/core/auth-js/src/lib/locks.ts.
use securesupabase_js.Prelude.{
  ℕ, ◌+◌, ◌≤◌, ◌≡◌, ◌⊎◌, inl, inr, refl, Bool, true, [], ◌∷◌, arith, All,
}
use securesupabase_js.Auth.ProcessLock.{
  Phase, Caller, Callers, settled, settled_at, Step, start, time_out, finish, earlier, Reachable,
  initial, call, step,
}

-- No longer waiting for the lock, nor holding it.
abbrev pub IsOver : Caller → Type 0
IsOver c = (c.phase ≡ Phase.finished) ⊎ (c.phase ≡ Phase.timed_out)

abbrev pub Fits : Phase → Callers → Type 0
Fits Phase.waiting older = Unit
Fits Phase.timed_out older = Unit
Fits _ older = All IsOver older

-- A call that runs or has run came after calls that are over.
abbrev pub IsOrdered : Callers → Type 0
IsOrdered [] = Unit
IsOrdered (c ∷ older) = Fits c.phase older × IsOrdered older

settled_at-IsOver :
    (c : Caller) (older : Callers) (rest : Bool)
    → Fits c.phase older
    → (rest ≡ true → All IsOver older)
    → settled_at c.phase rest ≡ true
    → All IsOver (c ∷ older)
settled_at-IsOver c older rest fits over h = by_phase c.phase refl fits h
  where
    by_phase :
        (p : Phase) → c.phase ≡ p → Fits p older → settled_at p rest ≡ true → All IsOver (c ∷ older)
    by_phase Phase.waiting e f s = ground arith
    by_phase Phase.running e f s = ground arith
    by_phase Phase.finished e f s = (inl e, f)
    by_phase Phase.timed_out e f s = (inr e, over s)

settled-IsOver : (cs : Callers) → IsOrdered cs → settled cs ≡ true → All IsOver cs
unfolding settled
settled-IsOver [] o h = tt
settled-IsOver (c ∷ older) (fits, o) h =
    settled_at-IsOver c older (settled older) fits (settled-IsOver older o) h

-- Steps of calls that are over: none.
Step-IsOver : (cs cs' : Callers) → Step cs cs' → All IsOver cs → All IsOver cs'
Step-IsOver _ _ (start t older s) (inl e, h) = cc
Step-IsOver _ _ (start t older s) (inr e, h) = cc
Step-IsOver _ _ (time_out ms older) (inl e, h) = cc
Step-IsOver _ _ (time_out ms older) (inr e, h) = cc
Step-IsOver _ _ (finish t older) (inl e, h) = cc
Step-IsOver _ _ (finish t older) (inr e, h) = cc
Step-IsOver _ _ (earlier c older older' s) (o, h) = (o, Step-IsOver older older' s h)

Fits-Step : (p : Phase) (cs cs' : Callers) → Step cs cs' → Fits p cs → Fits p cs'
Fits-Step Phase.waiting cs cs' s f = tt
Fits-Step Phase.timed_out cs cs' s f = tt
Fits-Step Phase.running cs cs' s f = Step-IsOver cs cs' s f
Fits-Step Phase.finished cs cs' s f = Step-IsOver cs cs' s f

pub IsOrdered-Step : (cs cs' : Callers) → Step cs cs' → IsOrdered cs → IsOrdered cs'
IsOrdered-Step _ _ (start t older s) (f, o) = (settled-IsOver older o s, o)
IsOrdered-Step _ _ (time_out ms older) (f, o) = (tt, o)
IsOrdered-Step _ _ (finish t older) (f, o) = (f, o)
IsOrdered-Step _ _ (earlier c older older' s) (f, o) =
    (Fits-Step c.phase older older' s f, IsOrdered-Step older older' s o)

Reachable-IsOrdered : (cs : Callers) → Reachable cs → IsOrdered cs
Reachable-IsOrdered _ initial = tt
Reachable-IsOrdered _ (call t cs r) = (tt, Reachable-IsOrdered cs r)
Reachable-IsOrdered _ (step cs cs' r s) = IsOrdered-Step cs cs' s (Reachable-IsOrdered cs r)

unfoldable pub holds_lock : Phase → ℕ
holds_lock Phase.running = 1
holds_lock _ = 0

-- How many calls run `fn`.
unfoldable pub running_count : Callers → ℕ
unfolding holds_lock
running_count [] = 0
running_count (c ∷ older) = let rest = running_count older in holds_lock c.phase + rest

running_count-over : (cs : Callers) → All IsOver cs → running_count cs ≡ 0
unfolding running_count holds_lock
running_count-over [] h = refl
running_count-over (c ∷ older) (inl e, h) = rw (e, running_count-over older h) refl
running_count-over (c ∷ older) (inr e, h) = rw (e, running_count-over older h) refl

pub running_count-bound : (cs : Callers) → IsOrdered cs → running_count cs ≤ 1
unfolding running_count holds_lock
running_count-bound [] o = ground arith
running_count-bound (c ∷ older) (fits, o) =
    by_phase c.phase fits (running_count-bound older o) (running_count-over older)
  where
    by_phase :
        (p : Phase)
        → Fits p older
        → running_count older ≤ 1
        → (All IsOver older → running_count older ≡ 0)
        → holds_lock p + running_count older ≤ 1
    by_phase Phase.waiting f h k = ground arith
    by_phase Phase.timed_out f h k = ground arith
    by_phase Phase.running f h k = rw (k f) (ground arith)
    by_phase Phase.finished f h k = ground arith

-- In whatever order calls come, wait, give up, run and end: at most one of them runs `fn`, and `fn`
-- starts in the order of the calls, so that a call that runs or has run comes after calls that have
-- ended or given up.
pub Reachable-IsExclusive : (cs : Callers) → Reachable cs → (running_count cs ≤ 1) × IsOrdered cs
Reachable-IsExclusive cs r =
    (running_count-bound cs (Reachable-IsOrdered cs r), Reachable-IsOrdered cs r)
