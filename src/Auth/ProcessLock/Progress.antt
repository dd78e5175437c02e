-- ===== src/Auth/ProcessLock/Progress.antt =====
-- That no call of `processLock` waits for ever: packages/core/auth-js/src/lib/locks.ts.
use securesupabase_js.Prelude.{
  ℕ, suc, ◌+◌, ◌*◌, ◌≤◌, ◌≡◌, ◌⊎◌, ◌∙◌, inl, inr, refl, ap, true, Option, [], ◌∷◌, arith, All,
  length,
}
use securesupabase_js.Auth.ProcessLock.Exclusion.{IsOver}
use securesupabase_js.Auth.ProcessLock.{
  Phase, Callers, settled, settled_at, caller, Step, start, time_out, finish, earlier,
}

work_of : Phase → ℕ
work_of Phase.waiting = 2
work_of Phase.running = 1
work_of _ = 0

-- How many steps the calls have left at most.
pub work : Callers → ℕ
unfolding work_of
work [] = 0
work (c ∷ older) = let rest = work older in work_of c.phase + rest

work-bound : (cs : Callers) → work cs ≤ 2 * length cs
unfolding work work_of
work-bound [] = ground arith
work-bound (c ∷ older) = by_phase c.phase (work-bound older)
  where
    by_phase :
        (p : Phase)
        → work older ≤ 2 * length older
        → work_of p + work older ≤ 2 * suc (length older)
    by_phase Phase.waiting h = ground arith
    by_phase Phase.running h = ground arith
    by_phase Phase.finished h = ground arith
    by_phase Phase.timed_out h = ground arith

-- Steps of calls that have come, without another call.
pub data Steps : ℕ → Callers → Callers → Type 0 where
  done : (cs : Callers) → Steps 0 cs cs
  more : (n : ℕ) (cs cs' cs'' : Callers) → Step cs cs' → Steps n cs' cs'' → Steps (suc n) cs cs''

work-Step : (cs cs' : Callers) → Step cs cs' → suc (work cs') ≤ work cs
unfolding work work_of
work-Step _ _ (start t older s) = ground arith
work-Step _ _ (time_out ms older) = ground arith
work-Step _ _ (finish t older) = ground arith
work-Step _ _ (earlier c older older' s) = let h = work-Step older older' s in ground arith

work-Steps : (n : ℕ) (cs cs' : Callers) → Steps n cs cs' → n + work cs' ≤ work cs
work-Steps _ _ _ (done cs) = ground arith
work-Steps _ _ _ (more n cs cs' cs'' s ss) =
    let h = work-Step cs cs' s in let k = work-Steps n cs' cs'' ss in ground arith

over-settled : (cs : Callers) → All IsOver cs → settled cs ≡ true
unfolding settled
over-settled [] h = refl
over-settled (c ∷ older) (inl e, h) = ap (λ p. settled_at p (settled older)) e
over-settled (c ∷ older) (inr e, h) =
    ap (λ p. settled_at p (settled older)) e ∙ over-settled older h

first-Step :
    (t : Option ℕ) (p : Phase) (older : Callers)
    → All IsOver older
    → ((cs' : Callers) × Step (caller t p ∷ older) cs') ⊎ All IsOver (caller t p ∷ older)
first-Step t Phase.waiting older h =
    inl (caller t Phase.running ∷ older, start t older (over-settled older h))
first-Step t Phase.running older h = inl (caller t Phase.finished ∷ older, finish t older)
first-Step t Phase.finished older h = inr (inl refl, h)
first-Step t Phase.timed_out older h = inr (inr refl, h)

next-Step : (cs : Callers) → ((cs' : Callers) × Step cs cs') ⊎ All IsOver cs
next-Step [] = inr tt
next-Step (c ∷ older) = elim (next-Step older) [
  | inl (older', s) ↦ inl (c ∷ older', earlier c older older' s)
  | inr h ↦ first-Step c.acquire_timeout c.phase older h
]

-- Without a further call, the calls of a name take at most two steps each; and as long as one of
-- them waits or runs, a step is left, so that none waits for ever if every `fn` ends.
pub Steps-end :
    (n : ℕ) (cs cs' : Callers)
    → Steps n cs cs'
    → (n ≤ 2 * length cs) × (((cs'' : Callers) × Step cs' cs'') ⊎ All IsOver cs')
Steps-end n cs cs' ss =
    (let h = work-Steps n cs cs' ss in let k = work-bound cs in ground arith, next-Step cs')
