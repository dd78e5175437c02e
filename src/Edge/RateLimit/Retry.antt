-- ===== src/Edge/RateLimit/Retry.antt =====
-- The wait that the in-memory limiter answers with.
use securesupabase_js.Prelude.{
  ℕ, suc, ◌+◌, ◌*◌, ◌-◌, ◌≤◌, ◌<◌, ◌≡◌, ◌≢◌, ◌∙◌, refl, sym, ap, Bool, true, none, some, List, [],
  ◌∷◌, ◌++◌, keep, length-keep, length, length-append, All, leb, arith, Bool-cases, inl, inr,
}
use securesupabase_js.Js.Text.{Str, str_eq}
use securesupabase_js.Js.Text.Laws.{str_eq_refl}
use securesupabase_js.Edge.RateLimit.{
  Store, times_of, set, prune, is_recent, check_rate_limit, min_of, retry_after, window_ms,
}
use securesupabase_js.Edge.RateLimit.Table.{times_of-prune, times_of-set}
use securesupabase_js.Edge.RateLimit.Window.{
  check_rate_limit-full, check_rate_limit-room, All-snoc, All-le_trans,
}

abbrev pub AreBetween : ℕ → ℕ → List ℕ → Type 0
AreBetween lo hi times = All (λ t. (lo ≤ t) × (t ≤ hi)) times

min_of-between :
    (lo hi t : ℕ) (times : List ℕ)
    → AreBetween lo hi (t ∷ times)
    → (lo ≤ min_of t times) × (min_of t times ≤ hi)
unfolding min_of
min_of-between lo hi t [] (h, _) = h
min_of-between lo hi t (u ∷ times) (h, hs) =
    let (a, b) = min_of-between lo hi u times hs in (omega arith, omega arith)

-- What is recent at `now` and not later than `now`.
keep-between :
    (now : ℕ) (times : List ℕ)
    → All (λ t. t ≤ now) times
    → AreBetween (suc now - window_ms) now (keep (is_recent now) times)
unfolding keep
keep-between now [] h = tt
keep-between now (t ∷ times) (h, hs) = ground (arith, keep-between now times hs)

-- Once the oldest time has left the window, a time is missing.
keep-drops_oldest :
    (later t : ℕ) (times : List ℕ)
    → min_of t times + window_ms ≤ later
    → length (keep (is_recent later) (t ∷ times)) < suc (length times) + 0
unfolding keep min_of
keep-drops_oldest later t [] h = ground arith
keep-drops_oldest later t (u ∷ times) h =
    ground (arith, keep-drops_oldest later u times, length-keep (is_recent later) times)

retry_after-bounds :
    (now : ℕ) (times : List ℕ)
    → times ≢ []
    → All (λ t. t ≤ now) times
    → AreBetween (suc now - window_ms) now times
    → (1 ≤ retry_after now times) × (retry_after now times ≤ 60)
unfolding retry_after
retry_after-bounds now [] h all between = absurd (h refl)
retry_after-bounds now (t ∷ times) h all between =
    let (a, b) = min_of-between (suc now - window_ms) now t times between in
    (omega arith, omega arith)

keep-after_wait :
    (now later : ℕ) (times : List ℕ)
    → times ≢ []
    → now + retry_after now times * 1000 ≤ later
    → length (keep (is_recent later) times) < length times
unfolding retry_after
keep-after_wait now later [] h wait = absurd (h refl)
keep-after_wait now later (t ∷ times) h wait =
    omega (arith, keep-drops_oldest later t times (omega arith))

-- The map holds at most `limit` times of each identifier, none of them in the future.
pub record IsCapped (limit now : ℕ) (store : Store) : Type 0 where
  pub few : (id : Str) → length (times_of id store) ≤ limit
  pub past : (id : Str) → All (λ t. t ≤ now) (times_of id store)

All-keep : (P : ℕ → Type 0) (p : ℕ → Bool) (times : List ℕ) → All P times → All P (keep p times)
unfolding keep
All-keep P p [] h = tt
All-keep P p (t ∷ times) (h, hs) = ground (arith, All-keep P p times hs)

module _ (limit now : ℕ) (store : Store) (capped : IsCapped limit now store) (later : ℕ)
    (ordered : now ≤ later) where
  prune-few : (id j : Str) → length (times_of j (prune later id store)) ≤ limit
  prune-few id j = rw times_of-prune (elim (Bool-cases (str_eq id j)) [
    | inl same ↦
        rw same (omega (arith, length-keep (is_recent later) (times_of id store), capped.few id))
    | inr differ ↦ rw differ (capped.few j)
  ])

  prune-past : (id j : Str) → All (λ t. t ≤ later) (times_of j (prune later id store))
  prune-past id j = rw times_of-prune (elim (Bool-cases (str_eq id j)) [
    | inl same ↦ rw same (
        All-keep _ (is_recent later) (times_of id store)
          (All-le_trans now later _ ordered (capped.past id)))
    | inr differ ↦ rw differ (All-le_trans now later _ ordered (capped.past j))
  ])

  prune-IsCapped : (id : Str) → IsCapped limit later (prune later id store)
  prune-IsCapped id = record { few = prune-few id; past = prune-past id }

  pass-IsCapped :
      (id : Str)
      → length (times_of id (prune later id store)) < limit
      → IsCapped limit later
          (set id (times_of id (prune later id store) ++ later ∷ []) (prune later id store))
  pass-IsCapped id room = record {
    few = λ j. rw times_of-set (elim (Bool-cases (str_eq id j)) [
      | inl same ↦ rw (same, length-append) (omega arith)
      | inr differ ↦ rw differ (prune-few id j)
    ]);
    past = λ j. rw times_of-set (elim (Bool-cases (str_eq id j)) [
      | inl same ↦ rw same (All-snoc later _ (prune-past id id))
      | inr differ ↦ rw differ (prune-past id j)
    ]);
  }

  -- If the clock does not run backwards, a request, let through or refused, keeps a capped map
  -- capped: at most `limit` times of each identifier, none later than the clock.
  pub check_rate_limit-IsCapped :
      (id : Str) → IsCapped limit later (check_rate_limit later id limit store).1
  check_rate_limit-IsCapped id =
      elim (Bool-cases (leb limit (length (times_of id (prune later id store))))) [
        | inl full ↦ rw (check_rate_limit-full later id limit store full) (prune-IsCapped id)
        | inr room ↦
            rw (check_rate_limit-room later id limit store room) (pass-IsCapped id (ground arith))
      ]

module _ (limit now : ℕ) (store : Store) (capped : IsCapped limit now store) (positive : 1 ≤ limit)
    (id : Str) where
  pruned_between : AreBetween (suc now - window_ms) now (times_of id (prune now id store))
  pruned_between = rw (times_of-prune, str_eq_refl) (keep-between now _ (capped.past id))

  pruned_nonempty :
      leb limit (length (times_of id (prune now id store))) ≡ true
      → times_of id (prune now id store) ≢ []
  pruned_nonempty full e = ground (arith, ap (λ (l : List ℕ). length l) e)

  wait_bounds :
      leb limit (length (times_of id (prune now id store))) ≡ true
      → (1 ≤ retry_after now (times_of id (prune now id store)))
        × (retry_after now (times_of id (prune now id store)) ≤ 60)
  wait_bounds full =
      retry_after-bounds now _ (pruned_nonempty full)
        (prune-past limit now store capped now (omega arith) id id) pruned_between

  passes_later :
      (later : ℕ)
      → leb limit (length (times_of id (prune now id store))) ≡ true
      → now + retry_after now (times_of id (prune now id store)) * 1000 ≤ later
      → (check_rate_limit later id limit (prune now id store)).0 ≡ none
  passes_later later full waited =
      let fewer =
        keep-after_wait now later (times_of id (prune now id store)) (pruned_nonempty full)
          waited in
      let few = prune-few limit now store capped now (omega arith) id id in
      rw (
        check_rate_limit-room later id limit (prune now id store)
          (rw (times_of-prune, str_eq_refl) (ground arith)))

  -- With a limit of at least one and a capped map, a refused request is told to wait between 1 and
  -- 60 seconds, and the identifier is let through again after that wait, if no other request comes
  -- in between.
  pub refused-retry :
      (wait later : ℕ) (store' : Store)
      → check_rate_limit now id limit store ≡ (some wait, store')
      → now + wait * 1000 ≤ later
      → (1 ≤ wait) × (wait ≤ 60) × ((check_rate_limit later id limit store').0 ≡ none)
  refused-retry wait later store' e waited =
      elim (Bool-cases (leb limit (length (times_of id (prune now id store))))) [
        | inr room ↦ cc (check_rate_limit-room now id limit store room)
        | inl full ↦
            let eq_ = sym (check_rate_limit-full now id limit store full) ∙ e in
            let same_wait : retry_after now (times_of id (prune now id store)) ≡ wait = cc in
            let same_store : prune now id store ≡ store' = cc in
            rw (← same_wait, ← same_store)
              ((
                (wait_bounds full).0,
                (wait_bounds full).1,
                passes_later later full (rw same_wait waited),
              ))
      ]
