-- ===== src/Edge/RateLimit/Window.antt =====
-- The in-memory limiter over a whole run: the requests that it lets through in any one window.
use securesupabase_js.Prelude.{
  ℕ, ◌+◌, ◌≤◌, ◌<◌, ◌≡◌, ◌∙◌, refl, Bool, true, false, ◌&&◌, Option, none, some, List, [], ◌∷◌,
  ◌++◌, keep, keep-append, keep-keep, length-append, length, All, ltb, leb, if◌then◌else◌, arith,
  Bool-cases, inl, inr,
}
use mathlib.Core.Path.{subst}
use mathlib.Core.List.{append_assoc, append-nil}
use securesupabase_js.Js.Text.{Str, str_eq}
use securesupabase_js.Js.Text.Laws.{str_eq_iff, str_eq_refl}
use securesupabase_js.Edge.RateLimit.{
  Store, times_of, set, prune, is_recent, check_rate_limit, retry_after, window_ms,
}
use securesupabase_js.Edge.RateLimit.Table.{times_of-set, times_of-prune}

abbrev pub passed : Option ℕ → Bool
passed none = true
passed (some wait) = false

-- The times at which requests of `key` were let through, in a run over requests that come with
-- the clock's value and an identifier.
unfoldable pub accepted : ℕ → Str → List (ℕ × Str) → Store → List ℕ
accepted limit key [] store = []
accepted limit key ((now, id) ∷ requests) store =
    let (refused, store') = check_rate_limit now id limit store in
    let more = accepted limit key requests store' in
    if str_eq id key && passed refused then now ∷ more else more

-- The clock never runs backwards.
abbrev pub IsOrdered : ℕ → List (ℕ × Str) → Type 0
IsOrdered start [] = Unit
IsOrdered start ((now, id) ∷ requests) = (start ≤ now) × IsOrdered now requests

abbrev pub in_window : ℕ → ℕ → Bool
in_window start t = leb start t && ltb t (start + window_ms)

abbrev pub count_in : ℕ → List ℕ → ℕ
count_in start times = length (keep (in_window start) times)

IsOrdered-from :
    (p now : ℕ) (requests : List (ℕ × Str))
    → p ≤ now
    → IsOrdered now requests
    → IsOrdered p requests
IsOrdered-from p now [] h o = tt
IsOrdered-from p now ((next, id) ∷ requests) h (k, o) = (omega arith, o)

-- In a window that holds `now`, what is not later than `now` is recent.
count_in-le-recent :
    (start now : ℕ) (times : List ℕ)
    → All (λ t. t ≤ now) times
    → now < start + window_ms
    → count_in start times ≤ length (keep (is_recent now) times)
unfolding keep
count_in-le-recent start now [] h k = omega arith
count_in-le-recent start now (t ∷ times) (h, hs) k =
    ground (arith, count_in-le-recent start now times hs k)

pub All-le_trans :
    (p now : ℕ) (times : List ℕ) → p ≤ now → All (λ t. t ≤ p) times → All (λ t. t ≤ now) times
All-le_trans p now [] h all = tt
All-le_trans p now (t ∷ times) h (k, all) = (omega arith, All-le_trans p now times h all)

pub All-snoc :
    (now : ℕ) (times : List ℕ) → All (λ t. t ≤ now) times → All (λ t. t ≤ now) (times ++ now ∷ [])
All-snoc now [] all = (omega arith, tt)
All-snoc now (t ∷ times) (k, all) = (k, All-snoc now times all)

recent_weaker : (p now : ℕ) → p ≤ now → (t : ℕ) → is_recent now t ≡ true → is_recent p t ≡ true
recent_weaker p now h t e = ground arith

-- What is known after the requests so far: the last time `p` at which `key` was pruned, the times
-- `past` at which it passed, and the map.
pub record IsTracked (limit : ℕ) (key : Str) (p : ℕ) (past : List ℕ) (store : Store) : Type 0 where
  pub recorded : times_of key store ≡ keep (is_recent p) past
  pub earlier : All (λ t. t ≤ p) past
  pub bounded : (start : ℕ) → count_in start past ≤ limit

module _ (limit : ℕ) (key : Str) (p now : ℕ) (past : List ℕ) (store : Store) (ordered : p ≤ now)
    (tracked : IsTracked limit key p past store) where
  pruned : times_of key (prune now key store) ≡ keep (is_recent now) past
  pruned =
      rw (times_of-prune, str_eq_refl, tracked.recorded)
        (keep-keep (is_recent now) (is_recent p) past (recent_weaker p now ordered))

  earlier_now : All (λ t. t ≤ now) past
  earlier_now = All-le_trans p now past ordered tracked.earlier

  pass-bounded :
      length (keep (is_recent now) past) < limit
      → (start : ℕ) → count_in start (past ++ now ∷ []) ≤ limit
  pass-bounded room start =
      rw (keep-append (in_window start) past (now ∷ []), length-append)
        (ground_now (count_in-le-recent start now past earlier_now) (tracked.bounded start))
    where
      ground_now :
          (now < start + window_ms → count_in start past ≤ length (keep (is_recent now) past))
          → count_in start past ≤ limit
          → count_in start past + count_in start (now ∷ []) ≤ limit
      ground_now h k = unfold keep in ground arith

  pass-IsTracked :
      length (keep (is_recent now) past) < limit
      → IsTracked limit key now
          (past ++ now ∷ [])
          (set key (times_of key (prune now key store) ++ now ∷ []) (prune now key store))
  pass-IsTracked room = record {
    recorded =
        rw (times_of-set, str_eq_refl, pruned, keep-append (is_recent now) past (now ∷ []))
          (unfold keep in ground arith);
    earlier = All-snoc now past earlier_now;
    bounded = pass-bounded room;
  }

  room_for :
      leb limit (length (times_of key (prune now key store))) ≡ false
      → length (keep (is_recent now) past) < limit
  room_for h = let h' = rw pruned at h in ground arith

  refuse-IsTracked : IsTracked limit key now past (prune now key store)
  refuse-IsTracked = record { recorded = pruned; earlier = earlier_now; bounded = tracked.bounded }

-- A request of another identifier leaves the times of `key` as they are.
pub check_rate_limit-other :
    (now : ℕ) (id : Str) (limit : ℕ) (store : Store) (key : Str)
    → str_eq id key ≡ false
    → times_of key (check_rate_limit now id limit store).1 ≡ times_of key store
unfolding check_rate_limit
check_rate_limit-other now id limit store key differ =
    elim (Bool-cases (leb limit (length (times_of id (prune now id store))))) [
      | inl full ↦ rw (full, times_of-prune, differ)
      | inr room ↦ rw (room, times_of-set, differ, times_of-prune, differ)
    ]

pub check_rate_limit-full :
    (now : ℕ) (id : Str) (limit : ℕ) (store : Store)
    → leb limit (length (times_of id (prune now id store))) ≡ true
    → check_rate_limit now id limit store
      ≡ (some (retry_after now (times_of id (prune now id store))), prune now id store)
unfolding check_rate_limit
check_rate_limit-full now id limit store full = rw full

pub check_rate_limit-room :
    (now : ℕ) (id : Str) (limit : ℕ) (store : Store)
    → leb limit (length (times_of id (prune now id store))) ≡ false
    → check_rate_limit now id limit store
      ≡ (none, set id (times_of id (prune now id store) ++ now ∷ []) (prune now id store))
unfolding check_rate_limit
check_rate_limit-room now id limit store room = rw room

accepted-IsTracked :
    (limit : ℕ) (key : Str) (requests : List (ℕ × Str)) (p : ℕ) (past : List ℕ) (store : Store)
    → IsOrdered p requests
    → IsTracked limit key p past store
    → (start : ℕ) → count_in start (past ++ accepted limit key requests store) ≤ limit
unfolding accepted
accepted-IsTracked limit key [] p past store ordered tracked start =
    rw append-nil (tracked.bounded start)
accepted-IsTracked limit key ((now, id) ∷ requests) p past store (h, ordered) tracked start =
    elim (Bool-cases (str_eq id key)) [
      | inr differ ↦
          let rest =
            accepted-IsTracked limit key requests p past (check_rate_limit now id limit store).1
              (IsOrdered-from p now requests h ordered)
              (record {
                recorded = check_rate_limit-other now id limit store key differ ∙ tracked.recorded;
                earlier = tracked.earlier;
                bounded = tracked.bounded;
              })
              start in
          rw differ rest
      | inl same ↦
          let e = (str_eq_iff id key).0 same in
          rw (same, e)
            (elim (Bool-cases (leb limit (length (times_of key (prune now key store))))) [
              | inl full ↦ rw (check_rate_limit-full now key limit store full) (
                  accepted-IsTracked limit key requests now past (prune now key store) ordered
                    (refuse-IsTracked limit key p now past store h tracked) start)
              | inr room ↦ rw (check_rate_limit-room now key limit store room) (
                  subst (λ times. count_in start times ≤ limit) (append_assoc past (now ∷ []) _)
                    (accepted-IsTracked limit key requests now (past ++ now ∷ []) _ ordered
                      (pass-IsTracked limit key p now past store h tracked
                        (room_for limit key p now past store h tracked room))
                      start))
            ])
    ]

-- Whatever the requests, at most `limit` of one identifier are let through in any window of
-- 60 seconds, if the clock never runs backwards and the limiter starts with an empty map.
pub accepted-bounded :
    (limit : ℕ) (key : Str) (requests : List (ℕ × Str)) (start : ℕ)
    → IsOrdered 0 requests
    → count_in start (accepted limit key requests []) ≤ limit
accepted-bounded limit key requests start ordered =
    accepted-IsTracked limit key requests 0 [] [] ordered empty-IsTracked start
  where
    empty-IsTracked : IsTracked limit key 0 [] []
    empty-IsTracked = record {
      recorded = unfold times_of keep in refl;
      earlier = tt;
      bounded = λ _. unfold keep in omega arith;
    }
