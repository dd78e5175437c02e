-- ===== src/Edge/RateLimit.antt =====
-- functions/_shared/rateLimit.ts; times are milliseconds.
mod Table
pub mod Window
pub mod Retry
use securesupabase_js.Prelude.{
  ℕ, zero, suc, ◌+◌, ◌-◌, ◌*◌, ◌/◌, Bool, true, false, not, Option, none, some, List, [], ◌∷◌, ◌++◌,
  ltb, leb, keep, length, if◌then◌else◌,
}
use Prim.Native.Nat.{min}
use securesupabase_js.Js.Text.{Str, codes, str_eq, split, trim, truthy, or_else}
use securesupabase_js.Edge.Types.{
  Backend, Request, State, Trace, Client, x_forwarded_for, cf_connecting_ip, Row, failed, missing,
  found, RateRow, read_rate, inserted_rate, restarted_rate, counted_rate,
}
use securesupabase_js.Edge.Effects.{Run, pure, observe, emit, await, ◌>>=◌, ◌>>◌}

abbrev pub window_ms : ℕ
window_ms = 60000

-- The map from identifiers to the times of their accepted requests.
abbrev pub Store : Type 0
Store = List (Str × List ℕ)

-- store.get(key) ?? []
unfoldable pub times_of : Str → Store → List ℕ
unfolding str_eq
times_of key [] = []
times_of key ((k, times) ∷ store) = if str_eq k key then times else times_of key store

-- store.delete(key)
unfoldable pub delete : Str → Store → Store
unfolding str_eq
delete key [] = []
delete key ((k, times) ∷ store) =
    let rest = delete key store in if str_eq k key then rest else (k, times) ∷ rest

-- store.set(key, times)
unfoldable pub set : Str → List ℕ → Store → Store
unfolding str_eq
set key times [] = (key, times) ∷ []
set key times ((k, old) ∷ store) =
    if str_eq k key then (k, times) ∷ store else (k, old) ∷ set key times store

-- `now - t < WINDOW_MS` on numbers that may be negative
abbrev pub is_recent : ℕ → ℕ → Bool
is_recent now t = ltb now (t + window_ms)

unfoldable pub prune : ℕ → Str → Store → Store
unfolding keep times_of delete set
prune now key store = elim (keep (is_recent now) (times_of key store)) [
  | [] ↦ delete key store
  | t ∷ kept ↦ set key (t ∷ kept) store
]

-- Math.min(...times), for a list with an element
unfoldable pub min_of : ℕ → List ℕ → ℕ
min_of t [] = t
min_of t (u ∷ times) = min t (min_of u times)

-- Math.ceil(ms / 1000); the difference is positive where it is called
abbrev pub ceil_seconds : ℕ → ℕ
ceil_seconds ms = (ms + 999) / 1000

-- The wait in seconds; with no time recorded the source computes `Infinity`.
unfoldable pub retry_after : ℕ → List ℕ → ℕ
unfolding min_of
retry_after now [] = 0
retry_after now (t ∷ times) = ceil_seconds (min_of t times + window_ms - now)

-- The new store, and the wait if the request is refused.
unfoldable pub check_rate_limit : ℕ → Str → ℕ → Store → Option ℕ × Store
unfolding prune times_of set retry_after
check_rate_limit now identifier limit store =
    let store' = prune now identifier store in
    let times = times_of identifier store' in
    if leb limit (length times)
    then (some (retry_after now times), store')
    else (none, set identifier (times ++ now ∷ []) store')

-- `forwarded.split(',')[0]!`
abbrev pub first_part : List Str → Str
first_part [] = []
first_part (part ∷ parts) = part

unfoldable pub get_identifier : Request → Option Str → Str
unfolding split trim
get_identifier req user_id = elim (truthy user_id) [
  | some id ↦ codes "user:" ++ id
  | none ↦ codes "ip:" ++ elim (truthy (req.headers x_forwarded_for)) [
    | some forwarded ↦ trim (first_part (split b',' forwarded))
    | none ↦ or_else (req.headers cf_connecting_ip) (codes "unknown")
  ]
]

unfoldable pub check_in_memory : Backend → Str → ℕ → Run (Option ℕ)
unfolding check_rate_limit
check_in_memory be identifier limit = do
  now ← observe be.now
  λ s.
      let (refused, store') = check_rate_limit now identifier limit s.store in
      pure refused (record s { store = store' })

-- A new window starts, one more hit is counted, or the request is refused.
unfoldable pub check_row : Client → Str → Str → ℕ → ℕ → Option ℕ → ℕ → Run (Option ℕ)
check_row admin schema identifier limit now none hits =
    emit (restarted_rate admin schema identifier now 1) >> pure none
check_row admin schema identifier limit now (some window_start) hits =
    if not (is_recent now window_start)
    then (emit (restarted_rate admin schema identifier now 1) >> pure none)
    else if leb limit hits
    then pure (some (ceil_seconds (window_start + window_ms - now)))
    else (emit (counted_rate admin schema identifier (hits + 1)) >> pure none)

-- The branches on the answer of the database.
unfoldable pub after_read : Backend → Client → Str → Str → ℕ → ℕ → Row RateRow → Run (Option ℕ)
unfolding check_in_memory check_row
after_read be admin schema identifier limit now failed = check_in_memory be identifier limit
after_read be admin schema identifier limit now missing =
    emit (inserted_rate admin schema identifier now 1) >> pure none
after_read be admin schema identifier limit now (found row) =
    check_row admin schema identifier limit now row.window_start row.hits

unfoldable pub check_database : Backend → Client → Str → ℕ → Run (Option ℕ)
unfolding after_read
check_database be admin identifier limit =
    let schema : Str = or_else be.env.security_schema (codes "security") in
    do
      now ← observe be.now
      row ← await (read_rate admin schema identifier) (λ t. be.find_rate t admin schema identifier)
      after_read be admin schema identifier limit now row

unfoldable pub check_rate_limit_with_policy : Backend → Client → Str → ℕ → Run (Option ℕ)
unfolding str_eq check_in_memory check_database
check_rate_limit_with_policy be admin identifier limit =
    let mode : Str = be.to_lower (or_else be.env.security_rate_limit_mode (codes "memory")) in
    if not (str_eq mode (codes "database"))
    then check_in_memory be identifier limit
    else check_database be admin identifier limit
