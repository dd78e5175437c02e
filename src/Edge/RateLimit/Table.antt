-- ===== src/Edge/RateLimit/Table.antt =====
-- The map of the in-memory limiter, key by key.
use securesupabase_js.Prelude.{ℕ, ◌≡◌, refl, List, [], ◌∷◌, keep, if◌then◌else◌, arith}
use securesupabase_js.Js.Text.{Str, str_eq}
use securesupabase_js.Js.Text.Laws.{str_eq_iff}
use securesupabase_js.Edge.RateLimit.{Store, times_of, delete, set, prune, is_recent}

pub times_of-set :
    (k j : Str) (times : List ℕ) (store : Store)
    → times_of j (set k times store) ≡ (if str_eq k j then times else times_of j store)
unfolding times_of set
times_of-set k j times [] = ground arith
times_of-set k j times ((i, old) ∷ store) =
    ground (arith, times_of-set k j times store, str_eq_iff i k, str_eq_iff i j, str_eq_iff k j)

pub times_of-delete :
    (k j : Str) (store : Store)
    → times_of j (delete k store) ≡ (if str_eq k j then [] else times_of j store)
unfolding times_of delete
times_of-delete k j [] = ground arith
times_of-delete k j ((i, old) ∷ store) =
    ground (arith, times_of-delete k j store, str_eq_iff i k, str_eq_iff i j, str_eq_iff k j)

-- Pruning filters the times of its key and leaves the other keys alone.
pub times_of-prune :
    (now : ℕ) (k j : Str) (store : Store)
    → times_of j (prune now k store)
      ≡ (if str_eq k j then keep (is_recent now) (times_of k store) else times_of j store)
unfolding prune
times_of-prune now k j store = go (keep (is_recent now) (times_of k store)) refl
  where
    go :
        (kept : List ℕ)
        → keep (is_recent now) (times_of k store) ≡ kept
        → times_of j (elim kept [ [] ↦ delete k store | t ∷ ts ↦ set k (t ∷ ts) store ])
          ≡ (if str_eq k j then kept else times_of j store)
    go [] e = times_of-delete k j store
    go (t ∷ ts) e = times_of-set k j (t ∷ ts) store
