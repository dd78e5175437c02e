-- ===== src/Realtime/Serializer/Framing.antt =====
-- Bytes written one after another, and read back by their lengths.
use securesupabase_js.Prelude.{
  ℕ, zero, ◌-◌, ◌%◌, ◌^◌, ◌<◌, ◌≡◌, refl, List, [], ◌∷◌, ◌++◌, map, length, take, drop, take-append,
  drop-append, All, arith,
}
use mathlib.Core.List.{append-nil}
use securesupabase_js.Js.Text.{Str}
use securesupabase_js.Realtime.Serializer.{Bytes, first_units, char_bytes, zeros, filled}

-- Every code unit fits in a byte.
abbrev pub IsLatin : Str → Type 0
IsLatin s = All (λ c. c < 2 ^ 8) s

first_units-latin : (s : Str) → IsLatin s → first_units s ≡ s
unfolding first_units
first_units-latin [] h = refl
first_units-latin (c ∷ []) h = refl
first_units-latin (c ∷ d ∷ s) (h, hs) = ground (arith, first_units-latin (d ∷ s) hs)

map-small : (s : Str) → IsLatin s → map (λ c. c % 2 ^ 8) s ≡ s
map-small [] h = refl
map-small (c ∷ s) (h, hs) = let small : c % 2 ^ 8 ≡ c = omega arith in rw (small, map-small s hs)

pub char_bytes-latin : (s : Str) → IsLatin s → char_bytes s ≡ s
unfolding char_bytes
char_bytes-latin s h = rw (first_units-latin s h) (map-small s h)

-- A buffer of just the right size is what was written.
pub filled-exact : (n : ℕ) (bytes : Bytes) → length bytes ≡ n → filled n bytes ≡ bytes
unfolding filled zeros
filled-exact n bytes e =
    let none_left : n - length bytes ≡ zero = omega arith in rw none_left (append-nil bytes)

-- slices
pub take-exact : {A : Type 0} (n : ℕ) (xs ys : List A) → length xs ≡ n → take n (xs ++ ys) ≡ xs
take-exact n xs ys e = rw (← e) (take-append xs ys)

pub drop-exact : {A : Type 0} (n : ℕ) (xs ys : List A) → length xs ≡ n → drop n (xs ++ ys) ≡ ys
drop-exact n xs ys e = rw (← e) (drop-append xs ys)
