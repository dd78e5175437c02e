-- ===== src/Edge/Security/Context.antt =====
-- functions/_shared/security.ts: the device context of a request and its hash.
use Prim.Native.Nat.{bit_xor}
use securesupabase_js.Prelude.{
  ℕ, zero, suc, ◌+◌, ◌-◌, ◌*◌, ◌/◌, ◌%◌, ◌^◌, ◌≤◌, ◌<◌, ◌≡◌, refl, ◌⊎◌, inl, inr, Bool, true, false,
  Bool-cases, ◌||◌, ltb, Option, none, some, List, [], ◌∷◌, ◌++◌, if◌then◌else◌, length, All, arith,
}
use securesupabase_js.Js.Text.{Str, codes, str_eq, split, trim, truthy, or_else, or_option}
use securesupabase_js.Js.Json.{Json}
use securesupabase_js.Edge.Types.{
  Backend, Request, Header, origin, x_forwarded_for, cf_connecting_ip, x_region, fly_region,
  cf_ipcountry, x_vercel_ip_country, cf_asn, x_asn, user_agent, sec_ch_ua_platform,
  sec_ch_ua_mobile, accept_language, referer, DeviceContext, logged,
}
use securesupabase_js.Edge.Effects.{Run, pure, emit}

unfoldable pub parse_bool : Backend → Option Str → Bool → Bool
unfolding str_eq trim
parse_bool be raw fallback = elim (truthy raw) [
  | none ↦ fallback
  | some v ↦
      let normalized : Str = be.to_lower (trim v) in
      str_eq normalized (codes "true")
      || str_eq normalized (codes "1")
      || str_eq normalized (codes "yes")
      || str_eq normalized (codes "on")
]

unfoldable pub get_header : Request → Header → Option Str
unfolding trim
get_header req name = elim (truthy (req.headers name)) [
  | none ↦ none
  | some v ↦ truthy (some (trim v))
]

abbrev first_part : List Str → Str
first_part [] = []
first_part (part ∷ parts) = part

unfoldable pub get_first_forwarded_ip : Backend → Request → Str
unfolding split trim
get_first_forwarded_ip be req = elim (truthy (req.headers x_forwarded_for)) [
  | some forwarded ↦ be.to_lower (trim (first_part (split b',' forwarded)))
  | none ↦ be.to_lower (trim (or_else (req.headers cf_connecting_ip) (codes "unknown")))
]

abbrev pub word : ℕ
word = 2 ^ 32

-- One round of the loop: `hash ^= c`, then `Math.imul`, both on 32-bit words.
unfoldable pub hash_step : ℕ → ℕ → ℕ
hash_step hash c = (bit_xor hash c * 16777619) % word

unfoldable pub hash_from : ℕ → Str → ℕ
unfolding hash_step
hash_from hash [] = hash
hash_from hash (c ∷ s) = hash_from (hash_step hash c) s

-- A hexadecimal digit of `Number.prototype.toString`.
unfoldable pub hex_digit : ℕ → ℕ
hex_digit d = if ltb d 10 then b'0' + d else b'a' + (d - 10)

-- `n.toString(16)` in front of `acc`; each round divides by 16, so that `n` rounds are enough.
unfoldable pub hex_from : ℕ → ℕ → Str → Str
unfolding hex_digit
hex_from zero n acc = hex_digit (n % 16) ∷ acc
hex_from (suc fuel) n acc = elim (ltb n 16) [
  | true ↦ hex_digit n ∷ acc
  | false ↦ hex_from fuel (n / 16) (hex_digit (n % 16) ∷ acc)
]

-- padStart(width, '0')
unfoldable pub pad_zeros : ℕ → Str → Str
pad_zeros zero s = s
pad_zeros (suc n) s = b'0' ∷ pad_zeros n s

unfoldable pub hash_prefix : Str → Str
unfolding hash_from hex_from pad_zeros
hash_prefix s =
    let hash : ℕ = hash_from 2166136261 s in
    let hex : Str = hex_from hash hash [] in pad_zeros (8 - length hex) hex

unfoldable pub hash_identifier : Backend → Str → Str
unfolding hash_prefix
hash_identifier be s =
    hash_prefix (or_else be.env.security_context_hash_salt [] ++ (codes ":" ++ s))

unfoldable pub get_device_context : Backend → Request → DeviceContext
unfolding get_first_forwarded_ip get_header hash_identifier
get_device_context be req = record {
  ip_hash = hash_identifier be (get_first_forwarded_ip be req);
  region = or_option (get_header req x_region) (get_header req fly_region);
  country = or_option (get_header req cf_ipcountry) (get_header req x_vercel_ip_country);
  asn = or_option (get_header req cf_asn) (get_header req x_asn);
  user_agent = get_header req user_agent;
  platform = get_header req sec_ch_ua_platform;
  mobile = get_header req sec_ch_ua_mobile;
  accept_language = get_header req accept_language;
  origin = get_header req origin;
  referer = get_header req referer;
}

unfoldable pub log_security_context : Backend → Request → Str → List (Str × Json) → Run (Unit {0})
unfolding parse_bool get_device_context
log_security_context be req event extra =
    if parse_bool be be.env.security_log_device_context false
    then emit (logged event (get_device_context be req) extra)
    else pure tt

abbrev pub IsHexDigit : ℕ → Type 0
IsHexDigit c = ((b'0' ≤ c) × (c ≤ b'9')) ⊎ ((b'a' ≤ c) × (c ≤ b'f'))

hex_digit-IsHexDigit : (d : ℕ) → d < 16 → IsHexDigit (hex_digit d)
unfolding hex_digit
hex_digit-IsHexDigit d h = ground arith

hex_from-small :
    (fuel n : ℕ) (acc : Str) → ltb n 16 ≡ true → hex_from (suc fuel) n acc ≡ hex_digit n ∷ acc
unfolding hex_from
hex_from-small fuel n acc small = rw (hex_from, small) refl

hex_from-large :
    (fuel n : ℕ) (acc : Str)
    → ltb n 16 ≡ false
    → hex_from (suc fuel) n acc ≡ hex_from fuel (n / 16) (hex_digit (n % 16) ∷ acc)
unfolding hex_from
hex_from-large fuel n acc large = rw (hex_from, large) refl

hex_from-IsHexDigit :
    (fuel n : ℕ) (acc : Str) → All IsHexDigit acc → All IsHexDigit (hex_from fuel n acc)
unfolding hex_from
hex_from-IsHexDigit zero n acc h = (hex_digit-IsHexDigit (n % 16) (omega arith), h)
hex_from-IsHexDigit (suc fuel) n acc h = elim (Bool-cases (ltb n 16)) [
  | inl small ↦ rw (hex_from-small fuel n acc small) (hex_digit-IsHexDigit n (ground arith), h)
  | inr large ↦ rw (hex_from-large fuel n acc large) (
      hex_from-IsHexDigit fuel (n / 16) (hex_digit (n % 16) ∷ acc)
        (hex_digit-IsHexDigit (n % 16) (omega arith), h))
]

-- 16 ^ suc k
hex_bound : ℕ → ℕ
hex_bound zero = 16
hex_bound (suc k) = 16 * hex_bound k

-- A number below 16 ^ suc k has at most suc k digits.
length-hex_from :
    (fuel k n : ℕ) (acc : Str) → n < hex_bound k → length (hex_from fuel n acc) ≤ suc k + length acc
unfolding hex_from hex_bound
length-hex_from zero k n acc h = omega arith
length-hex_from (suc fuel) zero n acc h =
    let small : ltb n 16 ≡ true = ground arith in rw (hex_from-small fuel n acc small) (omega arith)
length-hex_from (suc fuel) (suc k) n acc h = elim (Bool-cases (ltb n 16)) [
  | inl small ↦ rw (hex_from-small fuel n acc small) (omega arith)
  | inr large ↦ rw (hex_from-large fuel n acc large) (
      let rest = length-hex_from fuel k (n / 16) (hex_digit (n % 16) ∷ acc) (omega arith) in
      omega arith)
]

hash_from-bound : (hash : ℕ) (s : Str) → hash < word → hash_from hash s < word
unfolding hash_from hash_step
hash_from-bound hash [] h = h
hash_from-bound hash (c ∷ s) h = hash_from-bound (hash_step hash c) s (omega arith)

pad_zeros-IsHexDigit : (n : ℕ) (s : Str) → All IsHexDigit s → All IsHexDigit (pad_zeros n s)
unfolding pad_zeros
pad_zeros-IsHexDigit zero s h = h
pad_zeros-IsHexDigit (suc n) s h = (inl (omega arith, omega arith), pad_zeros-IsHexDigit n s h)

length-pad_zeros : (n : ℕ) (s : Str) → length (pad_zeros n s) ≡ n + length s
unfolding pad_zeros
length-pad_zeros zero s = omega arith
length-pad_zeros (suc n) s = omega (arith, length-pad_zeros n s)

-- The hash that goes into the log has eight hexadecimal digits, whatever the string: it is a 32-bit
-- number, all of whose digits are written, with zeros before them.
pub hash_prefix_lem : (s : Str) → (length (hash_prefix s) ≡ 8) × All IsHexDigit (hash_prefix s)
unfolding hash_prefix hex_bound
hash_prefix_lem s =
    let hash = hash_from 2166136261 s in
    let hex = hex_from hash hash [] in
    let short = length-hex_from hash 7 hash [] (hash_from-bound 2166136261 s (omega arith)) in
    (
      omega (arith, length-pad_zeros (8 - length hex) hex),
      pad_zeros-IsHexDigit (8 - length hex) hex (hex_from-IsHexDigit hash hash [] tt),
    )
