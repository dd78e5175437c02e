-- ===== src/Js/Text.antt =====
-- JavaScript strings as lists of UTF-16 code units, and the `String` methods that the source calls:
-- `===`, `split` by one character, `trim`, `startsWith`, `replace` of a string, `Set.has`.
pub mod Laws
use Prim.Native.Char.{code}
use Prim.Native.String
use securesupabase_js.Prelude.{
  ℕ, String, ◌≡◌, ◌↔◌, refl, Bool, true, false, ◌&&◌, ◌||◌, not, Option, none, some, List, [], ◌∷◌,
  ◌++◌, arith, ◌==◌, leb, if◌then◌else◌, any, keep, map, length, take, drop,
}

abbrev pub Str : Type 0
Str = List ℕ

-- The code units of a literal of the source; those literals are ASCII.
abbrev pub codes : String → Str
codes String.[] = []
codes (String.◌∷◌ c s) = code c ∷ codes s

-- a === b
unfoldable pub str_eq : Str → Str → Bool
str_eq [] [] = true
str_eq [] (y ∷ ys) = false
str_eq (x ∷ xs) [] = false
str_eq (x ∷ xs) (y ∷ ys) = x == y && str_eq xs ys

-- items.includes(s), and set.has(s)
unfoldable pub has : List Str → Str → Bool
unfolding any str_eq
has items s = any (λ item. str_eq item s) items

-- s.split(separator), for a separator of one code unit: never an empty array.
cons_head : ℕ → List Str → List Str
cons_head c [] = (c ∷ []) ∷ []
cons_head c (part ∷ parts) = (c ∷ part) ∷ parts

unfoldable pub split : ℕ → Str → List Str
unfolding cons_head
split separator [] = [] ∷ []
split separator (c ∷ s) =
    let parts = split separator s in if c == separator then [] ∷ parts else cons_head c parts

-- parts.join(separator)
unfoldable pub join : Str → List Str → Str
join separator [] = []
join separator (part ∷ []) = part
join separator (part ∷ next ∷ parts) = part ++ (separator ++ join separator (next ∷ parts))

-- The code units of WhiteSpace and LineTerminator.
unfoldable pub is_space : ℕ → Bool
is_space c =
    (leb 9 c && leb c 13)
    || c == 32
    || c == 0xA0
    || c == 0xFEFF
    || c == 0x1680
    || (leb 0x2000 c && leb c 0x200A)
    || c == 0x2028
    || c == 0x2029
    || c == 0x202F
    || c == 0x205F
    || c == 0x3000

unfoldable pub trim_start : Str → Str
unfolding is_space
trim_start [] = []
trim_start (c ∷ s) = let rest = trim_start s in if is_space c then rest else c ∷ s

unfoldable pub trim_end : Str → Str
unfolding is_space
trim_end [] = []
trim_end (c ∷ s) = elim (trim_end s) [
  | [] ↦ if is_space c then [] else c ∷ []
  | d ∷ rest ↦ c ∷ d ∷ rest
]

-- s.trim()
unfoldable pub trim : Str → Str
unfolding trim_start trim_end
trim s = trim_end (trim_start s)

-- s.startsWith(prefix)
unfoldable pub starts_with : Str → Str → Bool
starts_with s [] = true
starts_with [] (p ∷ ps) = false
starts_with (c ∷ s) (p ∷ ps) = c == p && starts_with s ps

-- s.replace(pattern, replacement) for a pattern that is a string: its first occurrence.
unfoldable pub replace_first : Str → Str → Str → Str
unfolding starts_with
replace_first [] pattern_ replacement = if starts_with [] pattern_ then replacement else []
replace_first (c ∷ s) pattern_ replacement =
    let rest = replace_first s pattern_ replacement in
    if starts_with (c ∷ s) pattern_ then replacement ++ drop (length pattern_) (c ∷ s) else c ∷ rest

-- Boolean(s): the empty string is falsy.
abbrev pub nonempty : Str → Bool
nonempty [] = false
nonempty (c ∷ s) = true

-- `if (s)` for a value that is a string, `undefined` or `null`.
abbrev pub truthy : Option Str → Option Str
truthy none = none
truthy (some []) = none
truthy (some (c ∷ s)) = some (c ∷ s)

-- value ?? fallback
abbrev pub or_else {ℓ} : {A : Type ℓ} → Option A → A → A
or_else none fallback = fallback
or_else (some a) fallback = a

-- a ?? b, where `b` may be null too
abbrev pub or_option {ℓ} : {A : Type ℓ} → Option A → Option A → Option A
or_option none b = b
or_option (some a) b = some a
