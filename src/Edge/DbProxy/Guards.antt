-- ===== src/Edge/DbProxy/Guards.antt =====
-- functions/db-proxy/index.ts: the allowlists and the test of identifiers.
use securesupabase_js.Prelude.{
  ℕ, Bool, true, false, ◌&&◌, ◌||◌, ◌==◌, leb, Option, none, some, List, [], ◌∷◌, map, keep,
  if◌then◌else◌,
}
use securesupabase_js.Js.Text.{Str, has, split, trim, nonempty, truthy}
use securesupabase_js.Edge.Effects.{Run, pure, throw}

-- `items.length > 0 ? new Set(items) : null`
abbrev allowlist : List Str → Option (List Str)
allowlist [] = none
allowlist (first ∷ rest) = some (first ∷ rest)

unfoldable pub parse_csv_allowlist : Option Str → Option (List Str)
unfolding keep split trim
parse_csv_allowlist raw = elim (truthy raw) [
  | none ↦ none
  | some v ↦ allowlist (keep nonempty (map trim (split b',' v)))
]

unfoldable pub is_allowed : Str → Option (List Str) → Bool
unfolding has
is_allowed name none = true
is_allowed name (some allowed) = has allowed name

unfoldable pub assert_allowed : Str → Option (List Str) → Str → Run (Unit {0})
unfolding is_allowed
assert_allowed name allowed message = if is_allowed name allowed then pure tt else throw message

abbrev pub is_letter : ℕ → Bool
is_letter c = (leb b'a' c && leb c b'z') || (leb b'A' c && leb c b'Z') || c == b'_'

abbrev pub is_digit : ℕ → Bool
is_digit c = leb b'0' c && leb c b'9'

abbrev pub is_word : Str → Bool
is_word [] = true
is_word (c ∷ s) = (is_letter c || is_digit c) && is_word s

-- IDENTIFIER_RE.test(value)
unfoldable pub is_identifier : Str → Bool
is_identifier [] = false
is_identifier (c ∷ s) = is_letter c && is_word s

unfoldable pub assert_identifier : Str → Str → Run Str
unfolding is_identifier
assert_identifier value message = if is_identifier value then pure value else throw message
