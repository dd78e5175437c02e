-- ===== src/Postgrest/Filters/Values.antt =====
-- PostgrestFilterBuilder.ts: the filters on lists of values. Two objects or arrays of a list are
-- distinct objects, so `Set` keeps both; a number that is no natural is the text of its value.
use securesupabase_js.Prelude.{
  ℕ, ◌⊎◌, inl, inr, Bool, true, false, not, ◌||◌, ◌==◌, List, [], ◌∷◌, ◌++◌, map, keep, any,
  if◌then◌else◌,
}
use securesupabase_js.Js.Text.{Str, codes, join, str_eq}
use securesupabase_js.Js.Json.{Json, null, bool, num, other_num, str, arr, Items, nil, cons}
use securesupabase_js.Postgrest.Types.{Runtime, Builder}
use securesupabase_js.Postgrest.Filters.{add}

abbrev bool_eq : Bool → Bool → Bool
bool_eq true c = c
bool_eq false c = not c

-- SameValueZero, by which `Set` compares.
unfoldable pub same_value : Json → Json → Bool
unfolding str_eq
same_value null null = true
same_value (bool b) (bool c) = bool_eq b c
same_value (num n) (num m) = n == m
same_value (other_num s) (other_num t) = str_eq s t
same_value (str s) (str t) = str_eq s t
same_value _ _ = false

-- Array.from(new Set(values))
unfoldable pub distinct : List Json → List Json
unfolding same_value keep
distinct [] = []
distinct (v ∷ vs) = v ∷ keep (λ w. not (same_value v w)) (distinct vs)

-- PostgrestReservedCharsRegexp.test(s)
abbrev pub is_reserved : ℕ → Bool
is_reserved c = c == b',' || c == b'(' || c == b')'

unfoldable pub has_reserved : Str → Bool
unfolding any
has_reserved s = any is_reserved s

module _ (rt : Runtime) where
  unfoldable pub cleaned : Json → Str
  unfolding has_reserved
  cleaned (str s) = if has_reserved s then codes "\"" ++ (s ++ codes "\"") else rt.text (str s)
  cleaned v = rt.text v

  unfoldable pub cleaned_values : List Json → Str
  unfolding distinct cleaned join
  cleaned_values vs = join (codes ",") (map cleaned (distinct vs))

  unfoldable pub in_list : Str → List Json → Builder → Builder
  in_list column vs = add column (codes "in.(" ++ (cleaned_values vs ++ codes ")"))

  unfoldable pub not_in : Str → List Json → Builder → Builder
  not_in column vs = add column (codes "not.in.(" ++ (cleaned_values vs ++ codes ")"))

  -- value.join(','): null has the empty text.
  abbrev element : Json → Str
  element null = []
  element v = rt.text v

  unfoldable pub elements : Items → List Str
  elements nil = []
  elements (cons v vs) = element v ∷ elements vs

  unfoldable pub array_text : Items → Str
  unfolding elements join
  array_text vs = codes "{" ++ (join (codes ",") (elements vs) ++ codes "}")

  -- A text as it is, an array in braces, and all else as JSON.
  unfoldable pub container_text : Json → Str
  unfolding array_text
  container_text (str s) = s
  container_text (arr vs) = array_text vs
  container_text v = rt.stringify v

  unfoldable pub contains : Str → Json → Builder → Builder
  contains column v = add column (codes "cs." ++ container_text v)

  unfoldable pub contained_by : Str → Json → Builder → Builder
  contained_by column v = add column (codes "cd." ++ container_text v)

  -- `overlaps` takes a text or an array.
  unfoldable pub overlaps : Str → Str ⊎ Items → Builder → Builder
  overlaps column (inl range) = add column (codes "ov." ++ range)
  overlaps column (inr vs) = add column (codes "ov." ++ array_text vs)
