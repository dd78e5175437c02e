-- ===== src/Realtime/Transformers/Cells.antt =====
-- What the conversion of cells does to texts, arrays and all other values.
use securesupabase_js.Prelude.{
  ℕ, ◌≡◌, ◌∙◌, refl, ap, Bool, true, false, ◌==◌, Option, none, some, List, [], ◌∷◌, ◌++◌, map, any,
  All, if◌then◌else◌, Bool-cases, inl, inr,
}
use securesupabase_js.Js.Text.{Str, codes, str_eq, has, split, join, nonempty}
use securesupabase_js.Js.Text.Laws.{Without, split-join, str_eq_iff}
use securesupabase_js.Js.Json.{Json, null, bool, num, other_num, str, arr, obj, cons, items}
use securesupabase_js.Realtime.Transformers.{
  Runtime, Column, Record, to_boolean, to_number, to_json, to_timestamp_string, before_brace,
  inside_braces, parts, array_items, map_items, to_array, number_types, postgres_types,
  convert_scalar, convert_cell, type_of, value_of, column_type, converted, convert_column,
  convert_change_data,
}

abbrev pub is_text : Json → Bool
is_text (str s) = true
is_text _ = false

if-same : (b : Bool) (v : Json) → (if b then v else v) ≡ v
if-same true v = refl
if-same false v = refl

convert_scalar-other :
    (rt : Runtime) (type : Str) (v : Json) → is_text v ≡ false → convert_scalar rt type v ≡ v
unfolding convert_scalar to_boolean to_number to_json to_timestamp_string
convert_scalar-other rt type (str s) h = cc
convert_scalar-other rt type null h = simp if-same
convert_scalar-other rt type (bool b) h = simp if-same
convert_scalar-other rt type (num n) h = simp if-same
convert_scalar-other rt type (other_num s) h = simp if-same
convert_scalar-other rt type (arr vs) h = simp if-same
convert_scalar-other rt type (obj fields) h = simp if-same

absent :
    (t type : Str)
    → has postgres_types t ≡ true
    → has postgres_types type ≡ false
    → (str_eq type t ≡ false) × (str_eq t type ≡ false)
absent t type known unknown = (
  elim (Bool-cases (str_eq type t)) [
    | inl same ↦ let e : type ≡ t = (str_eq_iff type t).0 same in cc
    | inr differ ↦ differ
  ],
  elim (Bool-cases (str_eq t type)) [
    | inl same ↦ let e : t ≡ type = (str_eq_iff t type).0 same in cc
    | inr differ ↦ differ
  ],
)

no_number : (type : Str) → has postgres_types type ≡ false → has number_types type ≡ false
unfolding has any str_eq
no_number type h =
    rw
      (
        (absent (codes "float4") type refl h).1,
        (absent (codes "float8") type refl h).1,
        (absent (codes "int2") type refl h).1,
        (absent (codes "int4") type refl h).1,
        (absent (codes "int8") type refl h).1,
        (absent (codes "numeric") type refl h).1,
        (absent (codes "oid") type refl h).1,
      )
      refl

-- A type that is none of PostgresTypes, and no array, leaves the value as it is.
convert_cell-unknown :
    (rt : Runtime) (c : ℕ) (type : Str) (v : Json)
    → (c == b'_') ≡ false
    → has postgres_types (c ∷ type) ≡ false
    → convert_cell rt (c ∷ type) v ≡ v
unfolding convert_cell convert_scalar
convert_cell-unknown rt c type v plain unknown = rw (
  plain,
  no_number (c ∷ type) unknown,
  (absent (codes "bool") (c ∷ type) (unfold has any str_eq in refl) unknown).0,
  (absent (codes "json") (c ∷ type) (unfold has any str_eq in refl) unknown).0,
  (absent (codes "jsonb") (c ∷ type) (unfold has any str_eq in refl) unknown).0,
  (absent (codes "timestamp") (c ∷ type) (unfold has any str_eq in refl) unknown).0,
)

to_array-other :
    (rt : Runtime) (convert : Json → Json) (v : Json)
    → is_text v ≡ false
    → to_array rt convert v ≡ v
unfolding to_array
to_array-other rt convert (str s) h = cc
to_array-other rt convert null h = refl
to_array-other rt convert (bool b) h = refl
to_array-other rt convert (num n) h = refl
to_array-other rt convert (other_num s) h = refl
to_array-other rt convert (arr vs) h = refl
to_array-other rt convert (obj fields) h = refl

-- A value that is no text, null among them, is left as it is, whatever the type of its column.
convert_cell-other :
    (rt : Runtime) (type : Str) (v : Json) → is_text v ≡ false → convert_cell rt type v ≡ v
unfolding convert_cell
convert_cell-other rt [] v h = refl
convert_cell-other rt (c ∷ type) v h =
    rw (to_array-other rt (convert_cell rt type) v h, convert_scalar-other rt (c ∷ type) v h)
      (if-same _ v)

before_brace-append : (s : Str) → before_brace (s ++ b'}' ∷ []) ≡ some s
unfolding before_brace
before_brace-append [] = refl
before_brace-append (c ∷ []) = refl
before_brace-append (c ∷ d ∷ s) = rw (before_brace-append (d ∷ s)) refl

map_items-items : (f : Json → Json) (vs : List Json) → map_items f (items vs) ≡ items (map f vs)
unfolding map_items
map_items-items f [] = refl
map_items-items f (v ∷ vs) = ap (λ us. cons (f v) us) (map_items-items f vs)

parts-nonempty : (s : Str) → nonempty s ≡ true → parts s ≡ items (map str (split b',' s))
parts-nonempty [] h = cc
parts-nonempty (c ∷ s) h = refl

-- The text of an array: its elements with commas between them, in braces.
abbrev pub array_text : List Str → Str
array_text elements = b'{' ∷ (join (b',' ∷ []) elements ++ b'}' ∷ [])

to_array-braces :
    (rt : Runtime) (convert : Json → Json) (inner : Str)
    → to_array rt convert (str (b'{' ∷ (inner ++ b'}' ∷ [])))
      ≡ arr (map_items convert (array_items rt inner))
unfolding to_array inside_braces
to_array-braces rt convert inner = rw (to_array, before_brace-append inner) refl

array_items-parts :
    (rt : Runtime) (inner : Str)
    → rt.parse_json (b'[' ∷ (inner ++ b']' ∷ [])) ≡ none
    → nonempty inner ≡ true
    → array_items rt inner ≡ items (map str (split b',' inner))
unfolding array_items
array_items-parts rt inner unparsed filled =
    rw (array_items, unparsed) (parts-nonempty inner filled)

convert_cell-underscore :
    (rt : Runtime) (type : Str) (v : Json)
    → convert_cell rt (b'_' ∷ type) v ≡ to_array rt (convert_cell rt type) v
unfolding convert_cell
convert_cell-underscore rt type v = refl

map-map : (f : Json → Json) (ss : List Str) → map f (map str ss) ≡ map (λ s. f (str s)) ss
map-map f [] = refl
map-map f (s ∷ ss) = ap (λ vs. f (str s) ∷ vs) (map-map f ss)

-- An array of texts without commas, with a text between its braces that JSON does not parse, is
-- read element by element: each is converted by the type of the elements.
pub convert_cell-array :
    (rt : Runtime) (type first : Str) (rest : List Str)
    → All (Without b',') (first ∷ rest)
    → nonempty (join (b',' ∷ []) (first ∷ rest)) ≡ true
    → rt.parse_json (b'[' ∷ (join (b',' ∷ []) (first ∷ rest) ++ b']' ∷ [])) ≡ none
    → convert_cell rt (b'_' ∷ type) (str (array_text (first ∷ rest)))
      ≡ arr (items (map (λ s. convert_cell rt type (str s)) (first ∷ rest)))
convert_cell-array rt type first rest separate filled unparsed =
    let inner = join (b',' ∷ []) (first ∷ rest) in
    convert_cell-underscore rt type _
    ∙ to_array-braces rt (convert_cell rt type) inner
    ∙ rw
        (
          array_items-parts rt inner unparsed filled,
          split-join b',' first rest separate,
          map_items-items (convert_cell rt type) (map str (first ∷ rest)),
        )
        (ap (λ vs. arr (items vs)) (map-map (convert_cell rt type) (first ∷ rest)))

convert_column-skipped :
    (rt : Runtime) (name : Str) (columns : List Column) (entries : Record) (skip_types : List Str)
    → All (λ (column : Column). has skip_types column.type ≡ true) columns
    → convert_column rt name columns entries skip_types ≡ value_of name entries
unfolding convert_column type_of
convert_column-skipped rt name [] entries skip_types h = refl
convert_column-skipped rt name (column ∷ columns) entries skip_types (h, hs) =
    elim (Bool-cases (str_eq column.name name)) [
      | inl same ↦ rw (convert_column, same) (by_type column.type h)
      | inr differ ↦
          rw (convert_column, differ) (convert_column-skipped rt name columns entries skip_types hs)
    ]
  where
    by_type :
        (type : Str)
        → has skip_types type ≡ true
        → (elim (column_type (some type)) [
          | none ↦ value_of name entries
          | some t ↦
              if has skip_types t
              then value_of name entries
              else converted rt t (value_of name entries)
        ])
          ≡ value_of name entries
    by_type [] k = refl
    by_type (c ∷ s) k = rw k refl

abbrev kept : Record → Str × Json → Str × Option Json
kept entries e = (e.0, value_of e.0 entries)

-- A change whose columns all have types to skip keeps every value.
convert_change_data-skipped :
    (rt : Runtime) (columns : List Column) (entries : Record) (skip_types : List Str)
    → All (λ (column : Column). has skip_types column.type ≡ true) columns
    → convert_change_data rt columns (some entries) (some skip_types) ≡ map (kept entries) entries
unfolding convert_change_data
convert_change_data-skipped rt columns entries skip_types h = go entries
  where
    read : Str × Json → Str × Option Json
    read e = (e.0, convert_column rt e.0 columns entries skip_types)

    go : (es : Record) → map (read) es ≡ map (kept entries) es
    go [] = refl
    go (e ∷ es) = rw (read, convert_column-skipped rt e.0 columns entries skip_types h, go es) refl
