-- ===== src/Realtime/Transformers.antt =====
-- packages/core/realtime-js/src/lib/transformers.ts; httpEndpointURL is in Endpoint.antt. `parseFloat` and
-- `JSON.parse` are the runtime's.
pub mod Cells
use securesupabase_js.Prelude.{
  ℕ, Bool, true, false, not, ◌&&◌, ◌==◌, Option, none, some, List, [], ◌∷◌, ◌++◌, map,
  if◌then◌else◌,
}
use securesupabase_js.Js.Text.{Str, codes, str_eq, has, split, replace_first, truthy}
use securesupabase_js.Js.Json.{Json, null, bool, str, arr, obj, Items, nil, cons, items}

-- `parseFloat`, with `none` for `NaN`, and `JSON.parse`, with `none` where it throws.
pub record Runtime : Type 0 where
  pub parse_float : Str → Option Json
  pub parse_json : Str → Option Json

-- The members that the conversion reads.
pub record Column : Type 0 where
  pub name : Str
  pub type : Str

-- The entries of an object of values, in order.
abbrev pub Record : Type 0
Record = List (Str × Json)

unfoldable pub to_boolean : Json → Json
unfolding str_eq
to_boolean (str s) =
    if str_eq s (codes "t") then bool true else if str_eq s (codes "f") then bool false else str s
to_boolean v = v

abbrev pub result_or : Option Json → Json → Json
result_or none v = v
result_or (some w) v = w

unfoldable pub to_number : Runtime → Json → Json
to_number rt (str s) = result_or (rt.parse_float s) (str s)
to_number rt v = v

unfoldable pub to_json : Runtime → Json → Json
to_json rt (str s) = result_or (rt.parse_json s) (str s)
to_json rt v = v

unfoldable pub to_timestamp_string : Json → Json
unfolding replace_first
to_timestamp_string (str s) = str (replace_first s (codes " ") (codes "T"))
to_timestamp_string v = v

-- The text up to a brace at its end.
unfoldable pub before_brace : Str → Option Str
before_brace [] = none
before_brace (c ∷ []) = if c == b'}' then some [] else none
before_brace (c ∷ d ∷ s) = elim (before_brace (d ∷ s)) [
  | none ↦ none
  | some inner ↦ some (c ∷ inner)
]

-- `value.slice(1, lastIdx)` of a text in braces
unfoldable pub inside_braces : Str → Option Str
unfolding before_brace
inside_braces [] = none
inside_braces (c ∷ s) = if c == b'{' then before_brace s else none

-- What `JSON.parse` makes of a text in brackets is an array.
abbrev pub elements : Json → Items
elements (arr vs) = vs
elements _ = nil

-- valTrim ? valTrim.split(',') : []
abbrev pub parts : Str → Items
parts [] = nil
parts (c ∷ s) = items (map str (split b',' (c ∷ s)))

unfoldable pub array_items : Runtime → Str → Items
unfolding split
array_items rt inner = elim (rt.parse_json (b'[' ∷ (inner ++ b']' ∷ []))) [
  | some v ↦ elements v
  | none ↦ parts inner
]

unfoldable pub map_items : (Json → Json) → Items → Items
map_items f nil = nil
map_items f (cons v vs) = cons (f v) (map_items f vs)

-- toArray, with the conversion of its elements
unfoldable pub to_array : Runtime → (Json → Json) → Json → Json
unfolding inside_braces array_items map_items
to_array rt convert (str s) = elim (inside_braces s) [
  | none ↦ str s
  | some inner ↦ arr (map_items convert (array_items rt inner))
]
to_array rt convert v = v

abbrev pub number_types : List Str
number_types =
    codes "float4"
    ∷ codes "float8"
    ∷ codes "int2"
    ∷ codes "int4"
    ∷ codes "int8"
    ∷ codes "numeric"
    ∷ codes "oid"
    ∷ []

-- The values of PostgresTypes.
abbrev pub postgres_types : List Str
postgres_types =
    codes "abstime"
    ∷ codes "bool"
    ∷ codes "date"
    ∷ codes "daterange"
    ∷ codes "float4"
    ∷ codes "float8"
    ∷ codes "int2"
    ∷ codes "int4"
    ∷ codes "int4range"
    ∷ codes "int8"
    ∷ codes "int8range"
    ∷ codes "json"
    ∷ codes "jsonb"
    ∷ codes "money"
    ∷ codes "numeric"
    ∷ codes "oid"
    ∷ codes "reltime"
    ∷ codes "text"
    ∷ codes "time"
    ∷ codes "timestamp"
    ∷ codes "timestamptz"
    ∷ codes "timetz"
    ∷ codes "tsrange"
    ∷ codes "tstzrange"
    ∷ []

-- The `switch`; the types that it names and leaves alone are those of its default.
unfoldable pub convert_scalar : Runtime → Str → Json → Json
unfolding str_eq has to_boolean to_number to_json to_timestamp_string
convert_scalar rt type v =
    if str_eq type (codes "bool")
    then to_boolean v
    else if has number_types type
    then to_number rt v
    else if str_eq type (codes "json")
    then to_json rt v
    else if str_eq type (codes "jsonb")
    then to_json rt v
    else if str_eq type (codes "timestamp")
    then to_timestamp_string v
    else v

unfoldable pub convert_cell : Runtime → Str → Json → Json
unfolding convert_scalar to_array
convert_cell rt [] v = v
convert_cell rt (c ∷ type) v =
    let element : Json → Json = convert_cell rt type in
    if c == b'_' then to_array rt element v else convert_scalar rt (c ∷ type) v

-- columns.find((x) => x.name === columnName)?.type
unfoldable pub type_of : Str → List Column → Option Str
unfolding str_eq
type_of name [] = none
type_of name (column ∷ columns) =
    if str_eq column.name name then some column.type else type_of name columns

-- record[columnName]
unfoldable pub value_of : Str → Record → Option Json
unfolding str_eq
value_of name [] = none
value_of name ((k, v) ∷ entries) = if str_eq k name then some v else value_of name entries

abbrev pub converted : Runtime → Str → Option Json → Option Json
converted rt type none = none
converted rt type (some v) = some (convert_cell rt type v)

-- A type that is the empty text counts as missing.
abbrev pub column_type : Option Str → Option Str
column_type none = none
column_type (some type) = truthy (some type)

-- `none` is `undefined`, which the conversions leave alone.
unfoldable pub convert_column : Runtime → Str → List Column → Record → List Str → Option Json
unfolding type_of value_of convert_cell has
convert_column rt name columns entries skip_types = elim (column_type (type_of name columns)) [
  | none ↦ value_of name entries
  | some type ↦
      if has skip_types type
      then value_of name entries
      else converted rt type (value_of name entries)
]

unfoldable pub convert_change_data :
    Runtime → List Column → Option Record → Option (List Str) → List (Str × Option Json)
unfolding convert_column
convert_change_data rt columns none skip_types = []
convert_change_data rt columns (some entries) skip_types =
    map
      (λ e. (
        e.0,
        convert_column rt e.0 columns entries (elim skip_types [ none ↦ [] | some types ↦ types ]),
      ))
      entries
