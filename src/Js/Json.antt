-- ===== src/Js/Json.antt =====
-- The values of `JSON.parse`, which are also the values of type `unknown` that the source passes on.
-- A number that is no nonnegative integer is kept as the text of its literal.
use securesupabase_js.Prelude.{ℕ, Bool, Option, none, some, List, [], ◌∷◌, if◌then◌else◌}
use securesupabase_js.Js.Text.{Str, str_eq}

mutual
  pub data Json : Type 0 where
    null : Json
    bool : Bool → Json
    num : ℕ → Json
    other_num : Str → Json
    str : Str → Json
    arr : Items → Json
    obj : Fields → Json

  pub data Items : Type 0 where
    nil : Items
    cons : Json → Items → Items

  pub data Fields : Type 0 where
    end : Fields
    field : Str → Json → Fields → Fields

abbrev pub items : List Json → Items
items [] = nil
items (v ∷ vs) = cons v (items vs)

-- o.name, where a name that occurs twice has its last value
abbrev pub later : Option Json → Option Json → Option Json
later none first = first
later (some v) first = some v

unfoldable pub get : Str → Fields → Option Json
unfolding str_eq
get name end = none
get name (field k v rest) =
    let found = get name rest in later found (if str_eq k name then some v else none)

-- value.name for any value: `undefined` where it is no object
abbrev pub member : Str → Json → Option Json
member name (obj fields) = get name fields
member name _ = none

-- { key: value }
abbrev pub object1 : Str → Json → Json
object1 k v = obj (field k v end)

abbrev pub object2 : Str → Json → Str → Json → Json
object2 k v j w = obj (field k v (field j w end))
