-- ===== src/Postgrest/Filters.antt =====
-- packages/core/postgrest-js/src/PostgrestFilterBuilder.ts: each filter appends one search parameter.
pub mod Values
pub mod Lists
pub mod Arrays
use securesupabase_js.Prelude.{
  ℕ, Bool, true, false, Option, none, some, List, [], ◌∷◌, ◌++◌, if◌then◌else◌,
}
use securesupabase_js.Js.Text.{Str, codes, join, truthy, or_option}
use securesupabase_js.Js.Json.{Json, null, bool, num, other_num, str, arr, obj, Items, nil, cons}
use securesupabase_js.Postgrest.Params.{Params, append}
use securesupabase_js.Postgrest.Types.{Runtime, Builder}

-- this.url.searchParams.append(column, text)
unfoldable pub add : Str → Str → Builder → Builder
unfolding append
add column text b = record b { params = append column text b.params }

module _ (rt : Runtime) where
  unfoldable pub eq : Str → Json → Builder → Builder
  eq column v = add column (codes "eq." ++ rt.text v)

  unfoldable pub neq : Str → Json → Builder → Builder
  neq column v = add column (codes "neq." ++ rt.text v)

  unfoldable pub gt : Str → Json → Builder → Builder
  gt column v = add column (codes "gt." ++ rt.text v)

  unfoldable pub gte : Str → Json → Builder → Builder
  gte column v = add column (codes "gte." ++ rt.text v)

  unfoldable pub lt : Str → Json → Builder → Builder
  lt column v = add column (codes "lt." ++ rt.text v)

  unfoldable pub lte : Str → Json → Builder → Builder
  lte column v = add column (codes "lte." ++ rt.text v)

  unfoldable pub is : Str → Json → Builder → Builder
  is column v = add column (codes "is." ++ rt.text v)

  unfoldable pub is_distinct : Str → Json → Builder → Builder
  is_distinct column v = add column (codes "isdistinct." ++ rt.text v)

  unfoldable pub not : Str → Str → Json → Builder → Builder
  not column operator v = add column (codes "not." ++ (operator ++ (codes "." ++ rt.text v)))

  unfoldable pub filter : Str → Str → Json → Builder → Builder
  filter column operator v = add column (operator ++ (codes "." ++ rt.text v))

  -- The entries of a query whose value is not `undefined`.
  unfoldable pub match : List (Str × Option Json) → Builder → Builder
  unfolding eq
  match [] b = b
  match ((column, none) ∷ query) b = match query b
  match ((column, some v) ∷ query) b = match query (eq column v b)

unfoldable pub like : Str → Str → Builder → Builder
like column pattern_ = add column (codes "like." ++ pattern_)

unfoldable pub ilike : Str → Str → Builder → Builder
ilike column pattern_ = add column (codes "ilike." ++ pattern_)

unfoldable pub regex_match : Str → Str → Builder → Builder
regex_match column pattern_ = add column (codes "match." ++ pattern_)

unfoldable pub regex_i_match : Str → Str → Builder → Builder
regex_i_match column pattern_ = add column (codes "imatch." ++ pattern_)

unfoldable pub range_gt : Str → Str → Builder → Builder
range_gt column pattern_ = add column (codes "sr." ++ pattern_)

unfoldable pub range_gte : Str → Str → Builder → Builder
range_gte column pattern_ = add column (codes "nxl." ++ pattern_)

unfoldable pub range_lt : Str → Str → Builder → Builder
range_lt column pattern_ = add column (codes "sl." ++ pattern_)

unfoldable pub range_lte : Str → Str → Builder → Builder
range_lte column pattern_ = add column (codes "nxr." ++ pattern_)

unfoldable pub range_adjacent : Str → Str → Builder → Builder
range_adjacent column pattern_ = add column (codes "adj." ++ pattern_)

unfoldable pub like_all_of : Str → List Str → Builder → Builder
like_all_of column patterns =
    add column (codes "like(all).{" ++ (join (codes ",") patterns ++ codes "}"))

unfoldable pub like_any_of : Str → List Str → Builder → Builder
like_any_of column patterns =
    add column (codes "like(any).{" ++ (join (codes ",") patterns ++ codes "}"))

unfoldable pub ilike_all_of : Str → List Str → Builder → Builder
ilike_all_of column patterns =
    add column (codes "ilike(all).{" ++ (join (codes ",") patterns ++ codes "}"))

unfoldable pub ilike_any_of : Str → List Str → Builder → Builder
ilike_any_of column patterns =
    add column (codes "ilike(any).{" ++ (join (codes ",") patterns ++ codes "}"))

pub data SearchType : Type 0 where
  plain phrase websearch : SearchType

abbrev type_part : Option SearchType → Str
type_part none = []
type_part (some SearchType.plain) = codes "pl"
type_part (some SearchType.phrase) = codes "ph"
type_part (some SearchType.websearch) = codes "w"

abbrev config_part : Option Str → Str
config_part none = []
config_part (some config) = codes "(" ++ (config ++ codes ")")

unfoldable pub text_search : Str → Str → Option Str → Option SearchType → Builder → Builder
text_search column query config type =
    add column (type_part type ++ (codes "fts" ++ (config_part config ++ (codes "." ++ query))))

abbrev or_key : Option Str → Str
or_key none = codes "or"
or_key (some referenced_table) = referenced_table ++ codes ".or"

unfoldable pub or : Str → (foreign_table referenced_table : Option Str) → Builder → Builder
or filters foreign_table referenced_table =
    add (or_key (truthy (or_option referenced_table foreign_table)))
      (codes "(" ++ (filters ++ codes ")"))
