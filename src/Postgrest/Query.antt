-- ===== src/Postgrest/Query.antt =====
-- packages/core/postgrest-js/src/PostgrestQueryBuilder.ts. Each method copies the URL and the headers,
-- so that a builder stays as it is.
use securesupabase_js.Prelude.{
  ℕ, suc, Bool, true, false, not, Option, none, some, List, [], ◌∷◌, ◌++◌, map, keep, if◌then◌else◌,
}
use securesupabase_js.Js.Text.{Str, codes, join, str_eq, or_else}
use securesupabase_js.Js.Json.{Json, null, num, str, arr, obj, Items, nil, cons, Fields, end, field}
use securesupabase_js.Edge.Query.{Count, exact, planned, estimated}
use securesupabase_js.Postgrest.Params.{Params, Headers, append, set}
use securesupabase_js.Postgrest.Types.{Runtime, Builder, Method}
use securesupabase_js.Postgrest.Transforms.{cleaned_columns, set_param, prefer}

-- The members of `PostgrestQueryBuilder`.
pub record QueryBuilder : Type 0 where
  pub address : Str
  pub params : Params
  pub headers : Headers
  pub schema : Option Str
  pub url_length_limit : ℕ

-- new PostgrestFilterBuilder({ method, url, headers, … })
abbrev pub filter_builder : QueryBuilder → Method → Option Json → Builder
filter_builder q method body = record {
  method = method;
  address = q.address;
  params = q.params;
  headers = q.headers;
  schema = q.schema;
  body = body;
  should_throw_on_error = false;
  is_maybe_single = false;
  url_length_limit = q.url_length_limit;
}

abbrev pub count_text : Count → Str
count_text exact = codes "count=exact"
count_text planned = codes "count=planned"
count_text estimated = codes "count=estimated"

abbrev pub prefer_count : Option Count → Builder → Builder
prefer_count none b = b
prefer_count (some count) b = prefer (count_text count) b

abbrev prefer_default : (default_to_null : Option Bool) → Builder → Builder
prefer_default default_to_null b =
    if or_else default_to_null true then b else prefer (codes "missing=default") b

unfoldable pub select : Option Str → (head : Option Bool) → Option Count → QueryBuilder → Builder
unfolding cleaned_columns set append
select columns head count q = prefer_count count (
    set_param (codes "select") (cleaned_columns columns)
      (filter_builder q (if or_else head false then Method.head else Method.get) none))

module _ (rt : Runtime) where
  item_entries : ℕ → Items → List (Str × Json)
  item_entries i nil = []
  item_entries i (cons v vs) = (rt.text (num i), v) ∷ item_entries (suc i) vs

  unit_entries : ℕ → Str → List (Str × Json)
  unit_entries i [] = []
  unit_entries i (c ∷ s) = (rt.text (num i), str (c ∷ [])) ∷ unit_entries (suc i) s

  field_entries : Fields → List (Str × Json)
  field_entries end = []
  field_entries (field k v rest) = (k, v) ∷ field_entries rest

  -- Object.entries(value), which throws at null. The names of an object are distinct.
  unfoldable pub entries_of : Json → Option (List (Str × Json))
  unfolding item_entries unit_entries field_entries
  entries_of null = none
  entries_of (obj fields) = some (field_entries fields)
  entries_of (arr vs) = some (item_entries 0 vs)
  entries_of (str s) = some (unit_entries 0 s)
  entries_of _ = some []

  -- values.reduce((acc, x) => acc.concat(Object.keys(x)), [])
  unfoldable pub columns_of : Items → Option (List Str)
  unfolding entries_of
  columns_of nil = some []
  columns_of (cons v vs) = elim (entries_of v) [
    | none ↦ none
    | some entries ↦ elim (columns_of vs) [
      | none ↦ none
      | some columns ↦ some (map (λ (e : Str × Json). e.0) entries ++ columns)
    ]
  ]

  -- [...new Set(columns)]
  unfoldable pub unique_columns : List Str → List Str
  unfolding keep str_eq
  unique_columns [] = []
  unique_columns (s ∷ ss) = s ∷ keep (λ t. not (str_eq s t)) (unique_columns ss)

  abbrev quoted : Str → Str
  quoted column = codes "\"" ++ (column ++ codes "\"")

  set_columns : List Str → Builder → Builder
  unfolding unique_columns join set
  set_columns [] b = b
  set_columns (c ∷ columns) b =
      set_param (codes "columns") (join (codes ",") (map quoted (unique_columns (c ∷ columns)))) b

  -- The parameter `columns` of an array of rows; `none` is a TypeError.
  unfoldable pub with_columns : Json → Builder → Option Builder
  unfolding columns_of set_columns
  with_columns (arr vs) b = elim (columns_of vs) [
    | none ↦ none
    | some columns ↦ some (set_columns columns b)
  ]
  with_columns _ b = some b

  unfoldable pub insert :
      Json → Option Count → (default_to_null : Option Bool) → QueryBuilder → Option Builder
  unfolding with_columns append
  insert values count default_to_null q = with_columns values (
      prefer_default default_to_null
        (prefer_count count (filter_builder q Method.post (some values))))

  abbrev resolution : (ignore_duplicates : Option Bool) → Str
  resolution ignore_duplicates =
      if or_else ignore_duplicates false
      then codes "resolution=ignore-duplicates"
      else codes "resolution=merge-duplicates"

  abbrev set_conflict : Option Str → Builder → Builder
  set_conflict none b = b
  set_conflict (some columns) b = set_param (codes "on_conflict") columns b

  unfoldable pub upsert :
      Json
      → (on_conflict : Option Str) (ignore_duplicates : Option Bool) (count : Option Count)
        (default_to_null : Option Bool)
      → QueryBuilder
      → Option Builder
  unfolding with_columns append set
  upsert values on_conflict ignore_duplicates count default_to_null q = with_columns values (
      prefer_default default_to_null (
        prefer_count count (
          set_conflict on_conflict
            (prefer (resolution ignore_duplicates) (filter_builder q Method.post (some values))))))

unfoldable pub update : Json → Option Count → QueryBuilder → Builder
unfolding append
update values count q = prefer_count count (filter_builder q Method.patch (some values))

unfoldable pub delete : Option Count → QueryBuilder → Builder
unfolding append
delete count q = prefer_count count (filter_builder q Method.delete none)
