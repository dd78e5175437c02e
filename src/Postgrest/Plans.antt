-- ===== src/Postgrest/Plans.antt =====
-- The calls of a plan of the database proxy (functions/db-proxy/index.ts) made on the query builders of
-- packages/core/postgrest-js/src. A value of JSON where a builder takes an object or a text is read as
-- JavaScript reads it.
pub mod Growth
pub mod Calls
pub mod Ends
pub mod Starts
pub mod Requests
use securesupabase_js.Prelude.{
  ℕ, ◌⊎◌, inl, inr, Bool, true, false, Option, none, some, List, [], ◌∷◌, map, if◌then◌else◌,
}
use mathlib.Core.Option
use securesupabase_js.Js.Text.{Str, codes, str_eq}
use securesupabase_js.Js.Json.{Json, null, str, arr, member, Items}
use securesupabase_js.Edge.E2ee.{is_truthy}
use securesupabase_js.Edge.Query.{Call, Plan, from_table, call_rpc}
use securesupabase_js.Postgrest.Params.{Params}
use securesupabase_js.Postgrest.Types.{Runtime, Builder, Method}
use securesupabase_js.Postgrest.Filters as Filters
use securesupabase_js.Postgrest.Filters.Values as Values
use securesupabase_js.Postgrest.Transforms as Transforms
use securesupabase_js.Postgrest.Query as Query
use securesupabase_js.Postgrest.Query.{QueryBuilder, entries_of}
use securesupabase_js.Postgrest.Client as Connection
use securesupabase_js.Postgrest.Client.{Client}

-- The calls on a value that may be missing.
abbrev pub then_call : Option Builder → (Builder → Option Builder) → Option Builder
then_call none f = none
then_call (some b) f = f b

-- What `overlaps` takes: a text, or a value with `join`.
abbrev pub range_of : Json → Option (Str ⊎ Items)
range_of (str s) = some (inl s)
range_of (arr vs) = some (inr vs)
range_of _ = none

abbrev search_type : Option Json → Option Filters.SearchType
search_type (some (str s)) =
    if str_eq s (codes "plain")
    then some Filters.SearchType.plain
    else if str_eq s (codes "phrase")
    then some Filters.SearchType.phrase
    else if str_eq s (codes "websearch")
    then some Filters.SearchType.websearch
    else none
search_type _ = none

abbrev present : Str × Json → Str × Option Json
present e = (e.0, some e.1)

module _ (rt : Runtime) where
  -- `${table}.or` for a table that is truthy
  abbrev table_of : Option Json → Option Str
  table_of none = none
  table_of (some v) = some (if is_truthy v then rt.text v else [])

  -- A call on a filter builder; `none` is a TypeError.
  unfoldable pub apply_call : Call → Builder → Option Builder
  apply_call (Call.eq c v) b = some (Filters.eq rt c v b)
  apply_call (Call.neq c v) b = some (Filters.neq rt c v b)
  apply_call (Call.gt c v) b = some (Filters.gt rt c v b)
  apply_call (Call.gte c v) b = some (Filters.gte rt c v b)
  apply_call (Call.lt c v) b = some (Filters.lt rt c v b)
  apply_call (Call.lte c v) b = some (Filters.lte rt c v b)
  apply_call (Call.is c v) b = some (Filters.is rt c v b)
  apply_call (Call.contains c v) b = some (Values.contains rt c v b)
  apply_call (Call.contained_by c v) b = some (Values.contained_by rt c v b)
  apply_call (Call.range_gt c v) b = some (Filters.range_gt c (rt.text v) b)
  apply_call (Call.range_gte c v) b = some (Filters.range_gte c (rt.text v) b)
  apply_call (Call.range_lt c v) b = some (Filters.range_lt c (rt.text v) b)
  apply_call (Call.range_lte c v) b = some (Filters.range_lte c (rt.text v) b)
  apply_call (Call.range_adjacent c v) b = some (Filters.range_adjacent c (rt.text v) b)
  apply_call (Call.overlaps c v) b = Option.map (λ r. Values.overlaps rt c r b) (range_of v)
  apply_call (Call.like c s) b = some (Filters.like c s b)
  apply_call (Call.ilike c s) b = some (Filters.ilike c s b)
  apply_call (Call.in_list c vs) b = some (Values.in_list rt c vs b)
  apply_call (Call.text_search c query options) b = some (
      Filters.text_search c query (Option.map rt.text (member (codes "config") options))
        (search_type (member (codes "type") options)) b)
  apply_call (Call.match query) b =
      Option.map (λ entries. Filters.match rt (map present entries) b) (entries_of rt query)
  apply_call (Call.not c operator s) b = some (Filters.not rt c operator (str s) b)
  apply_call (Call.filter c operator s) b = some (Filters.filter rt c operator (str s) b)
  apply_call (Call.or filters options) b = some (
      Filters.or filters (table_of (member (codes "foreignTable") options))
        (table_of (member (codes "referencedTable") options)) b)
  apply_call (Call.select columns) b = some (Transforms.select (some columns) b)
  apply_call (Call.order c ascending nulls_first table) b =
      some (Transforms.order c (some ascending) nulls_first none table b)
  apply_call (Call.limit n) b = some (Transforms.limit rt n none none b)
  apply_call (Call.range from to) b = some (Transforms.range rt from to none none b)
  apply_call Call.single b = some (Transforms.single b)
  apply_call Call.maybe_single b = some (Transforms.maybe_single b)
  apply_call Call.csv b = some (Transforms.csv b)
  apply_call _ b = none

  unfoldable pub apply_calls : List Call → Builder → Option Builder
  apply_calls [] b = some b
  apply_calls (call ∷ calls) b = then_call (apply_call call b) (apply_calls calls)

  -- The call on a query builder that a chain starts with.
  unfoldable pub start_call : Call → QueryBuilder → Option Builder
  start_call (Call.select_with columns count head) q =
      some (Query.select (some columns) (some head) count q)
  start_call (Call.insert values) q = Query.insert rt values none none q
  start_call (Call.update values) q = some (Query.update values none q)
  start_call (Call.upsert values on_conflict) q =
      Query.upsert rt values on_conflict none none none q
  start_call Call.delete q = some (Query.delete none q)
  start_call _ q = none

  abbrev pub start_chain : List Call → QueryBuilder → Option Builder
  start_chain [] q = none
  start_chain (call ∷ calls) q = then_call (start_call call q) (apply_calls calls)

  abbrev pub chain_from : List Call → Option QueryBuilder → Option Builder
  chain_from calls none = none
  chain_from calls (some q) = start_chain calls q

  -- client.schema(schema).from(table).<calls>, or client.schema(schema).rpc(name, args)
  unfoldable pub build : Plan → Client → Option Builder
  build (from_table schema table calls) client =
      chain_from calls (Connection.from table (Connection.schema schema client))
  build (call_rpc schema name args) client =
      Connection.rpc rt name args none none none (Connection.schema schema client)
