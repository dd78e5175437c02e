-- ===== src/Edge/DbProxy/Operations.antt =====
-- functions/db-proxy/index.ts: `runTableOperation` and `runRpcOperation`.
use securesupabase_js.Prelude.{
  ℕ, zero, suc, Bool, true, false, Option, none, some, List, [], ◌∷◌, ◌++◌, if◌then◌else◌,
}
use securesupabase_js.Js.Text.{Str, codes, truthy, or_else}
use securesupabase_js.Js.Json.{Json, obj, end}
use securesupabase_js.Edge.Types.{Backend, Client, QueryResult, rows, error, queried}
use securesupabase_js.Edge.Query.{
  Action, Single, Format, Order, TableRequest, RpcRequest, Call, Plan, from_table, call_rpc,
}
use securesupabase_js.Edge.Effects.{Run, pure, throw, await, ◌>>=◌, ◌>>◌}
use securesupabase_js.Edge.DbProxy.Guards.{parse_csv_allowlist, assert_allowed, assert_identifier}
use securesupabase_js.Edge.DbProxy.Filters.{json_or, apply_filters}

abbrev pub result_of : QueryResult → Run Json
result_of (rows found) = pure found
result_of (error message) = throw message

-- `const { data, error } = await query; if (error) throw error; return data`
unfoldable pub run_plan : Backend → Client → Plan → Run Json
run_plan be client plan = do
  result ← await (queried client plan) (λ t. be.run_query t client plan)
  result_of result

-- `req.select ? builder.select(req.select) : builder`
abbrev pub returning : Option Str → List Call → List Call
returning columns query = elim (truthy columns) [
  | none ↦ query
  | some c ↦ query ++ Call.select c ∷ []
]

-- The start of the chain; insertions and upserts end with it.
unfoldable pub first_calls : TableRequest → List Call
first_calls req = elim req.action [
  | Action.insert ↦ returning req.select (Call.insert (json_or req.values (obj end)) ∷ [])
  | Action.upsert ↦
      returning req.select
        (Call.upsert (json_or req.values (obj end)) (truthy req.on_conflict) ∷ [])
  | Action.select ↦
      Call.select_with (or_else req.select (codes "*")) req.count (or_else req.head false) ∷ []
  | Action.update ↦ returning req.select (Call.update (json_or req.values (obj end)) ∷ [])
  | Action.delete ↦ returning req.select (Call.delete ∷ [])
]

abbrev pub order_call : Str → Order → Call
order_call column order =
    Call.order column (or_else order.ascending true) order.nulls_first order.referenced_table

unfoldable pub apply_orders : List Call → List Order → Run (List Call)
apply_orders query [] = pure query
apply_orders query (order ∷ orders) = do
  column ← assert_identifier order.column (codes "Invalid orderBy column")
  apply_orders (query ++ order_call column order ∷ []) orders

-- `if (req.limit)`: zero is falsy.
abbrev pub limit_calls : Option ℕ → List Call
limit_calls none = []
limit_calls (some zero) = []
limit_calls (some (suc n)) = Call.limit (suc n) ∷ []

abbrev pub range_calls : Option (ℕ × ℕ) → List Call
range_calls none = []
range_calls (some (from, to)) = Call.range from to ∷ []

-- The end of the chain: one row, at most one row, CSV, or all rows.
abbrev pub last_calls : Option Single → Option Format → List Call
last_calls (some Single.single) format = Call.single ∷ []
last_calls (some Single.maybe_single) format = Call.maybe_single ∷ []
last_calls none (some Format.csv) = Call.csv ∷ []
last_calls none (some Format.json) = []
last_calls none none = []

abbrev pub is_final : Action → Bool
is_final Action.insert = true
is_final Action.upsert = true
is_final Action.select = false
is_final Action.update = false
is_final Action.delete = false

unfoldable pub schema_name : Backend → Option Str → Str
schema_name be requested =
    or_else requested (or_else be.env.db_proxy_default_schema (codes "public"))

unfoldable pub run_table_operation : Backend → TableRequest → Client → Run Json
run_table_operation be req client = do
  let schema : Str = schema_name be req.schema
  assert_allowed schema (parse_csv_allowlist be.env.db_proxy_allowed_schemas)
      (codes "schema is not allowed")
  table ← assert_identifier req.table (codes "Invalid table")
  assert_allowed table (parse_csv_allowlist be.env.db_proxy_allowed_tables)
      (codes "table is not allowed")
  if is_final req.action
      then run_plan be client (from_table schema table (first_calls req))
      else (do
        filtered ←
            apply_filters be (first_calls req) req.filters
              (parse_csv_allowlist be.env.db_proxy_allowed_operators)
        ordered ← apply_orders filtered (or_else req.order_by [])
        run_plan be client (
            from_table schema table (
              ordered
              ++ (limit_calls req.limit
                  ++ (range_calls req.range ++ last_calls req.single req.format)))))

unfoldable pub run_rpc_operation : Backend → RpcRequest → Client → Run Json
run_rpc_operation be req client = do
  let schema : Str = schema_name be req.schema
  assert_allowed schema (parse_csv_allowlist be.env.db_proxy_allowed_schemas)
      (codes "schema is not allowed")
  name ← assert_identifier req.name (codes "Invalid rpc name")
  assert_allowed name (parse_csv_allowlist be.env.db_proxy_allowed_rpcs)
      (codes "rpc is not allowed")
  run_plan be client (call_rpc schema name (json_or req.args (obj end)))
