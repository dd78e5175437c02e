-- ===== src/Client/DbProxy.antt =====
-- SecureDbProxy.ts: the query builder gathers a request, which `execute` sends to the database
-- proxy. A builder is mutable; each method here returns the new request. The
-- methods that push a filter are in DbProxy/Chain.antt.
pub mod Chain
pub mod Plan
pub mod Fields
pub mod Delivery
pub mod Execute
mod Examples
use securesupabase_js.Prelude.{
  ℕ, Bool, true, false, Option, none, some, List, [], ◌∷◌, ◌++◌, if◌then◌else◌,
}
use securesupabase_js.Js.Text.{Str, codes, or_else}
use securesupabase_js.Js.Json.{Json, bool, str, member}
use securesupabase_js.Edge.Query.{
  Op, Filter, Action, Single, Format, Count, Order, TableRequest, RpcRequest, DbRequest, table, rpc,
}

-- pushFilter
unfoldable pub push_filter : TableRequest → Filter → TableRequest
push_filter request f = record request { filters = some (or_else request.filters [] ++ f ∷ []) }

abbrev pub plain_filter : Op → Str → Json → Filter
plain_filter op column v = record {
  op = op;
  column = column;
  value = some v;
  values = none;
  config = none;
  operator = none;
}

unfoldable pub order : TableRequest → Order → TableRequest
order request o = record request { order_by = some (or_else request.order_by [] ++ o ∷ []) }

unfoldable pub limit : TableRequest → ℕ → TableRequest
limit request n = record request { limit = some n }

unfoldable pub range : TableRequest → ℕ → ℕ → TableRequest
range request from to = record request { range = some (from, to) }

unfoldable pub single : TableRequest → TableRequest
single request = record request { single = some Single.single }

unfoldable pub maybe_single : TableRequest → TableRequest
maybe_single request = record request { single = some Single.maybe_single }

unfoldable pub csv : TableRequest → TableRequest
csv request = record request { format = some Format.csv }

unfoldable pub select_columns : TableRequest → Str → TableRequest
select_columns request columns = record request { select = some columns }

-- The requests that `SecureTableClient` starts with.
abbrev pub blank : Option Str → Str → Action → TableRequest
blank schema name action = record {
  schema = schema;
  table = name;
  action = action;
  select = none;
  filters = none;
  order_by = none;
  limit = none;
  range = none;
  single = none;
  format = none;
  count = none;
  head = none;
  values = none;
  on_conflict = none;
}

unfoldable pub start_select : Option Str → Str → Str → Option Count → Option Bool → TableRequest
start_select schema name columns count head = record (blank schema name Action.select) {
  select = some columns;
  count = count;
  head = head;
}

unfoldable pub start_insert : Option Str → Str → Json → TableRequest
start_insert schema name values = record (blank schema name Action.insert) { values = some values }

unfoldable pub start_update : Option Str → Str → Json → TableRequest
start_update schema name values = record (blank schema name Action.update) { values = some values }

unfoldable pub start_delete : Option Str → Str → TableRequest
start_delete schema name = blank schema name Action.delete

unfoldable pub start_upsert : Option Str → Str → Json → Option Str → TableRequest
start_upsert schema name values on_conflict = record (blank schema name Action.upsert) {
  values = some values;
  on_conflict = on_conflict;
}
