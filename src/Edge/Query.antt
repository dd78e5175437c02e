-- ===== src/Edge/Query.antt =====
-- The requests that the database proxy accepts, and the chain of query-builder calls that it makes
-- on the client of the vendored SDK. That client is not part of the functions: a chain is kept as
-- data, and what the database answers is a parameter.
use securesupabase_js.Prelude.{ℕ, Bool, Option, List}
use securesupabase_js.Js.Text.{Str}
use securesupabase_js.Js.Json.{Json}

-- The values of `filter.op`.
pub data Op : Type 0 where
  eq neq gt gte lt lte like ilike is in_list contains contained_by : Op
  range_gt range_gte range_lt range_lte range_adjacent overlaps : Op
  text_search match not or filter : Op

pub record Filter : Type 0 where
  pub op : Op
  pub column : Str
  pub value : Option Json
  pub values : Option (List Json)
  pub config : Option Json
  pub operator : Option Str

pub data Action : Type 0 where
  select insert update delete upsert : Action

pub data Single : Type 0 where
  single maybe_single : Single

pub data Format : Type 0 where
  json csv : Format

pub data Count : Type 0 where
  exact planned estimated : Count

pub record Order : Type 0 where
  pub column : Str
  pub ascending : Option Bool
  pub nulls_first : Option Bool
  pub referenced_table : Option Str

pub record TableRequest : Type 0 where
  pub schema : Option Str
  pub table : Str
  pub action : Action
  pub select : Option Str
  pub filters : Option (List Filter)
  pub order_by : Option (List Order)
  pub limit : Option ℕ
  pub range : Option (ℕ × ℕ)
  pub single : Option Single
  pub format : Option Format
  pub count : Option Count
  pub head : Option Bool
  pub values : Option Json
  pub on_conflict : Option Str

pub record RpcRequest : Type 0 where
  pub schema : Option Str
  pub name : Str
  pub args : Option Json

pub data DbRequest : Type 0 where
  table : TableRequest → DbRequest
  rpc : RpcRequest → DbRequest

-- One method call on a query builder, with its arguments.
pub data Call : Type 0 where
  eq neq gt gte lt lte is : Str → Json → Call
  contains contained_by : Str → Json → Call
  range_gt range_gte range_lt range_lte range_adjacent overlaps : Str → Json → Call
  like ilike : Str → Str → Call
  in_list : Str → List Json → Call
  text_search : Str → Str → Json → Call
  match : Json → Call
  not filter : Str → Str → Str → Call
  or : Str → Json → Call
  select : Str → Call
  select_with : Str → Option Count → Bool → Call
  insert update : Json → Call
  upsert : Json → Option Str → Call
  delete : Call
  order : Str → Bool → Option Bool → Option Str → Call
  limit : ℕ → Call
  range : ℕ → ℕ → Call
  single maybe_single csv : Call

-- client.schema(schema).from(table).<calls>, or client.schema(schema).rpc(name, args)
pub data Plan : Type 0 where
  from_table : (schema table : Str) (calls : List Call) → Plan
  call_rpc : (schema name : Str) (args : Json) → Plan
