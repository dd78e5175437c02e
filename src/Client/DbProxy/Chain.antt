-- ===== src/Client/DbProxy/Chain.antt =====
-- SecureDbProxy.ts: the methods of `SecureQueryBuilder` as data, and chains of them.
use securesupabase_js.Prelude.{ℕ, Option, none, some, List, [], ◌∷◌}
use securesupabase_js.Js.Text.{Str, codes}
use securesupabase_js.Js.Json.{Json, str}
use securesupabase_js.Edge.Query.{Op, Filter, Order, TableRequest}
use securesupabase_js.Client.DbProxy
use securesupabase_js.Client.DbProxy.{plain_filter, push_filter}

pub data Method : Type 0 where
  eq neq gt gte lt lte is contains contained_by overlaps : Str → Json → Method
  like ilike : Str → Str → Method
  in_list : Str → List Json → Method
  text_search : Str → Str → Option Json → Method
  not filter : (column operator : Str) → Json → Method
  or : Str → Option Json → Method
  match : Json → Method
  order : Order → Method
  limit : ℕ → Method
  range : ℕ → ℕ → Method
  single maybe_single csv : Method
  select : Str → Method

-- What a method hands to `pushFilter`; `none` for the methods that set another field.
unfoldable pub filter_of : Method → Option Filter
filter_of (Method.eq c v) = some (plain_filter Op.eq c v)
filter_of (Method.neq c v) = some (plain_filter Op.neq c v)
filter_of (Method.gt c v) = some (plain_filter Op.gt c v)
filter_of (Method.gte c v) = some (plain_filter Op.gte c v)
filter_of (Method.lt c v) = some (plain_filter Op.lt c v)
filter_of (Method.lte c v) = some (plain_filter Op.lte c v)
filter_of (Method.like c v) = some (plain_filter Op.like c (str v))
filter_of (Method.ilike c v) = some (plain_filter Op.ilike c (str v))
filter_of (Method.is c v) = some (plain_filter Op.is c v)
filter_of (Method.in_list c vs) = some (record {
  op = Op.in_list;
  column = c;
  value = none;
  values = some vs;
  config = none;
  operator = none;
})
filter_of (Method.contains c v) = some (plain_filter Op.contains c v)
filter_of (Method.contained_by c v) = some (plain_filter Op.contained_by c v)
filter_of (Method.overlaps c v) = some (plain_filter Op.overlaps c v)
filter_of (Method.text_search c v config) =
    some (record (plain_filter Op.text_search c (str v)) { config = config })
filter_of (Method.not c operator v) =
    some (record (plain_filter Op.not c v) { operator = some operator })
filter_of (Method.or v config) =
    some (record (plain_filter Op.or (codes "_") (str v)) { config = config })
filter_of (Method.filter c operator v) =
    some (record (plain_filter Op.filter c v) { operator = some operator })
filter_of (Method.match query) = some (plain_filter Op.match (codes "_") query)
filter_of _ = none

-- The methods that set another field of the request.
unfoldable pub set_field : TableRequest → Method → TableRequest
set_field r (Method.order o) = DbProxy.order r o
set_field r (Method.limit n) = DbProxy.limit r n
set_field r (Method.range from to) = DbProxy.range r from to
set_field r Method.single = DbProxy.single r
set_field r Method.maybe_single = DbProxy.maybe_single r
set_field r Method.csv = DbProxy.csv r
set_field r (Method.select columns) = DbProxy.select_columns r columns
set_field r _ = r

abbrev pub push_or_set : TableRequest → Method → Option Filter → TableRequest
push_or_set r m none = set_field r m
push_or_set r m (some f) = push_filter r f

unfoldable pub apply_method : TableRequest → Method → TableRequest
unfolding filter_of push_filter set_field DbProxy.order DbProxy.limit DbProxy.range DbProxy.single
    DbProxy.maybe_single DbProxy.csv DbProxy.select_columns
apply_method r m = push_or_set r m (filter_of m)

-- A chain of method calls on one builder.
unfoldable pub apply_methods : TableRequest → List Method → TableRequest
unfolding apply_method
apply_methods r [] = r
apply_methods r (m ∷ ms) = apply_methods (apply_method r m) ms
