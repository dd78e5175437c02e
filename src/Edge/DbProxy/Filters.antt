-- ===== src/Edge/DbProxy/Filters.antt =====
-- functions/db-proxy/index.ts: `applyFilters`.
use securesupabase_js.Prelude.{Option, none, some, List, [], ◌∷◌, ◌++◌}
use securesupabase_js.Js.Text.{Str, codes, or_else}
use securesupabase_js.Js.Json.{Json, null, obj, end}
use securesupabase_js.Edge.Types.{Backend}
use securesupabase_js.Edge.Query.{Op, Filter, Call}
use securesupabase_js.Edge.Effects.{Run, pure, ◌>>=◌, ◌>>◌}
use securesupabase_js.Edge.DbProxy.Guards.{assert_allowed, assert_identifier}

-- value ?? fallback, where null counts as missing
abbrev pub json_or : Option Json → Json → Json
json_or none fallback = fallback
json_or (some null) fallback = fallback
json_or (some v) fallback = v

-- String(value ?? '')
abbrev pub string_or_empty : Backend → Option Json → Str
string_or_empty be none = []
string_or_empty be (some null) = []
string_or_empty be (some v) = be.to_string v

unfoldable pub op_name : Op → Str
op_name Op.eq = codes "eq"
op_name Op.neq = codes "neq"
op_name Op.gt = codes "gt"
op_name Op.gte = codes "gte"
op_name Op.lt = codes "lt"
op_name Op.lte = codes "lte"
op_name Op.like = codes "like"
op_name Op.ilike = codes "ilike"
op_name Op.is = codes "is"
op_name Op.in_list = codes "in"
op_name Op.contains = codes "contains"
op_name Op.contained_by = codes "containedBy"
op_name Op.range_gt = codes "rangeGt"
op_name Op.range_gte = codes "rangeGte"
op_name Op.range_lt = codes "rangeLt"
op_name Op.range_lte = codes "rangeLte"
op_name Op.range_adjacent = codes "rangeAdjacent"
op_name Op.overlaps = codes "overlaps"
op_name Op.text_search = codes "textSearch"
op_name Op.match = codes "match"
op_name Op.not = codes "not"
op_name Op.or = codes "or"
op_name Op.filter = codes "filter"

-- The branches of the `switch`: the call that a filter becomes.
unfoldable pub call_of : Backend → Op → Str → Filter → Call
call_of be Op.eq column f = Call.eq column (json_or f.value null)
call_of be Op.neq column f = Call.neq column (json_or f.value null)
call_of be Op.gt column f = Call.gt column (json_or f.value null)
call_of be Op.gte column f = Call.gte column (json_or f.value null)
call_of be Op.lt column f = Call.lt column (json_or f.value null)
call_of be Op.lte column f = Call.lte column (json_or f.value null)
call_of be Op.like column f = Call.like column (string_or_empty be f.value)
call_of be Op.ilike column f = Call.ilike column (string_or_empty be f.value)
call_of be Op.is column f = Call.is column (json_or f.value null)
call_of be Op.in_list column f = Call.in_list column (or_else f.values [])
call_of be Op.contains column f = Call.contains column (json_or f.value null)
call_of be Op.contained_by column f = Call.contained_by column (json_or f.value null)
call_of be Op.range_gt column f = Call.range_gt column (json_or f.value null)
call_of be Op.range_gte column f = Call.range_gte column (json_or f.value null)
call_of be Op.range_lt column f = Call.range_lt column (json_or f.value null)
call_of be Op.range_lte column f = Call.range_lte column (json_or f.value null)
call_of be Op.range_adjacent column f = Call.range_adjacent column (json_or f.value null)
call_of be Op.overlaps column f = Call.overlaps column (json_or f.value null)
call_of be Op.text_search column f =
    Call.text_search column (string_or_empty be f.value) (json_or f.config (obj end))
call_of be Op.match column f = Call.match (json_or f.value (obj end))
call_of be Op.not column f =
    Call.not column (or_else f.operator (codes "eq")) (string_or_empty be f.value)
call_of be Op.or column f = Call.or (string_or_empty be f.value) (json_or f.config (obj end))
call_of be Op.filter column f =
    Call.filter column (or_else f.operator (codes "eq")) (string_or_empty be f.value)

-- One round of the loop.
unfoldable pub apply_filter : Backend → Option (List Str) → List Call → Filter → Run (List Call)
apply_filter be allowed query f = do
  assert_allowed (op_name f.op) allowed (codes "operator is not allowed")
  column ← assert_identifier f.column (codes "Invalid column")
  pure (query ++ call_of be f.op column f ∷ [])

unfoldable pub apply_filter_list :
    Backend → Option (List Str) → List Call → List Filter → Run (List Call)
apply_filter_list be allowed query [] = pure query
apply_filter_list be allowed query (f ∷ filters) = do
  next ← apply_filter be allowed query f
  apply_filter_list be allowed next filters

-- applyFilters
unfoldable pub apply_filters :
    Backend → List Call → Option (List Filter) → Option (List Str) → Run (List Call)
apply_filters be query filters allowed = apply_filter_list be allowed query (or_else filters [])
