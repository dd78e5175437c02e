-- ===== src/Client/DbProxy/Delivery.antt =====
-- A chain of methods on the secure client against the calls that the edge function makes.
use securesupabase_js.Prelude.{
  ℕ, ◌≡◌, ◌≢◌, ◌∙◌, refl, sym, Bool, true, false, Option, none, some, List, [], ◌∷◌, ◌++◌, All,
}
use mathlib.Core.Path.{ap₂}
use mathlib.Core.List.{map-append}
use securesupabase_js.Js.Text.{Str, codes, or_else}
use securesupabase_js.Js.Json.{Json, null, bool, str, obj, end}
use securesupabase_js.Edge.Types.{Backend, State, Client}
use securesupabase_js.Edge.Query.{
  Filter, Action, Order, Single, Format, Count, TableRequest, Call, from_table,
}
use securesupabase_js.Edge.DbProxy.Guards.{parse_csv_allowlist}
use securesupabase_js.Edge.DbProxy.Filters.{call_of, json_or, string_or_empty}
use securesupabase_js.Edge.DbProxy.Operations.{
  run_plan, is_final, first_calls, limit_calls, range_calls, last_calls, schema_name,
  run_table_operation,
}
use securesupabase_js.Client.DbProxy
use securesupabase_js.Client.DbProxy.{push_filter, start_select}
use securesupabase_js.Client.DbProxy.Chain.{Method, filter_of, apply_methods}
use securesupabase_js.Client.DbProxy.Plan.{
  IsAccepted, filter_calls, order_calls, full_calls, run_table_operation-full,
  run_table_operation-first,
}
use securesupabase_js.Client.DbProxy.Fields.{
  list_of, filters_of, orders_of, limit_after, range_after, single_after, format_after,
  columns_after, after, after_lem, limit_step, range_step, single_step, format_step, columns_step,
  SameTarget-chain, filters_lem, orders_lem,
}

json_or-some : (v fallback : Json) → v ≢ null → json_or (some v) fallback ≡ v
json_or-some null fallback h = absurd (h refl)
json_or-some (bool b) fallback h = refl
json_or-some _ fallback h = refl

json_or-null : (v : Json) → json_or (some v) null ≡ v
json_or-null null = refl
json_or-null _ = refl

json_or-empty :
    (config : Option Json)
    → config ≢ some null
    → json_or config (obj end) ≡ or_else config (obj end)
json_or-empty none h = refl
json_or-empty (some null) h = absurd (h refl)
json_or-empty (some (bool b)) h = refl
json_or-empty (some _) h = refl

module _ (be : Backend) where
  string_or_empty-some : (v : Json) → v ≢ null → string_or_empty be (some v) ≡ be.to_string v
  string_or_empty-some null h = absurd (h refl)
  string_or_empty-some (bool b) h = refl
  string_or_empty-some _ h = refl

  -- The call that a method is on a query builder of its own, with the same arguments; the values of
  -- `not` and `filter` as the text that `String` makes of them.
  abbrev pub direct : Method → List Call
  direct (Method.eq c v) = Call.eq c v ∷ []
  direct (Method.neq c v) = Call.neq c v ∷ []
  direct (Method.gt c v) = Call.gt c v ∷ []
  direct (Method.gte c v) = Call.gte c v ∷ []
  direct (Method.lt c v) = Call.lt c v ∷ []
  direct (Method.lte c v) = Call.lte c v ∷ []
  direct (Method.is c v) = Call.is c v ∷ []
  direct (Method.contains c v) = Call.contains c v ∷ []
  direct (Method.contained_by c v) = Call.contained_by c v ∷ []
  direct (Method.overlaps c v) = Call.overlaps c v ∷ []
  direct (Method.like c v) = Call.like c v ∷ []
  direct (Method.ilike c v) = Call.ilike c v ∷ []
  direct (Method.in_list c vs) = Call.in_list c vs ∷ []
  direct (Method.text_search c v config) = Call.text_search c v (or_else config (obj end)) ∷ []
  direct (Method.not c operator v) = Call.not c operator (be.to_string v) ∷ []
  direct (Method.filter c operator v) = Call.filter c operator (be.to_string v) ∷ []
  direct (Method.or v config) = Call.or v (or_else config (obj end)) ∷ []
  direct (Method.match query) = Call.match query ∷ []
  direct _ = []

  abbrev pub direct_all : List Method → List Call
  direct_all [] = []
  direct_all (m ∷ ms) = direct m ++ direct_all ms

  -- The arguments that survive the way through JSON and the edge function.
  abbrev pub HasPlainArguments : Method → Type 0
  HasPlainArguments (Method.not c operator v) = v ≢ null
  HasPlainArguments (Method.filter c operator v) = v ≢ null
  HasPlainArguments (Method.match query) = query ≢ null
  HasPlainArguments (Method.or v config) = config ≢ some null
  HasPlainArguments (Method.text_search c v config) = config ≢ some null
  HasPlainArguments _ = Unit

  module _ (texts : (t : Str) → be.to_string (str t) ≡ t) (allowed : Option (List Str)) where
    filter_of-direct :
        (m : Method)
        → HasPlainArguments m
        → filter_calls be allowed (list_of (filter_of m)) ≡ direct m
    unfolding filter_of call_of
    filter_of-direct (Method.eq c v) h = rw (json_or-null v)
    filter_of-direct (Method.neq c v) h = rw (json_or-null v)
    filter_of-direct (Method.gt c v) h = rw (json_or-null v)
    filter_of-direct (Method.gte c v) h = rw (json_or-null v)
    filter_of-direct (Method.lt c v) h = rw (json_or-null v)
    filter_of-direct (Method.lte c v) h = rw (json_or-null v)
    filter_of-direct (Method.is c v) h = rw (json_or-null v)
    filter_of-direct (Method.contains c v) h = rw (json_or-null v)
    filter_of-direct (Method.contained_by c v) h = rw (json_or-null v)
    filter_of-direct (Method.overlaps c v) h = rw (json_or-null v)
    filter_of-direct (Method.like c v) h = rw (texts v)
    filter_of-direct (Method.ilike c v) h = rw (texts v)
    filter_of-direct (Method.text_search c v config) h = rw (texts v, json_or-empty config h)
    filter_of-direct (Method.not c operator v) h = rw (string_or_empty-some v h)
    filter_of-direct (Method.filter c operator v) h = rw (string_or_empty-some v h)
    filter_of-direct (Method.or v config) h = rw (texts v, json_or-empty config h)
    filter_of-direct (Method.match query) h = rw (json_or-some query (obj end) h)
    filter_of-direct _ h = refl

    filters_of-direct :
        (ms : List Method)
        → All HasPlainArguments ms
        → filter_calls be allowed (filters_of ms) ≡ direct_all ms
    filters_of-direct [] h = refl
    filters_of-direct (m ∷ ms) (h, hs) =
        map-append (λ f. call_of be f.op f.column f) (list_of (filter_of m)) (filters_of ms)
        ∙ ap₂ (λ xs ys. xs ++ ys) (filter_of-direct m h) (filters_of-direct ms hs)

  -- The whole chain of calls that a select and its methods stand for.
  abbrev pub direct_chain : Str → Option Count → Option Bool → List Method → List Call
  direct_chain columns count head ms =
      ((Call.select_with (or_else (after columns_after (some columns) ms) (codes "*")) count
            (or_else head false)
          ∷ direct_all ms)
        ++ order_calls (orders_of ms))
      ++ (limit_calls (after limit_after none ms)
          ++ (range_calls (after range_after none ms)
              ++ last_calls (after single_after none ms) (after format_after none ms)))

  first_calls-select :
      (r : TableRequest)
      → r.action ≡ Action.select
      → first_calls r
        ≡ Call.select_with (or_else r.select (codes "*")) r.count (or_else r.head false) ∷ []
  unfolding first_calls
  first_calls-select r e = rw e

  full_calls-assemble :
      (r : TableRequest) (start : List Call) (filters : List Filter) (orders : List Order)
      (limit : Option ℕ) (range : Option (ℕ × ℕ)) (single : Option Single) (format : Option Format)
      → first_calls r ≡ start
      → or_else r.filters [] ≡ filters
      → or_else r.order_by [] ≡ orders
      → r.limit ≡ limit
      → r.range ≡ range
      → r.single ≡ single
      → r.format ≡ format
      → full_calls be r
        ≡ ((start
              ++ filter_calls be (parse_csv_allowlist be.env.db_proxy_allowed_operators) filters)
            ++ order_calls orders)
          ++ (limit_calls limit ++ (range_calls range ++ last_calls single format))
  full_calls-assemble r start filters orders limit range single format e1 e2 e3 e4 e5 e6 e7 =
      simp (e1, e2, e3, e4, e5, e6, e7)

-- The request that a select on the secure client and the methods chained on it build.
abbrev pub select_chain :
    Option Str → Str → Str → Option Count → Option Bool → List Method → TableRequest
select_chain schema name columns count head ms =
    apply_methods (start_select schema name columns count head) ms

module _ (be : Backend) (texts : (t : Str) → be.to_string (str t) ≡ t) (schema : Option Str)
    (name columns : Str) (count : Option Count) (head : Option Bool) (ms : List Method)
    (plain : All (HasPlainArguments be) ms) where
  abbrev chained : TableRequest
  chained = select_chain schema name columns count head ms

  chained_start :
      first_calls chained
      ≡ Call.select_with
          (or_else (after columns_after (some columns) ms) (codes "*"))
          count
          (or_else head false)
        ∷ []
  unfolding start_select
  chained_start =
      let start = start_select schema name columns count head in
      let chosen = after_lem (λ (r : TableRequest). r.select) columns_after columns_step ms start in
      let same = SameTarget-chain ms start in
      first_calls-select be chained same.action ∙ simp (chosen, same.count, same.head)

  full_calls-chain : full_calls be chained ≡ direct_chain be columns count head ms
  unfolding start_select
  full_calls-chain =
      let start = start_select schema name columns count head in
      full_calls-assemble be chained _ (filters_of ms) (orders_of ms) _ _ _ _ chained_start
        (filters_lem ms start) (orders_lem ms start)
        (after_lem (λ (r : TableRequest). r.limit) limit_after limit_step ms start)
        (after_lem (λ (r : TableRequest). r.range) range_after range_step ms start)
        (after_lem (λ (r : TableRequest). r.single) single_after single_step ms start)
        (after_lem (λ (r : TableRequest). r.format) format_after format_step ms start)
      ∙ rw (
          filters_of-direct be texts (parse_csv_allowlist be.env.db_proxy_allowed_operators) ms
            plain)

  -- A select that is built on the secure client and accepted by the edge function runs exactly one
  -- query, on the table and schema that were named: its calls are the filters of the chain in their
  -- order, then its orders in their order, then the last limit, the last range, and the last choice of
  -- one row or CSV. Arguments that are null where a text is sent are excluded.
  pub select-delivered :
      (client : Client) (s : State)
      → IsAccepted be (select_chain schema name columns count head ms)
      → run_table_operation be (select_chain schema name columns count head ms) client s
        ≡ run_plan be client
            (from_table (schema_name be schema) name (direct_chain be columns count head ms))
            s
  unfolding start_select
  select-delivered client s accepted =
      let same = SameTarget-chain ms (start_select schema name columns count head) in
      run_table_operation-full be chained client s accepted (rw same.action)
      ∙ rw (full_calls-chain, same.schema, same.table)

IsAccepted-single :
    (be : Backend) (r : TableRequest) (choice : Option Single)
    → IsAccepted be r
    → IsAccepted be (record r { single = choice })
IsAccepted-single be r choice accepted = record {
  schema = accepted.schema;
  identifier = accepted.identifier;
  table = accepted.table;
  filters = accepted.filters;
  orders = accepted.orders;
}

-- The choice of one row is lost on an insertion or an upsert: where the edge function accepts the
-- request, it runs the same query with `single()`, with `maybeSingle()` and with neither.
pub insert-ignores_single :
    (be : Backend) (r : TableRequest) (client : Client) (s : State)
    → IsAccepted be r
    → is_final r.action ≡ true
    → (run_table_operation be (DbProxy.single r) client s ≡ run_table_operation be r client s)
      × (run_table_operation be (DbProxy.maybe_single r) client s
          ≡ run_table_operation be r client s)
unfolding DbProxy.single DbProxy.maybe_single first_calls
insert-ignores_single be r client s accepted final =
    let plain_ = run_table_operation-first be r client s accepted final in
    (
      run_table_operation-first be (DbProxy.single r) client s
            (IsAccepted-single be r (some Single.single) accepted) final
          ∙ sym plain_,
      run_table_operation-first be (DbProxy.maybe_single r) client s
            (IsAccepted-single be r (some Single.maybe_single) accepted) final
          ∙ sym plain_,
    )
