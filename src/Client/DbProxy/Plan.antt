-- ===== src/Client/DbProxy/Plan.antt =====
-- The plan that the edge function runs for a request, where every check passes.
use securesupabase_js.Prelude.{
  ◌≡◌, ◌∙◌, ap, true, false, Option, List, [], ◌∷◌, ◌++◌, map, All, if◌then◌else◌,
}
use mathlib.Core.List.{append_assoc, append-nil}
use securesupabase_js.Js.Text.{Str, codes, or_else}
use securesupabase_js.Edge.Types.{Backend, State, Client}
use securesupabase_js.Edge.Query.{Filter, Order, TableRequest, Call, from_table}
use securesupabase_js.Edge.Effects.{ok, ◌>>=◌}
use securesupabase_js.Edge.DbProxy.Guards.{
  parse_csv_allowlist, is_allowed, assert_allowed, is_identifier, assert_identifier,
}
use securesupabase_js.Edge.DbProxy.Filters.{
  op_name, call_of, apply_filter, apply_filter_list, apply_filters,
}
use securesupabase_js.Edge.DbProxy.Operations.{
  run_plan, first_calls, order_call, apply_orders, limit_calls, range_calls, last_calls, is_final,
  schema_name, run_table_operation,
}

assert_allowed-pass :
    (name : Str) (allowed : Option (List Str)) (message : Str) (s : State)
    → is_allowed name allowed ≡ true
    → assert_allowed name allowed message s ≡ (ok tt, s)
unfolding assert_allowed
assert_allowed-pass name allowed message s h = rw h

assert_identifier-pass :
    (name message : Str) (s : State)
    → is_identifier name ≡ true
    → assert_identifier name message s ≡ (ok name, s)
unfolding assert_identifier
assert_identifier-pass name message s h = rw h

module _ (be : Backend) (allowed : Option (List Str)) where
  -- The operator is allowed and the column is an identifier.
  abbrev pub Passes : Filter → Type 0
  Passes f = (is_allowed (op_name f.op) allowed ≡ true) × (is_identifier f.column ≡ true)

  abbrev pub filter_calls : List Filter → List Call
  filter_calls filters = map (λ f. call_of be f.op f.column f) filters

  apply_filter_list-pass :
      (query : List Call) (filters : List Filter) (s : State)
      → All Passes filters
      → apply_filter_list be allowed query filters s ≡ (ok (query ++ filter_calls filters), s)
  unfolding apply_filter_list apply_filter ◌>>=◌
  apply_filter_list-pass query [] s h = rw append-nil
  apply_filter_list-pass query (f ∷ filters) s ((listed, valid), hs) =
      rw
        (
          assert_allowed-pass (op_name f.op) allowed (codes "operator is not allowed") s listed,
          assert_identifier-pass f.column (codes "Invalid column") s valid,
        )
        (apply_filter_list-pass (query ++ call_of be f.op f.column f ∷ []) filters s hs
          ∙ ap (λ calls. (ok calls, s))
              (append_assoc query (call_of be f.op f.column f ∷ []) (filter_calls filters)))

abbrev pub order_calls : List Order → List Call
order_calls orders = map (λ o. order_call o.column o) orders

apply_orders-pass :
    (query : List Call) (orders : List Order) (s : State)
    → All (λ o. is_identifier o.column ≡ true) orders
    → apply_orders query orders s ≡ (ok (query ++ order_calls orders), s)
unfolding apply_orders ◌>>=◌
apply_orders-pass query [] s h = rw append-nil
apply_orders-pass query (o ∷ orders) s (valid, hs) =
    rw (assert_identifier-pass o.column (codes "Invalid orderBy column") s valid) (
      apply_orders-pass (query ++ order_call o.column o ∷ []) orders s hs
      ∙ ap (λ calls. (ok calls, s))
          (append_assoc query (order_call o.column o ∷ []) (order_calls orders)))

-- Everything that the edge function tests in a request holds.
pub record IsAccepted (be : Backend) (r : TableRequest) : Type 0 where
  pub schema :
      is_allowed (schema_name be r.schema) (parse_csv_allowlist be.env.db_proxy_allowed_schemas)
      ≡ true
  pub identifier : is_identifier r.table ≡ true
  pub table : is_allowed r.table (parse_csv_allowlist be.env.db_proxy_allowed_tables) ≡ true
  pub filters :
      All (Passes be (parse_csv_allowlist be.env.db_proxy_allowed_operators)) (or_else r.filters [])
  pub orders : All (λ o. is_identifier o.column ≡ true) (or_else r.order_by [])

-- The whole chain of calls: the start, the filters and the orders in the request's order, then
-- the limit, the range and the last call.
abbrev pub full_calls : Backend → TableRequest → List Call
full_calls be r =
    ((first_calls r
        ++ filter_calls be (parse_csv_allowlist be.env.db_proxy_allowed_operators)
            (or_else r.filters []))
      ++ order_calls (or_else r.order_by []))
    ++ (limit_calls r.limit ++ (range_calls r.range ++ last_calls r.single r.format))

run_table_operation-start :
    (be : Backend) (r : TableRequest) (client : Client) (s : State)
    → IsAccepted be r
    → run_table_operation be r client s
      ≡ (if is_final r.action
            then run_plan be client (from_table (schema_name be r.schema) r.table (first_calls r))
            else (do
              filtered ←
                  apply_filters be
                    (first_calls r)
                    r.filters
                    (parse_csv_allowlist be.env.db_proxy_allowed_operators)
              ordered ← apply_orders filtered (or_else r.order_by [])
              run_plan be client (
                  from_table (schema_name be r.schema) r.table (
                    ordered
                    ++ (limit_calls r.limit
                        ++ (range_calls r.range ++ last_calls r.single r.format))))))
          s
unfolding run_table_operation ◌>>=◌
run_table_operation-start be r client s accepted = rw (
  assert_allowed-pass (schema_name be r.schema) _ (codes "schema is not allowed") s accepted.schema,
  assert_identifier-pass r.table (codes "Invalid table") s accepted.identifier,
  assert_allowed-pass r.table _ (codes "table is not allowed") s accepted.table,
)

-- A select, an update or a delete that passes every test of the edge function runs exactly one
-- query: the request's calls in the order start, filters, orders, limit, range, last call.
pub run_table_operation-full :
    (be : Backend) (r : TableRequest) (client : Client) (s : State)
    → IsAccepted be r
    → is_final r.action ≡ false
    → run_table_operation be r client s
      ≡ run_plan be client (from_table (schema_name be r.schema) r.table (full_calls be r)) s
unfolding ◌>>=◌ apply_filters
run_table_operation-full be r client s accepted open_ =
    run_table_operation-start be r client s accepted
    ∙ rw (
      open_,
      apply_filter_list-pass be _ (first_calls r) (or_else r.filters []) s accepted.filters,
      apply_orders-pass _ (or_else r.order_by []) s accepted.orders,
    )

-- An insertion or an upsert that passes every test of the edge function runs the start of the
-- chain alone: filters, orders, limits and the choice of one row play no part.
pub run_table_operation-first :
    (be : Backend) (r : TableRequest) (client : Client) (s : State)
    → IsAccepted be r
    → is_final r.action ≡ true
    → run_table_operation be r client s
      ≡ run_plan be client (from_table (schema_name be r.schema) r.table (first_calls r)) s
run_table_operation-first be r client s accepted final =
    run_table_operation-start be r client s accepted ∙ rw final
