-- ===== src/Client/DbProxy/Examples.antt =====
-- The theorems on the queries of the secure database client at concrete chains.
use securesupabase_js.Prelude.{◌≡◌, refl, none, some, List, [], ◌∷◌, All, keep}
use securesupabase_js.Js.Text.{codes, str_eq, has, split, trim}
use securesupabase_js.Js.Json.{str}
use securesupabase_js.Edge.Types
use securesupabase_js.Edge.Types.{Client}
use securesupabase_js.Edge.Query.{TableRequest, Action, from_table}
use securesupabase_js.Edge.DbProxy.Guards.{is_allowed, parse_csv_allowlist, is_identifier}
use securesupabase_js.Edge.DbProxy.Operations.{run_table_operation, run_plan, schema_name}
use securesupabase_js.Client.DbProxy as Proxy
use securesupabase_js.Client.DbProxy.Chain.{Method, apply_methods}
use securesupabase_js.Client.DbProxy.Plan.{IsAccepted, full_calls, run_table_operation-full}
use securesupabase_js.Client.DbProxy.Delivery.{
  select_chain, direct_chain, HasPlainArguments, select-delivered, insert-ignores_single,
}
use securesupabase_js.Samples.{backend, table_request}

abbrev server_state : Types.State
server_state = record { store = []; trace = [] }

abbrev methods : List Method
methods = Method.eq (codes "owner") (str (codes "ann")) ∷ Method.limit 5 ∷ Method.single ∷ []

abbrev user : Client
user = record {
  url = codes "https://project";
  key = codes "anon";
  authorization = some (codes "Bearer token");
}

methods-HasPlainArguments : All (HasPlainArguments backend) methods
methods-HasPlainArguments = (tt, (tt, (tt, tt)))

chained-IsAccepted :
    IsAccepted backend (select_chain none (codes "notes") (codes "id") none none methods)
unfolding Proxy.start_select apply_methods parse_csv_allowlist is_allowed is_identifier split trim
    keep has str_eq
chained-IsAccepted = record {
  schema = refl;
  identifier = refl;
  table = refl;
  filters = ((refl, refl), tt);
  orders = tt;
}

select-delivered_example :
    run_table_operation backend
      (select_chain none (codes "notes") (codes "id") none none methods)
      user
      server_state
    ≡ run_plan backend user
        (from_table
          (schema_name backend none)
          (codes "notes")
          (direct_chain backend (codes "id") none none methods))
        server_state
select-delivered_example =
    select-delivered backend (λ t. refl) none (codes "notes") (codes "id") none none methods
      methods-HasPlainArguments user server_state chained-IsAccepted

abbrev with_action : Action → TableRequest
with_action action = record table_request { action = action }

with_action-IsAccepted : (action : Action) → IsAccepted backend (with_action action)
unfolding parse_csv_allowlist is_allowed is_identifier split trim keep has str_eq
with_action-IsAccepted action = record {
  schema = refl;
  identifier = refl;
  table = refl;
  filters = tt;
  orders = tt;
}

run_table_operation-full_example :
    run_table_operation backend (with_action Action.update) user server_state
    ≡ run_plan backend user
        (from_table
          (schema_name backend none)
          (codes "notes")
          (full_calls backend (with_action Action.update)))
        server_state
run_table_operation-full_example =
    run_table_operation-full backend (with_action Action.update) user server_state
      (with_action-IsAccepted Action.update) refl

insert-ignores_single_example :
    (run_table_operation backend (Proxy.single (with_action Action.insert)) user server_state
      ≡ run_table_operation backend (with_action Action.insert) user server_state)
    × (run_table_operation backend
          (Proxy.maybe_single (with_action Action.insert))
          user
          server_state
        ≡ run_table_operation backend (with_action Action.insert) user server_state)
insert-ignores_single_example =
    insert-ignores_single backend (with_action Action.insert) user server_state
      (with_action-IsAccepted Action.insert) refl
