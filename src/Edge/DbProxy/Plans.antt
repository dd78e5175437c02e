-- ===== src/Edge/DbProxy/Plans.antt =====
-- functions/db-proxy/index.ts: what the checks on names, filters and orders guarantee of a plan.
use securesupabase_js.Prelude.{
  ℕ, zero, suc, ◌≡◌, refl, true, Option, none, some, List, [], ◌∷◌, ◌++◌, All,
}
use securesupabase_js.Js.Text.{Str}
use securesupabase_js.Edge.Types.{Backend, State}
use securesupabase_js.Edge.Query.{
  Op, Filter, Action, Single, Format, Order, TableRequest, Call, Plan, from_table, call_rpc,
}
use securesupabase_js.Edge.Effects.Keeps.{Keeps, Keeps-pure, Keeps-throw, Keeps-bind, Keeps-if}
use securesupabase_js.Edge.DbProxy.Guards.{
  parse_csv_allowlist, is_allowed, assert_allowed, is_identifier, assert_identifier,
}
use securesupabase_js.Edge.DbProxy.Filters.{op_name, call_of, apply_filter, apply_filter_list}
use securesupabase_js.Edge.DbProxy.Operations.{
  returning, first_calls, order_call, apply_orders, limit_calls, range_calls, last_calls,
}

module _ (allowed : Option (List Str)) where
  -- The operator is one that the operator of the function allows, and the column an identifier.
  abbrev pub IsSafeFilter : Op → Str → Type 0
  IsSafeFilter op column = (is_allowed (op_name op) allowed ≡ true) × (is_identifier column ≡ true)

  abbrev pub IsSafeCall : Call → Type 0
  IsSafeCall (Call.eq c v) = IsSafeFilter Op.eq c
  IsSafeCall (Call.neq c v) = IsSafeFilter Op.neq c
  IsSafeCall (Call.gt c v) = IsSafeFilter Op.gt c
  IsSafeCall (Call.gte c v) = IsSafeFilter Op.gte c
  IsSafeCall (Call.lt c v) = IsSafeFilter Op.lt c
  IsSafeCall (Call.lte c v) = IsSafeFilter Op.lte c
  IsSafeCall (Call.is c v) = IsSafeFilter Op.is c
  IsSafeCall (Call.contains c v) = IsSafeFilter Op.contains c
  IsSafeCall (Call.contained_by c v) = IsSafeFilter Op.contained_by c
  IsSafeCall (Call.range_gt c v) = IsSafeFilter Op.range_gt c
  IsSafeCall (Call.range_gte c v) = IsSafeFilter Op.range_gte c
  IsSafeCall (Call.range_lt c v) = IsSafeFilter Op.range_lt c
  IsSafeCall (Call.range_lte c v) = IsSafeFilter Op.range_lte c
  IsSafeCall (Call.range_adjacent c v) = IsSafeFilter Op.range_adjacent c
  IsSafeCall (Call.overlaps c v) = IsSafeFilter Op.overlaps c
  IsSafeCall (Call.like c v) = IsSafeFilter Op.like c
  IsSafeCall (Call.ilike c v) = IsSafeFilter Op.ilike c
  IsSafeCall (Call.in_list c vs) = IsSafeFilter Op.in_list c
  IsSafeCall (Call.text_search c v config) = IsSafeFilter Op.text_search c
  IsSafeCall (Call.not c o v) = IsSafeFilter Op.not c
  IsSafeCall (Call.filter c o v) = IsSafeFilter Op.filter c
  -- the columns of these two stand in their values, which are passed on unread
  IsSafeCall (Call.match v) = is_allowed (op_name Op.match) allowed ≡ true
  IsSafeCall (Call.or v config) = is_allowed (op_name Op.or) allowed ≡ true
  IsSafeCall (Call.order c ascending nulls_first referenced) = is_identifier c ≡ true
  IsSafeCall _ = Unit

  call_of-IsSafeCall :
      (be : Backend) (op : Op) (column : Str) (f : Filter)
      → is_allowed (op_name op) allowed ≡ true
      → is_identifier column ≡ true
      → IsSafeCall (call_of be op column f)
  unfolding call_of
  call_of-IsSafeCall be Op.match column f h k = h
  call_of-IsSafeCall be Op.or column f h k = h
  call_of-IsSafeCall be Op.eq column f h k = (h, k)
  call_of-IsSafeCall be _ column f h k = (h, k)

  pub AllSafe-append :
      (xs ys : List Call) → All IsSafeCall xs → All IsSafeCall ys → All IsSafeCall (xs ++ ys)
  AllSafe-append [] ys h k = k
  AllSafe-append (x ∷ xs) ys (h, hs) k = (h, AllSafe-append xs ys hs k)

  pub returning-AllSafe :
      (columns : Option Str) (xs : List Call)
      → All IsSafeCall xs
      → All IsSafeCall (returning columns xs)
  returning-AllSafe none xs h = h
  returning-AllSafe (some []) xs h = h
  returning-AllSafe (some (c ∷ cs)) xs h = AllSafe-append xs _ h (tt, tt)

  pub first_calls-AllSafe : (req : TableRequest) → All IsSafeCall (first_calls req)
  unfolding first_calls
  first_calls-AllSafe req = go req.action
    where
      go : (action : Action) → All IsSafeCall (first_calls (record req { action = action }))
      go Action.insert = returning-AllSafe req.select _ (tt, tt)
      go Action.upsert = returning-AllSafe req.select _ (tt, tt)
      go Action.select = (tt, tt)
      go Action.update = returning-AllSafe req.select _ (tt, tt)
      go Action.delete = returning-AllSafe req.select _ (tt, tt)

  pub limit_calls-AllSafe : (n : Option ℕ) → All IsSafeCall (limit_calls n)
  limit_calls-AllSafe none = tt
  limit_calls-AllSafe (some zero) = tt
  limit_calls-AllSafe (some (suc n)) = (tt, tt)

  pub range_calls-AllSafe : (r : Option (ℕ × ℕ)) → All IsSafeCall (range_calls r)
  range_calls-AllSafe none = tt
  range_calls-AllSafe (some (from, to)) = (tt, tt)

  pub last_calls-AllSafe :
      (single : Option Single) (format : Option Format) → All IsSafeCall (last_calls single format)
  last_calls-AllSafe (some Single.single) format = (tt, tt)
  last_calls-AllSafe (some Single.maybe_single) format = (tt, tt)
  last_calls-AllSafe none (some Format.csv) = (tt, tt)
  last_calls-AllSafe none (some Format.json) = tt
  last_calls-AllSafe none none = tt

-- A plan names an identifier that the environment allows, in a schema that it allows, and its
-- filters have allowed operators on identifiers.
abbrev pub IsAllowedPlan : Backend → Plan → Type 0
IsAllowedPlan be (from_table schema name calls) =
    (is_allowed schema (parse_csv_allowlist be.env.db_proxy_allowed_schemas) ≡ true)
    × (is_identifier name ≡ true)
    × (is_allowed name (parse_csv_allowlist be.env.db_proxy_allowed_tables) ≡ true)
    × All (IsSafeCall (parse_csv_allowlist be.env.db_proxy_allowed_operators)) calls
IsAllowedPlan be (call_rpc schema name args) =
    (is_allowed schema (parse_csv_allowlist be.env.db_proxy_allowed_schemas) ≡ true)
    × (is_identifier name ≡ true)
    × (is_allowed name (parse_csv_allowlist be.env.db_proxy_allowed_rpcs) ≡ true)

module _ {P : State → Type 0} where
  pub Keeps-assert_allowed :
      (name : Str) (allowed : Option (List Str)) (message : Str)
      → Keeps P (λ _. is_allowed name allowed ≡ true) (assert_allowed name allowed message)
  unfolding assert_allowed
  Keeps-assert_allowed name allowed message =
      Keeps-if (is_allowed name allowed) _ _ (λ h. Keeps-pure tt h) (λ _. Keeps-throw message)

  pub Keeps-assert_identifier :
      (name message : Str)
      → Keeps P
          (λ same. (same ≡ name) × (is_identifier name ≡ true))
          (assert_identifier name message)
  unfolding assert_identifier
  Keeps-assert_identifier name message =
      Keeps-if (is_identifier name) _ _ (λ h. Keeps-pure name (refl, h)) (λ _. Keeps-throw message)

  module _ (be : Backend) (allowed : Option (List Str)) where
    pub Keeps-apply_filter :
        (query : List Call) (f : Filter)
        → All (IsSafeCall allowed) query
        → Keeps P (All (IsSafeCall allowed)) (apply_filter be allowed query f)
    unfolding apply_filter
    Keeps-apply_filter query f h =
        Keeps-bind _ _ (Keeps-assert_allowed (op_name f.op) allowed _) (λ _ listed.
          Keeps-bind _ _ (Keeps-assert_identifier f.column _) (λ column (same, valid).
            Keeps-pure _ (
              AllSafe-append allowed query _ h
                (call_of-IsSafeCall allowed be f.op column f listed (rw same valid), tt))))

    pub Keeps-apply_filter_list :
        (query : List Call) (filters : List Filter)
        → All (IsSafeCall allowed) query
        → Keeps P (All (IsSafeCall allowed)) (apply_filter_list be allowed query filters)
    unfolding apply_filter_list
    Keeps-apply_filter_list query [] h = Keeps-pure query h
    Keeps-apply_filter_list query (f ∷ filters) h =
        Keeps-bind _ _ (Keeps-apply_filter query f h)
          (λ next k. Keeps-apply_filter_list next filters k)

    pub Keeps-apply_orders :
        (query : List Call) (orders : List Order)
        → All (IsSafeCall allowed) query
        → Keeps P (All (IsSafeCall allowed)) (apply_orders query orders)
    unfolding apply_orders
    Keeps-apply_orders query [] h = Keeps-pure query h
    Keeps-apply_orders query (order ∷ orders) h =
        Keeps-bind _ _ (Keeps-assert_identifier order.column _) (λ column (same, valid).
          Keeps-apply_orders (query ++ order_call column order ∷ []) orders
            (AllSafe-append allowed query _ h (rw same valid, tt)))
