-- ===== src/Postgrest/Plans/Requests.antt =====
-- From a request of the database proxy (functions/db-proxy/index.ts) to the HTTP request that
-- packages/core/postgrest-js/src builds for it.
use securesupabase_js.Prelude.{
  ℕ, ◌≡◌, ◌≢◌, ◌∙◌, refl, sym, ap, ◌&&◌, inl, inr, Bool, true, false, none, some, List, [], ◌∷◌,
  ◌++◌, map, All, arith, if◌then◌else◌,
}
use mathlib.Core.List.{append_assoc, append-nil}
use mathlib.Core.Path.{subst}
use securesupabase_js.Js.Text.{Str, codes, trim, trim_start, trim_end, nonempty, is_space, or_else}
use securesupabase_js.Edge.Types.{Backend}
use securesupabase_js.Edge.Query.{Filter, TableRequest, Call, from_table}
use securesupabase_js.Edge.DbProxy.Guards.{parse_csv_allowlist, is_identifier, is_word, is_letter}
use securesupabase_js.Edge.DbProxy.Filters.{call_of}
use securesupabase_js.Edge.DbProxy.Operations.{
  first_calls, is_final, schema_name, limit_calls, range_calls, last_calls,
}
use securesupabase_js.Client.DbProxy.Plan.{IsAccepted, filter_calls, order_calls, full_calls}
use securesupabase_js.Postgrest.Params.{get_all}
use securesupabase_js.Postgrest.Types.{Runtime, Builder}
use securesupabase_js.Postgrest.Query.{QueryBuilder}
use securesupabase_js.Postgrest.Client as Connection
use securesupabase_js.Postgrest.Client.{Client}
use securesupabase_js.Postgrest.Plans.{start_chain, chain_from, build}
use securesupabase_js.Postgrest.Plans.Growth.{Gives, Gives-append, Gives-nil, alone}
use securesupabase_js.Postgrest.Plans.Calls.{call_of-Fate}
use securesupabase_js.Postgrest.Plans.Starts.{method_of, start_chain-append, Starts-first_calls}
use securesupabase_js.Postgrest.Plans.Ends.{IsColumn, Gives-orders, Gives-end}

letter-free : (c : ℕ) → is_letter c ≡ true → is_space c ≡ false
unfolding is_space
letter-free c h = ground arith

trim_end-nonempty : (c : ℕ) (s : Str) → is_space c ≡ false → nonempty (trim_end (c ∷ s)) ≡ true
unfolding trim_end
trim_end-nonempty c s free = shown (trim_end s)
  where
    shown :
        (rest : Str)
        → nonempty (elim rest [ [] ↦ if is_space c then [] else c ∷ [] | d ∷ more ↦ c ∷ d ∷ more ])
          ≡ true
    shown [] = rw (free) refl
    shown (d ∷ more) = refl

-- An identifier is not blank.
trim-identifier : (name : Str) → is_identifier name ≡ true → nonempty (trim name) ≡ true
unfolding is_identifier trim trim_start
trim-identifier [] h = cc
trim-identifier (c ∷ s) h =
    let free = letter-free c (first-letter (is_letter c) (is_word s) h) in
    rw (free) (trim_end-nonempty c s free)
  where
    first-letter : (x y : Bool) → (x && y) ≡ true → x ≡ true
    first-letter x y e = ground arith

module _ (rt : Runtime) (be : Backend) (j : Str) where
  -- The values that the filters give the parameter, each by the call that it becomes, on its own.
  unfoldable pub values_of : List Filter → List Str
  values_of [] = []
  values_of (f ∷ filters) =
      let rest = values_of filters in
      get_all j (or_else (alone rt (call_of be f.op f.column f)) []) ++ rest

  abbrev pub IsSound : Filter → Type 0
  IsSound f = alone rt (call_of be f.op f.column f) ≢ none

  Gives-filter :
      (f : Filter)
      → IsSound f
      → Gives rt j
          (get_all j (or_else (alone rt (call_of be f.op f.column f)) []))
          (call_of be f.op f.column f ∷ [])
  Gives-filter f sound = elim (call_of-Fate rt j be f.op f.column f) [
    | inl failed ↦ absurd (sound failed)
    | inr (ps, e, gives) ↦
        subst (λ m. Gives rt j (get_all j (or_else m [])) (call_of be f.op f.column f ∷ [])) (sym e)
          gives
  ]

  Gives-filters :
      (filters : List Filter)
      → All IsSound filters
      → Gives rt j (values_of filters) (map (λ f. call_of be f.op f.column f) filters)
  unfolding values_of
  Gives-filters [] tt = Gives-nil rt j
  Gives-filters (f ∷ filters) (sound, more) =
      Gives-append rt j _ _ (call_of be f.op f.column f ∷ []) _ (Gives-filter f sound)
        (Gives-filters filters more)

module _ (rt : Runtime) (be : Backend) (j : Str) (column : IsColumn j) (r : TableRequest) where
  later_calls : List Call
  later_calls =
      filter_calls be (parse_csv_allowlist be.env.db_proxy_allowed_operators) (or_else r.filters [])
      ++ (order_calls (or_else r.order_by [])
          ++ (limit_calls r.limit ++ (range_calls r.range ++ last_calls r.single r.format)))

  full_calls-later : full_calls be r ≡ first_calls r ++ later_calls
  unfolding later_calls
  full_calls-later = simp append_assoc

  Gives-later :
      All (IsSound rt be j) (or_else r.filters [])
      → Gives rt j (values_of rt be j (or_else r.filters [])) later_calls
  unfolding later_calls
  Gives-later sound =
      subst (λ vs. Gives rt j vs later_calls)
        (append-nil (values_of rt be j (or_else r.filters [])))
        (Gives-append rt j _ [] _ _ (Gives-filters rt be j (or_else r.filters []) sound) (
          Gives-append rt j [] [] _ _ (Gives-orders rt j column (or_else r.order_by []))
            (Gives-end rt j column r.limit r.range r.single r.format)))

  -- The query builder of the table.
  abbrev table_builder : Client → QueryBuilder
  table_builder client = record {
    address = client.url ++ (codes "/" ++ r.table);
    params = [];
    headers = client.headers;
    schema = some (schema_name be r.schema);
    url_length_limit = client.url_length_limit;
  }

  from-table :
      (client : Client)
      → is_identifier r.table ≡ true
      → Connection.from r.table (Connection.schema (schema_name be r.schema) client)
        ≡ some (table_builder client)
  unfolding Connection.from Connection.schema
  from-table client h = rw (trim-identifier r.table h) refl

  empty : get_all j [] ++ [] ≡ []
  unfolding get_all
  empty = refl

  -- A select, an update or a deletion that the edge function accepts becomes one HTTP request, if no
  -- filter is a TypeError: it has the method of the action, goes to the table in the schema, and its
  -- search parameter of any column that is an identifier and is not named select, order, limit or
  -- offset holds the values of the filters on that column, each as the filter writes it on its own, all
  -- of them, in the request's order, and nothing else.
  pub request-built :
      (client : Client)
      → IsAccepted be r
      → is_final r.action ≡ false
      → All (IsSound rt be j) (or_else r.filters [])
      → (b : Builder) × (build rt
            (from_table (schema_name be r.schema) r.table (full_calls be r))
            client
          ≡ some b)
        × (get_all j b.params ≡ values_of rt be j (or_else r.filters []))
        × (b.method ≡ method_of r.action r.head)
        × (b.address ≡ client.url ++ (codes "/" ++ r.table))
        × (b.schema ≡ some (schema_name be r.schema))
  unfolding build
  request-built client accepted open_ sound =
      let (b, started, same) =
        (Starts-first_calls rt j column r open_).starts (table_builder client) in
      let (b', runs, grows) = (Gives-later sound).run b in
      (
        b',
        ap (chain_from rt (full_calls be r)) (from-table client accepted.identifier)
            ∙ ap (λ calls. start_chain rt calls (table_builder client)) full_calls-later
            ∙ start_chain-append rt (first_calls r) later_calls (table_builder client) b started
            ∙ runs,
        grows.values
            ∙ ap (λ vs. vs ++ values_of rt be j (or_else r.filters [])) (same.values ∙ empty),
        grows.method ∙ same.method,
        grows.address ∙ same.address,
        grows.schema ∙ same.schema,
      )
