-- ===== src/Postgrest/Plans/Starts.antt =====
-- How a plan starts: `runTableOperation` of functions/db-proxy/index.ts on the query builder of
-- packages/core/postgrest-js/src/PostgrestQueryBuilder.ts.
use securesupabase_js.Prelude.{
  ◌≡◌, ◌∙◌, refl, sym, ap, Bool, false, Option, none, some, List, [], ◌∷◌, ◌++◌, if◌then◌else◌,
}
use securesupabase_js.Js.Text.{Str, codes, or_else}
use securesupabase_js.Js.Json.{Json, obj, end}
use securesupabase_js.Edge.Query.{Action, TableRequest, Call, Count}
use securesupabase_js.Edge.DbProxy.Filters.{json_or}
use securesupabase_js.Edge.DbProxy.Operations.{first_calls, returning, is_final}
use securesupabase_js.Postgrest.Types.{Runtime, Builder, Method}
use securesupabase_js.Postgrest.Query as Query
use securesupabase_js.Postgrest.Query.{QueryBuilder, filter_builder, prefer_count}
use securesupabase_js.Postgrest.Plans.{apply_calls, start_call, start_chain, then_call}
use securesupabase_js.Postgrest.Plans.Growth.{
  Grows, Gives, Gives-nil, Grows-set, Grows-alike, Grows-both, then_call_map, then_call_assoc,
  apply_calls-append,
}
use securesupabase_js.Postgrest.Plans.Ends.{IsColumn, Gives-select}

-- The method of the HTTP request.
abbrev pub method_of : Action → (head : Option Bool) → Method
method_of Action.select head = if or_else head false then Method.head else Method.get
method_of Action.update head = Method.patch
method_of Action.delete head = Method.delete
method_of Action.insert head = Method.post
method_of Action.upsert head = Method.post

-- A chain that has started goes on with the calls after it.
pub start_chain-append :
    (rt : Runtime) (calls more_ : List Call) (q : QueryBuilder) (b : Builder)
    → start_chain rt calls q ≡ some b
    → start_chain rt (calls ++ more_) q ≡ apply_calls rt more_ b
start_chain-append rt [] more_ q b e = cc
start_chain-append rt (call ∷ calls) more_ q b e =
    then_call_map (start_call rt call q) _ _ (apply_calls-append rt calls more_)
    ∙ sym (then_call_assoc (start_call rt call q) (apply_calls rt calls) (apply_calls rt more_))
    ∙ ap (λ m. then_call m (apply_calls rt more_)) e

module _ (rt : Runtime) (j : Str) (column : IsColumn j) where
  -- A chain starts, and goes on with any calls.
  pub record Starts (method : Method) (calls : List Call) : Type 0 where
    pub starts :
        (q : QueryBuilder)
        → (b : Builder) × (start_chain rt calls q ≡ some b)
          × Grows j [] (filter_builder q method none) b

  returned : Option Str → List Call
  returned columns = returning columns []

  returning-cons :
      (columns : Option Str) (call : Call) → returning columns (call ∷ []) ≡ call ∷ returned columns
  unfolding returned
  returning-cons none call = refl
  returning-cons (some []) call = refl
  returning-cons (some (c ∷ s)) call = refl

  Gives-returned : (columns : Option Str) → Gives rt j [] (returned columns)
  unfolding returned
  Gives-returned none = Gives-nil rt j
  Gives-returned (some []) = Gives-nil rt j
  Gives-returned (some (c ∷ s)) = Gives-select rt j column (c ∷ s)

  Starts-returning :
      (method : Method) (call : Call) (columns : Option Str) (f : QueryBuilder → Builder)
      → ((q : QueryBuilder) → start_call rt call q ≡ some (f q))
      → ((q : QueryBuilder) → Grows j [] (filter_builder q method none) (f q))
      → Starts method (returning columns (call ∷ []))
  Starts-returning method call columns f applies grows = record {
    starts = λ q.
        let (b, runs, more) = (Gives-returned columns).run (f q) in
        (
          b,
          ap (λ calls. start_chain rt calls q) (returning-cons columns call)
              ∙ ap (λ m. then_call m (apply_calls rt (returned columns))) (applies q)
              ∙ runs,
          Grows-both j [] [] (filter_builder q method none) (f q) b (grows q) more,
        );
  }

  Grows-prefer_count : (count : Option Count) (b : Builder) → Grows j [] b (prefer_count count b)
  Grows-prefer_count none b = Grows-alike j b _ refl refl refl refl
  Grows-prefer_count (some count) b = Grows-alike j b _ refl refl refl refl

  Starts-select :
      (columns : Str) (count : Option Count) (head : Bool)
      → Starts (if head then Method.head else Method.get) (Call.select_with columns count head ∷ [])
  unfolding start_call Query.select apply_calls
  Starts-select columns count head = record {
    starts = λ q. (
      Query.select (some columns) (some head) count q,
      refl,
      Grows-both j [] [] _ _ _ (Grows-set j (codes "select") _ _ column.no_select)
          (Grows-prefer_count count _),
    );
  }

  Starts-update :
      (values : Json) (columns : Option Str)
      → Starts Method.patch (returning columns (Call.update values ∷ []))
  unfolding start_call Query.update
  Starts-update values columns =
      Starts-returning Method.patch (Call.update values) columns (Query.update values none)
        (λ q. refl) (λ q. Grows-alike j _ _ refl refl refl refl)

  Starts-delete :
      (columns : Option Str) → Starts Method.delete (returning columns (Call.delete ∷ []))
  unfolding start_call Query.delete
  Starts-delete columns =
      Starts-returning Method.delete Call.delete columns (Query.delete none) (λ q. refl)
        (λ q. Grows-alike j _ _ refl refl refl refl)

  pub Starts-first_calls :
      (r : TableRequest)
      → is_final r.action ≡ false
      → Starts (method_of r.action r.head) (first_calls r)
  unfolding first_calls
  Starts-first_calls r open_ = by_action r.action refl open_
    where
      by_action :
          (action : Action)
          → r.action ≡ action
          → is_final action ≡ false
          → Starts (method_of action r.head) (first_calls r)
      by_action Action.insert e h = cc
      by_action Action.upsert e h = cc
      by_action Action.select e h =
          rw (first_calls, e)
            (Starts-select (or_else r.select (codes "*")) r.count (or_else r.head false))
      by_action Action.update e h =
          rw (first_calls, e) (Starts-update (json_or r.values (obj end)) r.select)
      by_action Action.delete e h = rw (first_calls, e) (Starts-delete r.select)
