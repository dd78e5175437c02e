-- ===== src/Client/DbProxy/Fields.antt =====
-- What a chain of builder methods leaves in each field of the request.
use securesupabase_js.Prelude.{ℕ, ◌≡◌, ◌∙◌, refl, ap, Option, none, some, List, [], ◌∷◌, ◌++◌}
use mathlib.Core.List.{append_assoc, append-nil}
use securesupabase_js.Js.Text.{Str, or_else}
use securesupabase_js.Edge.Query.{Filter, Order, Single, Format, TableRequest}
use securesupabase_js.Client.DbProxy.Chain.{Method, filter_of, apply_method, apply_methods}

abbrev pub list_of {ℓ} : {A : Type ℓ} → Option A → List A
list_of none = []
list_of (some a) = a ∷ []

abbrev pub filters_of : List Method → List Filter
filters_of [] = []
filters_of (m ∷ ms) = list_of (filter_of m) ++ filters_of ms

abbrev pub order_of : Method → List Order
order_of (Method.order o) = o ∷ []
order_of _ = []

abbrev pub orders_of : List Method → List Order
orders_of [] = []
orders_of (m ∷ ms) = order_of m ++ orders_of ms

-- The fields of which the last call decides.
abbrev pub limit_after : Option ℕ → Method → Option ℕ
limit_after old (Method.limit n) = some n
limit_after old _ = old

abbrev pub range_after : Option (ℕ × ℕ) → Method → Option (ℕ × ℕ)
range_after old (Method.range from to) = some (from, to)
range_after old _ = old

abbrev pub single_after : Option Single → Method → Option Single
single_after old Method.single = some Single.single
single_after old Method.maybe_single = some Single.maybe_single
single_after old _ = old

abbrev pub format_after : Option Format → Method → Option Format
format_after old Method.csv = some Format.csv
format_after old _ = old

abbrev pub columns_after : Option Str → Method → Option Str
columns_after old (Method.select columns) = some columns
columns_after old _ = old

-- A left fold, which computes.
abbrev pub after {ℓ} : {X : Type ℓ} → (X → Method → X) → X → List Method → X
after step x [] = x
after step x (m ∷ ms) = after step (step x m) ms

pub after_lem {ℓ} :
    {X : Type ℓ} (get : TableRequest → X) (step : X → Method → X)
    → ((r : TableRequest) (m : Method) → get (apply_method r m) ≡ step (get r) m)
    → (ms : List Method) (r : TableRequest) → get (apply_methods r ms) ≡ after step (get r) ms
unfolding apply_methods
after_lem get step h [] r = refl
after_lem get step h (m ∷ ms) r =
    after_lem get step h ms (apply_method r m) ∙ ap (λ x. after step x ms) (h r m)

pub limit_step : (r : TableRequest) (m : Method) → (apply_method r m).limit ≡ limit_after r.limit m
unfolding apply_method
limit_step r (Method.limit n) = refl
limit_step r _ = refl

pub range_step : (r : TableRequest) (m : Method) → (apply_method r m).range ≡ range_after r.range m
unfolding apply_method
range_step r (Method.range from to) = refl
range_step r _ = refl

pub single_step :
    (r : TableRequest) (m : Method) → (apply_method r m).single ≡ single_after r.single m
unfolding apply_method
single_step r Method.single = refl
single_step r _ = refl

pub format_step :
    (r : TableRequest) (m : Method) → (apply_method r m).format ≡ format_after r.format m
unfolding apply_method
format_step r Method.csv = refl
format_step r _ = refl

pub columns_step :
    (r : TableRequest) (m : Method) → (apply_method r m).select ≡ columns_after r.select m
unfolding apply_method
columns_step r (Method.select columns) = refl
columns_step r _ = refl

-- The fields that no method changes.
pub record SameTarget (r r' : TableRequest) : Type 0 where
  pub schema : r'.schema ≡ r.schema
  pub table : r'.table ≡ r.table
  pub action : r'.action ≡ r.action
  pub count : r'.count ≡ r.count
  pub head : r'.head ≡ r.head

SameTarget-step : (r : TableRequest) (m : Method) → SameTarget r (apply_method r m)
unfolding apply_method
SameTarget-step r Method.csv = record {
  schema = refl;
  table = refl;
  action = refl;
  count = refl;
  head = refl;
}
SameTarget-step r _ = record {
  schema = refl;
  table = refl;
  action = refl;
  count = refl;
  head = refl;
}

pub SameTarget-chain : (ms : List Method) (r : TableRequest) → SameTarget r (apply_methods r ms)
unfolding apply_methods
SameTarget-chain [] r = record {
  schema = refl;
  table = refl;
  action = refl;
  count = refl;
  head = refl;
}
SameTarget-chain (m ∷ ms) r =
    let a = SameTarget-chain ms (apply_method r m) in
    let b = SameTarget-step r m in
    record {
      schema = a.schema ∙ b.schema;
      table = a.table ∙ b.table;
      action = a.action ∙ b.action;
      count = a.count ∙ b.count;
      head = a.head ∙ b.head;
    }

filters_step :
    (r : TableRequest) (m : Method)
    → or_else (apply_method r m).filters [] ≡ or_else r.filters [] ++ list_of (filter_of m)
unfolding apply_method
filters_step r (Method.order o) = rw append-nil
filters_step r (Method.limit n) = rw append-nil
filters_step r (Method.range from to) = rw append-nil
filters_step r Method.single = rw append-nil
filters_step r Method.maybe_single = rw append-nil
filters_step r Method.csv = rw append-nil
filters_step r (Method.select columns) = rw append-nil
filters_step r _ = refl

pub filters_lem :
    (ms : List Method) (r : TableRequest)
    → or_else (apply_methods r ms).filters [] ≡ or_else r.filters [] ++ filters_of ms
unfolding apply_methods
filters_lem [] r = rw append-nil
filters_lem (m ∷ ms) r =
    filters_lem ms (apply_method r m)
    ∙ ap (λ fs. fs ++ filters_of ms) (filters_step r m)
    ∙ append_assoc (or_else r.filters []) (list_of (filter_of m)) (filters_of ms)

orders_step :
    (r : TableRequest) (m : Method)
    → or_else (apply_method r m).order_by [] ≡ or_else r.order_by [] ++ order_of m
unfolding apply_method
orders_step r (Method.order o) = refl
orders_step r _ = rw append-nil

pub orders_lem :
    (ms : List Method) (r : TableRequest)
    → or_else (apply_methods r ms).order_by [] ≡ or_else r.order_by [] ++ orders_of ms
unfolding apply_methods
orders_lem [] r = rw append-nil
orders_lem (m ∷ ms) r =
    orders_lem ms (apply_method r m)
    ∙ ap (λ os. os ++ orders_of ms) (orders_step r m)
    ∙ append_assoc (or_else r.order_by []) (order_of m) (orders_of ms)
