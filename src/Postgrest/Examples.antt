-- ===== src/Postgrest/Examples.antt =====
-- The theorems on the PostgREST client at concrete requests and responses.
use securesupabase_js.Prelude.{
  List, All, keep, ℕ, ◌≡◌, ◌≤◌, refl, Bool, true, false, Option, none, some, [], ◌∷◌, arith, map,
  any,
}
use securesupabase_js.Js.Text.{Str, codes, str_eq, join, has, split, trim, trim_start, trim_end}
use securesupabase_js.Js.Json.{Json, num, str, arr, Items, nil, cons}
use securesupabase_js.Edge.Query.{Order, Op, Filter, TableRequest, from_table}
use securesupabase_js.Edge.DbProxy.Guards.{is_allowed, parse_csv_allowlist, is_identifier}
use securesupabase_js.Edge.DbProxy.Filters.{op_name, call_of}
use securesupabase_js.Edge.DbProxy.Operations.{schema_name}
use securesupabase_js.Client.DbProxy.Plan.{IsAccepted, full_calls}
use securesupabase_js.Samples.{backend, table_request}
use securesupabase_js.Postgrest.Client.{Client}
use securesupabase_js.Postgrest.Plans.{apply_call, build}
use securesupabase_js.Postgrest.Plans.Ends.{IsColumn}
use securesupabase_js.Postgrest.Plans.Requests.{IsSound, values_of, request-built}
use securesupabase_js.Postgrest.Params.{append, get, get_all, set, header}
use securesupabase_js.Postgrest.Types.{Runtime, Builder, Method}
use securesupabase_js.Postgrest.Filters.{neq, like, add}
use securesupabase_js.Postgrest.Filters.Values.{
  cleaned_values, in_list, not_in, distinct, same_value, cleaned, has_reserved,
}
use securesupabase_js.Postgrest.Filters.Lists.{
  unique, IsBare, IsPlain, cleaned_values-injective, in_list-split,
}
use securesupabase_js.Postgrest.Transforms.{maybe_single, throw_on_error}
use securesupabase_js.Postgrest.Transforms.Orders.{orders, text_of, get-orders}
use securesupabase_js.Postgrest.Http.{resolves, ok, HttpResponse, Platform, FetchError, Response}
use securesupabase_js.Postgrest.Response.{send, prepared, wants_text}
use securesupabase_js.Postgrest.Response.Settled.{Settles, send-settles}
use securesupabase_js.Postgrest.Response.Rows.{Tells, send-Tells}

abbrev rows : Items
rows = cons (num 1) (cons (num 2) nil)

abbrev text : Json → Str
text (str s) = s
text _ = codes "2"

abbrev rt : Runtime
rt = record { text = text; stringify = text; parse_json = λ s. some (arr rows) }

abbrev failure : FetchError
failure = record { name = none; message = none; code = none; stack = none; cause = none }

abbrev answer : HttpResponse
answer = record {
  ok = true;
  status = 200;
  status_text = codes "OK";
  body = resolves (codes "[1,2]");
  content_range = none;
}

abbrev platform : Platform
platform = record {
  fetch = λ b. resolves answer;
  url_length = λ b. 30;
  parse_int = λ s. none;
  syntax_error = λ s. failure;
  type_error = failure;
  accepts_header = λ s. true;
}

abbrev builder : Builder
builder = record {
  method = Method.get;
  address = codes "http://db/notes";
  params = (codes "id", codes "eq.1") ∷ [];
  headers = [];
  schema = some (codes "public");
  body = none;
  should_throw_on_error = false;
  is_maybe_single = false;
  url_length_limit = 8000;
}

-- No letter up to 'z' after '"' and before '\\' is a quote or a backslash.
letter : (c : ℕ) → 93 ≤ c → IsBare c
letter c h = (λ e. omega arith, λ e. omega arith)

comma-IsBare : IsBare b','
comma-IsBare = (λ e. omega arith, λ e. omega arith)

cleaned_values-injective_example :
    unique (codes "a,b" ∷ codes "c" ∷ codes "a,b" ∷ []) ≡ unique (codes "a,b" ∷ codes "c" ∷ [])
unfolding cleaned_values distinct same_value cleaned has_reserved any keep join str_eq
cleaned_values-injective_example =
    cleaned_values-injective rt (codes "a,b") (codes "c" ∷ codes "a,b" ∷ []) (codes "a,b")
      (codes "c" ∷ []) (λ t. refl) (first, (second, (first, tt))) (first, (second, tt)) refl
  where
    first : IsPlain (codes "a,b")
    first = (refl, (letter b'a' (omega arith), (comma-IsBare, (letter b'b' (omega arith), tt))))

    second : IsPlain (codes "c")
    second = (refl, (letter b'c' (omega arith), tt))

in_list-split_example :
    (in_list rt (codes "name") (str (codes "a,\",\"b,") ∷ []) builder
      ≡ in_list rt (codes "name") (str (codes "a,") ∷ str (codes "b,") ∷ []) builder)
    × (not_in rt (codes "name") (str (codes "a,\",\"b,") ∷ []) builder
        ≡ not_in rt (codes "name") (str (codes "a,") ∷ str (codes "b,") ∷ []) builder)
unfolding has_reserved any str_eq
in_list-split_example =
    in_list-split rt (codes "name") (codes "a,") (codes "b,") builder refl refl refl

abbrev by : Str → Option Bool → Order
by column ascending = record {
  column = column;
  ascending = ascending;
  nulls_first = none;
  referenced_table = none;
}

no_order : get (codes "order") builder.params ≡ none
unfolding get str_eq
no_order = refl

get-orders_example :
    (get
        (codes "order")
        (orders none (by (codes "a") (some false) ∷ by (codes "b") none ∷ []) builder).params
      ≡ some
          (join (codes ",") (map text_of (by (codes "a") (some false) ∷ by (codes "b") none ∷ []))))
    × ((j : Str)
        → str_eq (codes "order") j ≡ false
        → get_all j
            (orders none (by (codes "a") (some false) ∷ by (codes "b") none ∷ []) builder).params
          ≡ get_all j builder.params)
get-orders_example =
    get-orders none (by (codes "a") (some false)) (by (codes "b") none ∷ []) builder no_order

send-settles_example : Settles rt platform builder (send rt platform builder)
send-settles_example = send-settles rt platform builder refl

abbrev strict : Builder
strict = throw_on_error (maybe_single builder)

strict-reads_json : wants_text rt platform (prepared strict) ≡ false
unfolding throw_on_error maybe_single prepared wants_text set str_eq header get_all any join
strict-reads_json = refl

send-Tells_example :
    (r : Response) × (send rt platform strict ≡ ok r) × Tells rt platform rows answer r
unfolding throw_on_error maybe_single
send-Tells_example =
    send-Tells rt platform strict answer b'[' (codes "1,2]") rows refl refl strict-reads_json refl
      refl refl refl refl

abbrev filter_by : Op → Json → Filter
filter_by op v = record {
  op = op;
  column = codes "owner";
  value = some v;
  values = none;
  config = none;
  operator = none;
}

abbrev two_filters : List Filter
two_filters = filter_by Op.neq (str (codes "ann")) ∷ filter_by Op.like (str (codes "a%")) ∷ []

abbrev filtered : TableRequest
filtered = record table_request { filters = some two_filters }

filtered-IsAccepted : IsAccepted backend filtered
unfolding is_allowed has str_eq parse_csv_allowlist is_identifier split trim trim_start trim_end
    keep schema_name op_name
filtered-IsAccepted = record {
  schema = refl;
  identifier = refl;
  table = refl;
  filters = ((refl, refl), ((refl, refl), tt));
  orders = tt;
}

owner-IsColumn : IsColumn (codes "owner")
unfolding is_identifier str_eq
owner-IsColumn = record {
  identifier = refl;
  no_select = refl;
  no_order = refl;
  no_limit = refl;
  no_offset = refl;
}

two_filters-IsSound : All (IsSound rt backend (codes "owner")) two_filters
unfolding call_of apply_call
two_filters-IsSound = ((λ e. cc), ((λ e. cc), tt))

abbrev client : Client
client = record {
  url = codes "http://db";
  headers = [];
  schema_name = none;
  url_length_limit = 8000;
}

request-built_example :
    (b : Builder) × (build rt
        (from_table (schema_name backend none) (codes "notes") (full_calls backend filtered))
        client
      ≡ some b)
    × (get_all (codes "owner") b.params ≡ values_of rt backend (codes "owner") two_filters)
    × (b.method ≡ Method.get)
    × (b.address ≡ codes "http://db/notes")
    × (b.schema ≡ some (schema_name backend none))
request-built_example =
    request-built rt backend (codes "owner") owner-IsColumn filtered client filtered-IsAccepted refl
      two_filters-IsSound

-- Both filters are in the URL.
values_of-two_filters :
    values_of rt backend (codes "owner") two_filters ≡ codes "neq.ann" ∷ codes "like.a%" ∷ []
unfolding values_of call_of apply_call neq like add append get_all str_eq
values_of-two_filters = refl
