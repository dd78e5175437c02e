-- ===== src/Postgrest/Client.antt =====
-- packages/core/postgrest-js/src/PostgrestClient.ts. The timeout of `fetch` is left out.
use securesupabase_js.Prelude.{
  ℕ, Bool, true, false, ◌||◌, Option, none, some, List, [], ◌∷◌, ◌++◌, if◌then◌else◌,
}
use mathlib.Core.Option
use securesupabase_js.Js.Text.{Str, codes, trim, nonempty, or_else}
use securesupabase_js.Js.Json.{Json, arr, obj, Items, nil, cons}
use securesupabase_js.Edge.Query.{Count}
use securesupabase_js.Postgrest.Params.{Params, Headers, append, set}
use securesupabase_js.Postgrest.Types.{Runtime, Builder, Method}
use securesupabase_js.Postgrest.Filters.Values.{array_text}
use securesupabase_js.Postgrest.Query.{QueryBuilder, count_text, entries_of}

pub record Client : Type 0 where
  pub url : Str
  pub headers : Headers
  pub schema_name : Option Str
  pub url_length_limit : ℕ

-- `none` is the error of an invalid relation name.
unfoldable pub from : Str → Client → Option QueryBuilder
unfolding trim
from relation client =
    if nonempty (trim relation)
    then some (record {
      address = client.url ++ (codes "/" ++ relation);
      params = [];
      headers = client.headers;
      schema = client.schema_name;
      url_length_limit = client.url_length_limit;
    })
    else none

unfoldable pub schema : Str → Client → Client
schema name client = record client { schema_name = some name }

-- _isObject, with `some` over the elements of an array
unfoldable mutual
  pub is_object : Json → Bool
  is_object (obj fields) = true
  is_object (arr vs) = any_object vs
  is_object _ = false

  any_object : Items → Bool
  any_object nil = false
  any_object (cons v vs) = is_object v || any_object vs

any_object_value : List (Str × Json) → Bool
unfolding is_object
any_object_value [] = false
any_object_value ((k, v) ∷ entries) = is_object v || any_object_value entries

module _ (rt : Runtime) where
  abbrev argument_text : Json → Str
  argument_text (arr vs) = array_text rt vs
  argument_text v = rt.text v

  unfoldable pub add_arguments : List (Str × Json) → Params → Params
  unfolding append array_text
  add_arguments [] params = params
  add_arguments ((k, v) ∷ entries) params =
      add_arguments entries (append k (argument_text v) params)

  -- The request that a call of a function starts with.
  abbrev pub call_builder : Str → Client → Method → Params → Option Json → Builder
  call_builder fn client method params body = record {
    method = method;
    address = client.url ++ (codes "/rpc/" ++ fn);
    params = params;
    headers = client.headers;
    schema = client.schema_name;
    body = body;
    should_throw_on_error = false;
    is_maybe_single = false;
    url_length_limit = client.url_length_limit;
  }

  abbrev set_prefer : Str → Builder → Builder
  set_prefer v b = record b { headers = set (codes "prefer") v b.headers }

  abbrev minimal_prefer : Option Count → Str
  minimal_prefer none = codes "return=minimal"
  minimal_prefer (some count) = count_text count ++ codes ",return=minimal"

  abbrev count_prefer : Option Count → Builder → Builder
  count_prefer none b = b
  count_prefer (some count) b = set_prefer (count_text count) b

  -- A call whose arguments are the search parameters, by `HEAD` or `GET`.
  unfoldable pub read_call :
      Str → (head : Bool) → Option Count → Client → List (Str × Json) → Builder
  unfolding add_arguments set
  read_call fn head count client entries = count_prefer count (
      call_builder fn client (if head then Method.head else Method.get) (add_arguments entries [])
        none)

  unfoldable pub rpc_head : Str → Json → Option Count → Client → List (Str × Json) → Builder
  unfolding read_call any_object_value set
  rpc_head fn args count client entries =
      if any_object_value entries
      then set_prefer (minimal_prefer count) (call_builder fn client Method.post [] (some args))
      else read_call fn true count client entries

  -- `none` is a TypeError: a call by `HEAD` or `GET` without an object of arguments.
  unfoldable pub rpc :
      Str → Json → (head get : Option Bool) → Option Count → Client → Option Builder
  unfolding rpc_head read_call entries_of set
  rpc fn args head get count client =
      if or_else head false
      then Option.map (rpc_head fn args count client) (entries_of rt args)
      else if or_else get false
      then Option.map (read_call fn false count client) (entries_of rt args)
      else some (count_prefer count (call_builder fn client Method.post [] (some args)))
