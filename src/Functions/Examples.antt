-- ===== src/Functions/Examples.antt =====
-- The theorems on the functions client at concrete calls.
use securesupabase_js.Prelude.{◌≡◌, refl, true, none, some, []}
use securesupabase_js.Js.Text.{codes, str_eq, split, trim, trim_start, trim_end}
use securesupabase_js.Js.Json.{bool, obj, end}
use securesupabase_js.Js.Promise.{fulfilled, rejected}
use securesupabase_js.Functions.{
  Body, Options, Client, Response, Platform, Data, FunctionsResponse, ok, try_invoke, ◌>>=◌, invoke,
  read_response, read_data, response_type,
}
use securesupabase_js.Functions.Invoke.{Settled, invoke-Settled}

abbrev answer : Response
answer = record {
  ok = true;
  relay_error = none;
  content_type = some (codes "application/json; charset=utf-8");
  json = fulfilled (bool true);
  blob = rejected (codes "read");
  form_data = rejected (codes "read");
  text = rejected (codes "read");
}

abbrev platform : Platform
platform = record {
  fetch = λ request. fulfilled answer;
  is_url = λ address. true;
  url_error = codes "Invalid URL";
  stringify = λ b. codes "{}";
}

abbrev client : Client
client = record { url = codes "http://functions"; headers = []; region = codes "any" }

abbrev options : Options
options = record {
  headers = none;
  method = none;
  region = some (codes "us-east-1");
  body = some (Body.value (obj end));
}

invoke-Settled_example :
    (r : FunctionsResponse) × (invoke platform client (codes "hello") options ≡ ok r)
    × Settled platform r
invoke-Settled_example = invoke-Settled platform client (codes "hello") options

-- The answer is read as JSON.
invoke-json :
    invoke platform client (codes "hello") options
    ≡ ok (record { data_ = some (Data.json (bool true)); error = none; response = some answer })
unfolding invoke try_invoke ◌>>=◌ read_response read_data response_type str_eq split trim trim_start
    trim_end
invoke-json = refl
