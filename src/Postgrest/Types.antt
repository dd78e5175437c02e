-- ===== src/Postgrest/Types.antt =====
-- packages/core/postgrest-js/src/PostgrestBuilder.ts: the members of a builder. A builder is
-- mutable; each method of the other modules returns the builder after it.
use securesupabase_js.Prelude.{ℕ, Bool, Option}
use securesupabase_js.Js.Text.{Str}
use securesupabase_js.Js.Json.{Json}
use securesupabase_js.Postgrest.Params.{Params, Headers}

pub data Method : Type 0 where
  get head post patch delete : Method

-- `${value}`, `JSON.stringify` and `JSON.parse` of the runtime.
pub record Runtime : Type 0 where
  pub text : Json → Str
  pub stringify : Json → Str
  pub parse_json : Str → Option Json

-- `address` is the URL without its search parameters. `fetch` and `signal` are the platform's.
pub record Builder : Type 0 where
  pub method : Method
  pub address : Str
  pub params : Params
  pub headers : Headers
  pub schema : Option Str
  pub body : Option Json
  pub should_throw_on_error : Bool
  pub is_maybe_single : Bool
  pub url_length_limit : ℕ
