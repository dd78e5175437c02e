-- ===== src/Postgrest/Http.antt =====
-- packages/core/postgrest-js/src/PostgrestBuilder.ts: the responses that `then` reads and gives, and the
-- errors that are thrown on the way. `fetch`, `JSON.parse`, `parseInt` and the printing of a URL are the
-- runtime's.
use securesupabase_js.Prelude.{ℕ, Bool, Option}
use securesupabase_js.Js.Text.{Str}
use securesupabase_js.Js.Json.{Json}
use securesupabase_js.Postgrest.Types.{Builder}

pub record Cause : Type 0 where
  pub name : Option Str
  pub message : Option Str
  pub code : Option Str
  pub stack : Option Str

-- An error that is thrown on the way: by `fetch`, by `JSON.parse`, or a TypeError.
pub record FetchError : Type 0 where
  pub name : Option Str
  pub message : Option Str
  pub code : Option Str
  pub stack : Option Str
  pub cause : Option Cause

pub data Result (A : Type 0) : Type 0 where
  ok : A → Result A
  threw : FetchError → Result A
  -- new PostgrestError(error)
  threw_postgrest_error : Json → Result A

infixl 5 ◌>>=◌
unfoldable pub ◌>>=◌ : {A B : Type 0} → Result A → (A → Result B) → Result B
ok a >>= f = f a
threw error >>= f = threw error
threw_postgrest_error error >>= f = threw_postgrest_error error

-- A call of the platform resolves or rejects.
pub data Attempt (A : Type 0) : Type 0 where
  resolves : A → Attempt A
  rejects : FetchError → Attempt A

abbrev pub await : {A : Type 0} → Attempt A → Result A
await (resolves a) = ok a
await (rejects error) = threw error

-- `body` is what `res.text()` resolves to.
pub record HttpResponse : Type 0 where
  pub ok : Bool
  pub status : ℕ
  pub status_text : Str
  pub body : Attempt Str
  pub content_range : Option Str

-- What the platform gives; `none` of `parse_int` is `NaN`.
pub record Platform : Type 0 where
  pub fetch : Builder → Attempt HttpResponse
  pub url_length : Builder → ℕ
  pub parse_int : Str → Option ℕ
  pub syntax_error : Str → FetchError
  pub type_error : FetchError
  -- `Headers.set` takes the value; it throws a TypeError for any other
  pub accepts_header : Str → Bool

pub data RowCount : Type 0 where
  absent nan : RowCount
  number : ℕ → RowCount

-- `none` and `absent` are `null`.
pub record Response : Type 0 where
  pub error : Option Json
  pub data_ : Option Json
  pub count : RowCount
  pub status : ℕ
  pub status_text : Str
