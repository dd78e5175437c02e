-- ===== src/Postgrest/Response.antt =====
-- packages/core/postgrest-js/src/PostgrestBuilder.ts: `then`, which sends the request and reads what
-- comes back. `fetch`, `JSON.parse`, `parseInt` and the printing of a URL are the runtime's.
pub mod Ends
pub mod Settled
pub mod Rows
use securesupabase_js.Prelude.{
  String, ℕ, suc, ltb, Bool, true, false, not, ◌&&◌, ◌||◌, ◌==◌, Option, none, some, List, [], ◌∷◌,
  ◌++◌, length, get_elem?, if◌then◌else◌,
}
use securesupabase_js.Js.Text.{Str, codes, split, str_eq, nonempty, truthy, or_else}
use securesupabase_js.Js.Json.{
  Json, null, num, str, arr, obj, Items, nil, cons, field, end, object1, member,
}
use securesupabase_js.Edge.E2ee.{is_truthy}
use securesupabase_js.Client.Invoker.{includes}
use securesupabase_js.Postgrest.Params.{Params, Headers, set, header}
use securesupabase_js.Postgrest.Types.{Runtime, Builder, Method}
use securesupabase_js.Postgrest.Http.{
  Cause, FetchError, Result, ok, threw, threw_postgrest_error, Attempt, resolves, rejects, await,
  HttpResponse, Platform, RowCount, absent, nan, number, Response, ◌>>=◌,
}
use securesupabase_js.Postgrest.Failure.{error_response}

abbrev pub set_header : Str → Str → Builder → Builder
set_header name v b = record b { headers = set name v b.headers }

abbrev pub reads : Method → Bool
reads Method.get = true
reads Method.head = true
reads _ = false

abbrev pub profile : Option Str → Bool → Builder → Builder
profile none reading b = b
profile (some schema) true b = set_header (codes "accept-profile") schema b
profile (some schema) false b = set_header (codes "content-profile") schema b

-- The builder with the headers that are set before the request is sent.
unfoldable pub prepared : Builder → Builder
unfolding set
prepared b =
    let b' : Builder = profile b.schema (reads b.method) b in
    if reads b.method then b' else set_header (codes "content-type") (codes "application/json") b'

abbrev is_head : Method → Bool
is_head Method.head = true
is_head _ = false

abbrev is_get : Method → Bool
is_get Method.get = true
is_get _ = false

unfoldable pub count_items : Items → ℕ
count_items nil = 0
count_items (cons v vs) = suc (count_items vs)

module _ (rt : Runtime) (platform : Platform) where
  unfoldable pub parse : Str → Result Json
  parse body = elim (rt.parse_json body) [
    | none ↦ threw (platform.syntax_error body)
    | some v ↦ ok v
  ]

  abbrev is_text_type : Str → Bool
  is_text_type accept =
      str_eq accept (codes "text/csv") || includes accept (codes "application/vnd.pgrst.plan+text")

  unfoldable pub wants_text : Builder → Bool
  unfolding header includes str_eq
  wants_text b = is_text_type (or_else (header (codes "accept") b.headers) [])

  -- The body as a text for CSV and plans, and as JSON for all else; an empty body is no data.
  unfoldable pub data_of : Builder → Str → Result (Option Json)
  data_of b [] = ok none
  data_of b (c ∷ body) =
      if wants_text b then ok (some (str (c ∷ body))) else (do v ← parse (c ∷ body); ok (some v))

  -- this.headers.get('Prefer')?.match(/count=(exact|planned|estimated)/)
  abbrev asks_count : Str → Bool
  asks_count prefer =
      includes prefer (codes "count=exact")
      || includes prefer (codes "count=planned")
      || includes prefer (codes "count=estimated")

  abbrev count_from : Option Str → RowCount
  count_from none = RowCount.absent
  count_from (some s) = elim (platform.parse_int s) [
    | none ↦ RowCount.nan
    | some n ↦ RowCount.number n
  ]

  unfoldable pub count_of : Builder → Option Str → RowCount
  unfolding header includes split
  count_of b none = RowCount.absent
  count_of b (some content_range) =
      if asks_count (or_else (header (codes "prefer") b.headers) [])
      then count_from (get_elem? (split b'/' content_range) 1)
      else RowCount.absent

  -- { code, details, hint, message }
  abbrev pub many_rows_error : Items → Json
  many_rows_error vs = obj (
      field (codes "code") (str (codes "PGRST116")) (
        field (codes "details")
          (str (
            codes "Results contain "
            ++ (rt.text (num (count_items vs))
                ++ codes " rows, application/vnd.pgrst.object+json requires 1 row")))
          (field (codes "hint") null (
            field (codes "message")
              (str (codes "JSON object requested, multiple (or no) rows returned")) end))))

  abbrev pub take_row : Response → Items → Response
  take_row r nil = record r { data_ = none }
  take_row r (cons v nil) = record r { data_ = some v }
  take_row r (cons v (cons w vs)) = record r {
    error = some (many_rows_error (cons v (cons w vs)));
    data_ = none;
    count = RowCount.absent;
    status = 406;
    status_text = codes "Not Acceptable";
  }

  abbrev pub take_row_of : Response → Option Json → Response
  take_row_of r (some (arr vs)) = take_row r vs
  take_row_of r _ = r

  -- The one row of the array that `maybeSingle` reads by GET.
  unfoldable pub single_row : Builder → Response → Response
  single_row b r = if b.is_maybe_single && is_get b.method then take_row_of r r.data_ else r

  unfoldable pub after_success : Builder → HttpResponse → Result Response
  after_success b res = do
    data_ ← if is_head b.method then ok none else (do body ← await res.body; data_of b body)
    ok (
        single_row b (record {
          error = none;
          data_ = data_;
          count = count_of b res.content_range;
          status = res.status;
          status_text = res.status_text;
        }))

  -- A JSON value as an error: `null` is none.
  abbrev error_json : Json → Option Json
  error_json null = none
  error_json v = some v

  abbrev pub failed_with : HttpResponse → Option Json → Response
  failed_with res error = record {
    error = error;
    data_ = none;
    count = RowCount.absent;
    status = res.status;
    status_text = res.status_text;
  }

  -- A body that is JSON.
  abbrev pub parsed_failure : HttpResponse → Json → Response
  parsed_failure res (arr vs) =
      if res.status == 404
      then record (failed_with res none) {
        data_ = some (arr nil);
        status = 200;
        status_text = codes "OK";
      }
      else failed_with res (some (arr vs))
  parsed_failure res v = failed_with res (error_json v)

  -- A body that is not.
  abbrev pub plain_failure : HttpResponse → Str → Response
  plain_failure res body =
      if res.status == 404 && not (nonempty body)
      then record (failed_with res none) { status = 204; status_text = codes "No Content" }
      else failed_with res (some (object1 (codes "message") (str body)))

  unfoldable pub failure : HttpResponse → Str → Response
  failure res body = elim (rt.parse_json body) [
    | none ↦ plain_failure res body
    | some v ↦ parsed_failure res v
  ]

  abbrev pub has_error : Response → Bool
  has_error r = elim r.error [ none ↦ false | some e ↦ is_truthy e ]

  pub any_text : Str → Items → Bool
  unfolding str_eq
  any_text s nil = false
  any_text s (cons (str t) vs) = str_eq t s || any_text s vs
  any_text s (cons v vs) = any_text s vs

  -- details?.includes('0 rows'), a TypeError where `details` has no such method
  abbrev pub says_no_rows : Option Json → Result Bool
  says_no_rows none = ok false
  says_no_rows (some null) = ok false
  says_no_rows (some (str s)) = ok (includes s (codes "0 rows"))
  says_no_rows (some (arr vs)) = ok (any_text (codes "0 rows") vs)
  says_no_rows (some _) = threw platform.type_error

  abbrev pub forgiven : Response → Bool → Response
  forgiven r empty =
      if empty then record r { error = none; status = 200; status_text = codes "OK" } else r

  abbrev pub error_details : Response → Option Json
  error_details r = elim r.error [ none ↦ none | some e ↦ member (codes "details") e ]

  -- No row is no error for `maybeSingle`.
  unfoldable pub forgive_no_rows : Builder → Response → Result Response
  forgive_no_rows b r =
      if has_error r && b.is_maybe_single
      then (do empty ← says_no_rows (error_details r); ok (forgiven r empty))
      else ok r

  abbrev pub thrown : Option Json → Response → Result Response
  thrown none r = ok r
  thrown (some e) r = threw_postgrest_error e

  unfoldable pub after_failure : Builder → HttpResponse → Result Response
  after_failure b res = do
    body ← await res.body
    r ← forgive_no_rows b (failure res body)
    if has_error r && b.should_throw_on_error then thrown r.error r else ok r

  -- The callback on the response of `fetch`.
  unfoldable pub respond : Builder → HttpResponse → Result Response
  respond b res = if res.ok then after_success b res else after_failure b res

  -- `res.catch(…)`, unless errors are to be thrown. A PostgrestError is not thrown there.
  abbrev pub catch_error : Builder → Result Response → Result Response
  catch_error b (ok r) = ok r
  catch_error b (threw e) =
      if b.should_throw_on_error then threw e else ok (error_response rt platform b e)
  catch_error b (threw_postgrest_error e) = threw_postgrest_error e

  -- a schema that may be the value of a header
  abbrev pub accepts_schema : Builder → Bool
  accepts_schema b = elim b.schema [ none ↦ true | some schema ↦ platform.accepts_header schema ]

  -- The headers are set outside of the promise, whose `catch` does not see the TypeError.
  unfoldable pub prepare : Builder → Result Builder
  prepare b = if accepts_schema b then ok (prepared b) else threw platform.type_error

  unfoldable pub send_prepared : Builder → Result Response
  send_prepared b = catch_error b (do res ← await (platform.fetch b); respond b res)

  -- then
  unfoldable pub send : Builder → Result Response
  send b = do b' ← prepare b; send_prepared b'
