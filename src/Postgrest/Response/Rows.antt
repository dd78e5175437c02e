-- ===== src/Postgrest/Response/Rows.antt =====
-- How `maybeSingle` reads the rows of a GET: `then` of packages/core/postgrest-js/src/PostgrestBuilder.ts.
use securesupabase_js.Prelude.{
  ℕ, suc, ltb, ◌≡◌, ◌∙◌, refl, sym, ap, Bool, true, false, Option, none, some, ◌∷◌, if◌then◌else◌,
  arith,
}
use securesupabase_js.Js.Text.{Str}
use securesupabase_js.Js.Json.{Json, arr, Items, nil, cons}
use securesupabase_js.Postgrest.Types.{Runtime, Builder, Method}
use securesupabase_js.Postgrest.Http.{resolves, ok, HttpResponse, Platform, Response, ◌>>=◌}
use securesupabase_js.Postgrest.Response.{
  prepared, parse, data_of, wants_text, count_of, count_items, many_rows_error, take_row,
  single_row, after_success, respond, send, profile, accepts_schema, prepare, send_prepared,
}

-- The row of a list of one.
abbrev pub only : Items → Option Json
only (cons v nil) = some v
only vs = none

profile-kept :
    (schema : Option Str) (reading : Bool) (b : Builder)
    → ((profile schema reading b).method ≡ b.method)
      × ((profile schema reading b).is_maybe_single ≡ b.is_maybe_single)
profile-kept none reading b = (refl, refl)
profile-kept (some schema) true b = (refl, refl)
profile-kept (some schema) false b = (refl, refl)

-- A GET is prepared by its profile header alone.
prepared-get : (b : Builder) → b.method ≡ Method.get → prepared b ≡ profile b.schema true b
unfolding prepared
prepared-get b get = rw (get) refl

module _ (rt : Runtime) (platform : Platform) where
  -- A response to the rows: the only one is the data, and more than one are the error.
  abbrev pub Tells : Items → HttpResponse → Response → Type 0
  Tells vs res r =
      (r.data_ ≡ only vs)
      × (r.error ≡ (if ltb 1 (count_items vs) then some (many_rows_error rt platform vs) else none))
      × (r.status ≡ (if ltb 1 (count_items vs) then 406 else res.status))

  take_row-Tells :
      (res : HttpResponse) (r : Response) (vs : Items)
      → r.error ≡ none
      → r.status ≡ res.status
      → Tells vs res (take_row rt platform r vs)
  unfolding count_items
  take_row-Tells res r nil e s = (refl, e, s)
  take_row-Tells res r (cons v nil) e s = (refl, e, s)
  take_row-Tells res r (cons v (cons w vs)) e s = (
    refl,
    ap (λ t. if t then some (many_rows_error rt platform (cons v (cons w vs))) else none)
        (sym many),
    ap (λ t. if t then 406 else res.status) (sym many),
  )
    where
      many : ltb 1 (suc (suc (count_items vs))) ≡ true
      many = ground arith

  parse-found :
      (body : Str) (v : Json) → rt.parse_json body ≡ some v → parse rt platform body ≡ ok v
  unfolding parse
  parse-found body v parsed = rw (parse, parsed) refl

  data_of-parsed :
      (b : Builder) (c : ℕ) (body : Str) (v : Json)
      → wants_text rt platform b ≡ false
      → rt.parse_json (c ∷ body) ≡ some v
      → data_of rt platform b (c ∷ body) ≡ ok (some v)
  unfolding data_of ◌>>=◌
  data_of-parsed b c body v wants parsed = rw (wants, parse-found (c ∷ body) v parsed) refl

  single_row-Tells :
      (b : Builder) (res : HttpResponse) (r : Response) (vs : Items)
      → b.is_maybe_single ≡ true
      → b.method ≡ Method.get
      → r.data_ ≡ some (arr vs)
      → r.error ≡ none
      → r.status ≡ res.status
      → Tells vs res (single_row rt platform b r)
  unfolding single_row
  single_row-Tells b res r vs maybe get found e s =
      rw (maybe, get, found) (take_row-Tells res r vs e s)

  abbrev found : Builder → HttpResponse → Items → Response
  found b res vs = record {
    error = none;
    data_ = some (arr vs);
    count = count_of rt platform b res.content_range;
    status = res.status;
    status_text = res.status_text;
  }

  after_success-found :
      (b : Builder) (res : HttpResponse) (c : ℕ) (body : Str) (vs : Items)
      → b.method ≡ Method.get
      → res.body ≡ resolves (c ∷ body)
      → data_of rt platform b (c ∷ body) ≡ ok (some (arr vs))
      → after_success rt platform b res ≡ ok (single_row rt platform b (found b res vs))
  unfolding after_success ◌>>=◌
  after_success-found b res c body vs get read data_ = simp (get, read, data_)

  send-fetched :
      (b : Builder) (res : HttpResponse) (r : Response)
      → accepts_schema rt platform b ≡ true
      → platform.fetch (prepared b) ≡ resolves res
      → res.ok ≡ true
      → after_success rt platform (prepared b) res ≡ ok r
      → send rt platform b ≡ ok r
  unfolding send prepare send_prepared respond ◌>>=◌
  send-fetched b res r taken fetched fine after = rw (taken) (simp (fetched, fine, after))

  -- A `maybeSingle` read by GET whose schema may be the value of a header and that is answered by an
  -- array of rows always resolves, also when errors are to be thrown: its data is the only row of the array, and nothing if there is none or
  -- several, which alone is an error, of status 406.
  pub send-Tells :
      (b : Builder) (res : HttpResponse) (c : ℕ) (body : Str) (vs : Items)
      → b.is_maybe_single ≡ true
      → b.method ≡ Method.get
      → wants_text rt platform (prepared b) ≡ false
      → accepts_schema rt platform b ≡ true
      → platform.fetch (prepared b) ≡ resolves res
      → res.ok ≡ true
      → res.body ≡ resolves (c ∷ body)
      → rt.parse_json (c ∷ body) ≡ some (arr vs)
      → (r : Response) × (send rt platform b ≡ ok r) × Tells vs res r
  send-Tells b res c body vs maybe get wants taken fetched fine read parsed =
      let after = data_of-parsed (prepared b) c body (arr vs) wants parsed in
      let kept = profile-kept b.schema true b in
      let method = ap (λ b'. b'.method) (prepared-get b get) ∙ kept.0 ∙ get in
      let single = ap (λ b'. b'.is_maybe_single) (prepared-get b get) ∙ kept.1 ∙ maybe in
      let r = single_row rt platform (prepared b) (found (prepared b) res vs) in
      (
        r,
        send-fetched b res r taken fetched fine
            (after_success-found (prepared b) res c body vs method read after),
        single_row-Tells (prepared b) res (found (prepared b) res vs) vs single method refl refl
            refl,
      )
