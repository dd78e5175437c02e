-- ===== src/Postgrest/Response/Settled.antt =====
-- How a request of a query builder ends.
use securesupabase_js.Prelude.{
  ◌≡◌, ◌⊎◌, ◌∙◌, refl, ap, inl, inr, Bool, true, false, ◌&&◌, Option, none, some, [], ◌∷◌,
  if◌then◌else◌, Option-cases, Bool-cases, arith,
}
use securesupabase_js.Js.Text.{Str, codes}
use securesupabase_js.Js.Json.{Json, null, str, arr, Items, nil, cons}
use securesupabase_js.Postgrest.Types.{Runtime, Builder}
use securesupabase_js.Postgrest.Http.{
  FetchError, await, Result, ok, threw, threw_postgrest_error, HttpResponse, Platform, Response,
  ◌>>=◌,
}
use securesupabase_js.Postgrest.Failure.{error_response}
use securesupabase_js.Postgrest.Response.{
  set_header, reads, profile, prepared, parse, data_of, wants_text, error_details, forgiven,
  take_row, take_row_of, single_row, after_success, failure, plain_failure, parsed_failure,
  says_no_rows, thrown, forgive_no_rows, after_failure, respond, catch_error, has_error,
  accepts_schema, prepare, send_prepared, send,
}
use securesupabase_js.Postgrest.Response.Ends.{
  Ends, Anything, Ends-ok, Ends-await, Ends-threw, Ends-if, Ends-bind,
}

-- Never both an error and data.
abbrev pub IsExclusive : Response → Type 0
IsExclusive r = (r.error ≡ none) ⊎ (r.data_ ≡ none)

profile-should_throw :
    (schema : Option Str) (reading : Bool) (b : Builder)
    → (profile schema reading b).should_throw_on_error ≡ b.should_throw_on_error
profile-should_throw none reading b = refl
profile-should_throw (some schema) true b = refl
profile-should_throw (some schema) false b = refl

prepared-should_throw : (b : Builder) → (prepared b).should_throw_on_error ≡ b.should_throw_on_error
unfolding prepared
prepared-should_throw b = shown (reads b.method) (profile-should_throw b.schema (reads b.method) b)
  where
    shown :
        (reading : Bool)
        → (profile b.schema (reads b.method) b).should_throw_on_error ≡ b.should_throw_on_error
        → (if reading
            then profile b.schema (reads b.method) b
            else set_header
                (codes "content-type")
                (codes "application/json")
                (profile b.schema (reads b.method) b)).should_throw_on_error
          ≡ b.should_throw_on_error
    shown true e = e
    shown false e = e

module _ (rt : Runtime) (platform : Platform) where
  take_row-IsExclusive :
      (r : Response) (vs : Items) → r.error ≡ none → IsExclusive (take_row rt platform r vs)
  take_row-IsExclusive r nil e = inl e
  take_row-IsExclusive r (cons v nil) e = inl e
  take_row-IsExclusive r (cons v (cons w vs)) e = inr refl

  take_row_of-IsExclusive :
      (r : Response) (found : Option Json)
      → r.error ≡ none
      → IsExclusive (take_row_of rt platform r found)
  take_row_of-IsExclusive r (some (arr vs)) e = take_row-IsExclusive r vs e
  take_row_of-IsExclusive r none e = inl e
  take_row_of-IsExclusive r (some _) e = inl e

  single_row-IsExclusive :
      (b : Builder) (r : Response) → r.error ≡ none → IsExclusive (single_row rt platform b r)
  unfolding single_row
  single_row-IsExclusive b r e = choose _ (take_row_of-IsExclusive r r.data_ e)
    where
      choose :
          (c : Bool)
          → IsExclusive (take_row_of rt platform r r.data_)
          → IsExclusive (if c then take_row_of rt platform r r.data_ else r)
      choose true h = h
      choose false h = inl e

  Ends-parse : (throwing : Bool) (body : Str) → Ends throwing Anything (parse rt platform body)
  unfolding parse
  Ends-parse throwing body = elim (Option-cases (rt.parse_json body)) [
    | inl e ↦ rw (parse, e) (Ends-threw throwing (platform.syntax_error body))
    | inr (v, e) ↦ rw (parse, e) (Ends-ok throwing v tt)
  ]

  Ends-data_of :
      (throwing : Bool) (b : Builder) (body : Str)
      → Ends throwing Anything (data_of rt platform b body)
  unfolding data_of
  Ends-data_of throwing b [] = Ends-ok throwing none tt
  Ends-data_of throwing b (c ∷ body) =
      Ends-if throwing (wants_text rt platform b) (ok (some (str (c ∷ body))))
        (parse rt platform (c ∷ body) >>= λ v. ok (some v))
        (λ _. Ends-ok throwing (some (str (c ∷ body))) tt)
        (λ _.
          Ends-bind throwing (parse rt platform (c ∷ body)) (λ v. ok (some v))
            (Ends-parse throwing (c ∷ body)) (λ v _. Ends-ok throwing (some v) tt))

  Ends-after_success :
      (throwing : Bool) (b : Builder) (res : HttpResponse)
      → Ends throwing IsExclusive (after_success rt platform b res)
  unfolding after_success
  Ends-after_success throwing b res =
      Ends-bind {P = Anything} throwing _ _
        (Ends-if throwing _ _ _ (λ _. Ends-ok throwing none tt)
          (λ _.
            Ends-bind throwing _ _ (Ends-await throwing res.body)
              (λ body _. Ends-data_of throwing b body)))
        (λ found _. Ends-ok throwing _ (single_row-IsExclusive b _ refl))

  failure-IsExclusive :
      (res : HttpResponse) (body : Str) → IsExclusive (failure rt platform res body)
  unfolding failure
  failure-IsExclusive res body = elim (Option-cases (rt.parse_json body)) [
    | inl e ↦ rw (failure, e) (plain res body)
    | inr (v, e) ↦ rw (failure, e) (parsed res v)
  ]
    where
      plain :
          (res' : HttpResponse) (body' : Str) → IsExclusive (plain_failure rt platform res' body')
      plain res' body' = ground arith

      parsed : (res' : HttpResponse) (v : Json) → IsExclusive (parsed_failure rt platform res' v)
      parsed res' (arr vs) = ground arith
      parsed res' null = inr refl
      parsed res' _ = inr refl

  Ends-says_no_rows :
      (throwing : Bool) (details : Option Json)
      → Ends throwing Anything (says_no_rows rt platform details)
  Ends-says_no_rows throwing none = Ends-ok throwing false tt
  Ends-says_no_rows throwing (some null) = Ends-ok throwing false tt
  Ends-says_no_rows throwing (some (str s)) = Ends-ok throwing _ tt
  Ends-says_no_rows throwing (some (arr vs)) = Ends-ok throwing _ tt
  Ends-says_no_rows throwing (some _) = Ends-threw throwing platform.type_error

  forgiven-IsExclusive :
      (r : Response) (empty : Bool) → IsExclusive r → IsExclusive (forgiven rt platform r empty)
  forgiven-IsExclusive r true h = inl refl
  forgiven-IsExclusive r false h = h

  Ends-forgive :
      (throwing : Bool) (b : Builder) (r : Response)
      → IsExclusive r
      → Ends throwing IsExclusive (forgive_no_rows rt platform b r)
  unfolding forgive_no_rows
  Ends-forgive throwing b r h =
      Ends-if throwing (has_error rt platform r && b.is_maybe_single)
        (says_no_rows rt platform (error_details rt platform r) >>= λ empty.
          ok (forgiven rt platform r empty))
        (ok r)
        (λ _.
          Ends-bind throwing (says_no_rows rt platform (error_details rt platform r))
            (λ empty. ok (forgiven rt platform r empty))
            (Ends-says_no_rows throwing (error_details rt platform r))
            (λ empty _.
              Ends-ok throwing (forgiven rt platform r empty) (forgiven-IsExclusive r empty h)))
        (λ _. Ends-ok throwing r h)

  Ends-thrown :
      (throwing : Bool) (error : Option Json) (r : Response)
      → IsExclusive r
      → throwing ≡ true
      → Ends throwing IsExclusive (thrown rt platform error r)
  Ends-thrown throwing none r h t = Ends-ok throwing r h
  Ends-thrown throwing (some e) r h t = record { holds = t }

  Ends-after_failure :
      (b : Builder) (res : HttpResponse)
      → Ends b.should_throw_on_error IsExclusive (after_failure rt platform b res)
  unfolding after_failure
  Ends-after_failure b res =
      let throwing = b.should_throw_on_error in
      Ends-bind {P = Anything} throwing _ _ (Ends-await throwing res.body) λ body _.
        Ends-bind throwing _ _ (Ends-forgive throwing b _ (failure-IsExclusive res body)) λ r h.
          Ends-if throwing _ _ _ (λ both. Ends-thrown throwing r.error r h (and_right _ _ both))
            (λ _. Ends-ok throwing r h)
    where
      and_right : (c d : Bool) → (c && d) ≡ true → d ≡ true
      and_right c d e = ground arith

  Ends-respond :
      (b : Builder) (res : HttpResponse)
      → Ends b.should_throw_on_error IsExclusive (respond rt platform b res)
  unfolding respond
  Ends-respond b res =
      Ends-if b.should_throw_on_error _ _ _ (λ _. Ends-after_success b.should_throw_on_error b res)
        (λ _. Ends-after_failure b res)

  error_response-IsExclusive :
      (b : Builder) (e : FetchError) → IsExclusive (error_response rt platform b e)
  unfolding error_response
  error_response-IsExclusive b e = inr refl

  catch_error-settles :
      (b : Builder) (m : Result Response)
      → Ends b.should_throw_on_error IsExclusive m
      → b.should_throw_on_error ≡ false
      → (r : Response) × (catch_error rt platform b m ≡ ok r) × IsExclusive r
  catch_error-settles b (ok r) h quiet = (r, refl, h.holds)
  catch_error-settles b (threw e) h quiet = (
    error_response rt platform b e,
    ap (λ t. if t then threw e else ok (error_response rt platform b e)) quiet,
    error_response-IsExclusive b e,
  )
  catch_error-settles b (threw_postgrest_error e) h quiet = let t = h.holds in ground arith

  send_prepared-settles :
      (b : Builder)
      → b.should_throw_on_error ≡ false
      → (r : Response) × (send_prepared rt platform b ≡ ok r) × IsExclusive r
  unfolding send_prepared
  send_prepared-settles b quiet =
      catch_error-settles b (await (platform.fetch b) >>= respond rt platform b)
        (Ends-bind b.should_throw_on_error (await (platform.fetch b)) (respond rt platform b)
          (Ends-await b.should_throw_on_error (platform.fetch b)) (λ res _. Ends-respond b res))
        quiet

  -- What a request comes to: a response that never has both an error and data, if the schema may be
  -- the value of a header, and a TypeError if it may not.
  pub data Settles (b : Builder) : Result Response → Type 0 where
    resolved :
        (r : Response) → accepts_schema rt platform b ≡ true → IsExclusive r → Settles b (ok r)
    refused : accepts_schema rt platform b ≡ false → Settles b (threw platform.type_error)

  -- A request whose errors are not to be thrown resolves, whatever the platform and the server do, to
  -- a response that never has both an error and data, if its schema may be the value of a header; for
  -- any other schema it throws a TypeError.
  pub send-settles :
      (b : Builder) → b.should_throw_on_error ≡ false → Settles b (send rt platform b)
  unfolding send prepare ◌>>=◌
  send-settles b quiet = elim (Bool-cases (accepts_schema rt platform b)) [
    | inl taken ↦
        let (r, sent, exclusive) =
          send_prepared-settles (prepared b) (prepared-should_throw b ∙ quiet) in
        rw (taken, sent) (resolved r taken exclusive)
    | inr other ↦ rw (other) (refused other)
  ]
