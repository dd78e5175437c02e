-- ===== src/Functions/Invoke.antt =====
-- What `invoke` of packages/core/functions-js/src/FunctionsClient.ts sends and gives back.
use securesupabase_js.Prelude.{
  ◌≡◌, refl, inl, inr, Bool, true, false, not, Option, none, some, [], ◌∷◌, if◌then◌else◌,
  Bool-cases,
}
use securesupabase_js.Js.Text.{Str, codes}
use securesupabase_js.Js.Promise.{Outcome, fulfilled, rejected}
use securesupabase_js.Postgrest.Params.{Params}
use securesupabase_js.Functions.{
  Body, Options, Client, Response, Platform, Data, Error, FunctionsResponse, request_of, failed,
  read_data, is_relayed, read_response, finish, Result, ok, threw, await, try_invoke, to_response,
  invoke, ◌>>=◌,
}

module _ (platform : Platform) where
  -- What `invoke` may give: data of a response that is no error, or an error without data, with the
  -- response if the function or the relay gave one that is an error.
  pub data Settled : FunctionsResponse → Type 0 where
    answered :
        (res : Response) (found : Data)
        → res.ok ≡ true
        → is_relayed platform res ≡ false
        → Settled (record { data_ = some found; error = none; response = some res })
    refused :
        (res : Response)
        → res.ok ≡ false
        → Settled
            (record { data_ = none; error = some (Error.http_error res); response = some res })
    not_relayed :
        (res : Response)
        → is_relayed platform res ≡ true
        → Settled
            (record { data_ = none; error = some (Error.relay_error res); response = some res })
    not_sent :
        (message : Str)
        → Settled
            (record { data_ = none; error = some (Error.fetch_error message); response = none })
    broken :
        (message : Str)
        → Settled
            (record { data_ = none; error = some (Error.platform_error message); response = none })

  -- What is told of a response that has come: its data, or the error that is thrown.
  abbrev Tells : Response → Result Data → Type 0
  Tells res (ok found) = (res.ok ≡ true) × (is_relayed platform res ≡ false)
  Tells res (threw e) = Settled (failed platform e)

  record Told (res : Response) (m : Result Data) : Type 0 where
    told : Tells res m

  Told-if :
      (res : Response) (c : Bool) (m n : Result Data)
      → Told res m
      → Told res n
      → Told res (if c then m else n)
  Told-if res true m n tm tn = tm
  Told-if res false m n tm tn = tn

  Told-finish :
      {A : Type 0}
      → (res : Response) (make : A → Data) (o : Outcome A Str)
      → (res.ok ≡ true) × (is_relayed platform res ≡ false)
      → Told res (finish platform make o)
  Told-finish res make (fulfilled a) fine = record { told = fine }
  Told-finish res make (rejected message) fine = record { told = broken message }

  Tells-read_data :
      (res : Response)
      → (res.ok ≡ true) × (is_relayed platform res ≡ false)
      → Tells res (read_data platform res)
  unfolding read_data
  Tells-read_data res fine =
      (Told-if res _ _ _ (Told-finish res Data.json res.json fine) (
        Told-if res _ _ _ (Told-finish res Data.blob res.blob fine) (
          Told-if res _ (ok (Data.event_stream res)) _ (record { told = fine })
            (Told-if res _ _ _ (Told-finish res Data.form_data res.form_data fine)
              (Told-finish res Data.text res.text fine))))).told

  Tells-read_response : (res : Response) → Tells res (read_response platform res)
  unfolding read_response
  Tells-read_response res = elim (Bool-cases (is_relayed platform res)) [
    | inl relayed ↦ rw (relayed) (not_relayed res relayed)
    | inr direct ↦ rw (direct) (by_status res.ok refl direct)
  ]
    where
      by_status :
          (c : Bool)
          → res.ok ≡ c
          → is_relayed platform res ≡ false
          → Tells res (if not c then threw (Error.http_error res) else read_data platform res)
      by_status true fine direct = Tells-read_data res (fine, direct)
      by_status false bad direct = refused res bad

  -- What the body of `try` comes to, before and after `catch`.
  abbrev Tried : Result FunctionsResponse → Type 0
  Tried (ok r) = Settled r
  Tried (threw e) = Settled (failed platform e)

  Tried-read :
      (res : Response) (m : Result Data)
      → Tells res m
      → Tried (m >>= λ found. ok (record { data_ = some found; error = none; response = some res }))
  unfolding ◌>>=◌
  Tried-read res (ok found) (fine, direct) = answered res found fine direct
  Tried-read res (threw e) settled = settled

  Tried-fetched :
      (o : Outcome Response Str)
      → Tried (
          await Error.fetch_error o >>= λ res. read_response platform res >>= λ found.
          ok (record { data_ = some found; error = none; response = some res }))
  unfolding ◌>>=◌
  Tried-fetched (rejected message) = not_sent message
  Tried-fetched (fulfilled res) =
      Tried-read res (read_response platform res) (Tells-read_response res)

  Tried-try_invoke :
      (client : Client) (function_name : Str) (options : Options)
      → Tried (try_invoke platform client function_name options)
  unfolding try_invoke ◌>>=◌
  Tried-try_invoke client function_name options =
      let request = request_of platform client function_name options in
      elim (Bool-cases (platform.is_url request.address)) [
        | inl valid ↦ rw (valid) (Tried-fetched (platform.fetch request))
        | inr other ↦ rw (other) (broken platform.url_error)
      ]

  caught :
      (m : Result FunctionsResponse)
      → Tried m
      → (r : FunctionsResponse) × (to_response platform m ≡ ok r) × Settled r
  caught (ok r) settled = (r, refl, settled)
  caught (threw e) settled = (failed platform e, refl, settled)

  -- A call of a function never throws: it gives data with a response whose status is fine and that no
  -- relay has marked as an error; or else an error and no data: that of the relay or of the status with
  -- the response, or that of the network or the platform without one.
  pub invoke-Settled :
      (client : Client) (function_name : Str) (options : Options)
      → (r : FunctionsResponse) × (invoke platform client function_name options ≡ ok r) × Settled r
  unfolding invoke
  invoke-Settled client function_name options =
      caught (try_invoke platform client function_name options)
        (Tried-try_invoke client function_name options)

  -- The Content-Type and the body of a request for a body that is not empty.
  abbrev pub type_of : Body → Option Str
  type_of (Body.text s) = some (codes "text/plain")
  type_of (Body.blob bytes) = some (codes "application/octet-stream")
  type_of (Body.array_buffer bytes) = some (codes "application/octet-stream")
  type_of (Body.form_data bytes) = none
  type_of _ = some (codes "application/json")

  region_headers : Option Str → Params
  region_headers region = elim region [ none ↦ [] | some name ↦ (codes "x-region", name) ∷ [] ]
