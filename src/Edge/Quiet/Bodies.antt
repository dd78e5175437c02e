-- ===== src/Edge/Quiet/Bodies.antt =====
-- Reading the body, asking for the user and answering keep every property of other events.
use securesupabase_js.Prelude.{ℕ, ◌≡◌, not, Option, none, some, List}
use securesupabase_js.Js.Text.{Str}
use securesupabase_js.Js.Json.{Json}
use securesupabase_js.Edge.Types.{Backend, Request, State, Event, Trace, value, asked_user, drew_iv}
use securesupabase_js.Edge.Effects.{throw}
use securesupabase_js.Edge.Effects.Keeps.{
  Keeps, Anything, Keeps-pure, Keeps-throw, Keeps-bind, Keeps-if,
}
use securesupabase_js.Edge.E2ee.{
  parse_maybe_encrypted_request, parse_payload, decrypt_envelope, get_private_key_b64,
  build_encrypted_response, read_body, is_truthy, is_envelope, encrypted_part,
}
use securesupabase_js.Edge.Http.{json_encrypted_response}
use securesupabase_js.Edge.Gate.{respond, get_user, Config, admin_client, jwt_of}
use securesupabase_js.Edge.Quiet.Rules.{
  IsQuiet, after, Keeps-emit, Keeps-await, Keeps-observe, Keeps-expect,
}

module _ (Inv : State → Type 0)
    (quiet : (s : State) (e : Event) → IsQuiet e → Inv s → Inv (after e s)) where
  Keeps-decrypt : (be : Backend) (enc : Json) → Keeps Inv Anything (decrypt_envelope be enc)
  unfolding decrypt_envelope get_private_key_b64
  Keeps-decrypt be enc = Keeps-bind _ _ ((Keeps-expect Inv quiet) _ _) λ _ _.
      Keeps-bind _ _ ((Keeps-expect Inv quiet) _ _) λ _ _.
        Keeps-bind _ _ ((Keeps-expect Inv quiet) _ _) λ _ _.
          Keeps-bind _ _ ((Keeps-expect Inv quiet) _ _) λ _ _.
            Keeps-bind _ _ ((Keeps-expect Inv quiet) _ _) λ _ _.
              Keeps-bind _ _ ((Keeps-expect Inv quiet) _ _)
                λ _ _. Keeps-bind _ _ ((Keeps-expect Inv quiet) _ _) λ _ _. Keeps-pure _ tt

  Keeps-parse_payload :
      (be : Backend) (raw : Json) (enc : Option Json)
      → Keeps Inv Anything (parse_payload be raw enc)
  unfolding parse_payload
  Keeps-parse_payload be raw none = Keeps-pure _ tt
  Keeps-parse_payload be raw (some enc) =
      Keeps-if (not (is_envelope enc)) (throw _) (decrypt_envelope be enc) (λ _. Keeps-throw _)
        (λ _. Keeps-decrypt be enc)

  pub Keeps-parse :
      (be : Backend) (req : Request) → Keeps Inv Anything (parse_maybe_encrypted_request be req)
  unfolding parse_maybe_encrypted_request
  Keeps-parse be req =
      Keeps-if (not (is_truthy (read_body req))) (throw _)
        (parse_payload be (read_body req) (encrypted_part (read_body req))) (λ _. Keeps-throw _)
        (λ _. Keeps-parse_payload be (read_body req) (encrypted_part (read_body req)))

  pub Keeps-respond :
      (be : Backend) (req : Request) (body : Json) (status : ℕ) (aes_key : Option (List ℕ))
      → Keeps Inv Anything (respond be req body status aes_key)
  unfolding respond json_encrypted_response build_encrypted_response
  Keeps-respond be req body status none = Keeps-pure _ tt
  Keeps-respond be req body status (some aes_key) =
      Keeps-bind {Q = Anything} _ _
        (Keeps-bind _ _ ((Keeps-observe Inv quiet) be.random_iv) (λ _ _.
          Keeps-bind _ _ ((Keeps-emit Inv quiet) drew_iv (λ s. quiet s drew_iv tt))
            (λ _ _. Keeps-pure _ tt)))
        (λ _ _. Keeps-pure _ tt)

  pub Keeps-get_user :
      (be : Backend) (config : Config) (header : Str)
      → Keeps Inv
          (λ user. (t : Trace) × (be.get_user t (admin_client config) (jwt_of header) ≡ value user))
          (get_user be config header)
  unfolding get_user
  Keeps-get_user be config header =
      (Keeps-await Inv quiet) (asked_user (admin_client config) (jwt_of header)) _
        (λ s. quiet s (asked_user (admin_client config) (jwt_of header)) tt)
