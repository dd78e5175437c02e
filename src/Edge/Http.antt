-- ===== src/Edge/Http.antt =====
-- functions/_shared/http.ts and functions/_shared/apiErrors.ts
use securesupabase_js.Prelude.{ℕ, Option, none, some, List, [], ◌∷◌, ◌++◌}
use securesupabase_js.Js.Text.{Str, codes}
use securesupabase_js.Js.Json.{Json, num, str, obj, end, field, object2}
use securesupabase_js.Edge.Types.{Backend, Request, Response, json}
use securesupabase_js.Edge.Effects.{Run, pure, ◌>>=◌}
use securesupabase_js.Edge.Cors.{build_cors_headers, content_type}
use securesupabase_js.Edge.E2ee.{build_encrypted_response}

-- jsonResponse
unfoldable pub json_response : Backend → Request → Json → ℕ → List (Str × Str) → Response
json_response be req body status extra = record {
  status = status;
  headers = build_cors_headers be req ++ content_type ∷ extra;
  body = json body;
}

unfoldable pub json_encrypted_response : Backend → Request → Json → ℕ → List ℕ → Run Response
unfolding build_encrypted_response
json_encrypted_response be req body status aes_key = do
  envelope ← build_encrypted_response be body aes_key
  pure (record {
    status = status;
    headers = build_cors_headers be req ++ content_type ∷ (codes "x-e2ee", codes "1") ∷ [];
    body = json envelope;
  })

abbrev error_body : Str → Str → Json
error_body name message = object2 (codes "error") (str name) (codes "message") (str message)

unfoldable pub json_unauthorized : Backend → Request → Response
unfolding json_response
json_unauthorized be req =
    json_response be req (error_body (codes "unauthorized") (codes "Missing or invalid JWT")) 401 []

unfoldable pub json_forbidden : Backend → Request → Str → Response
unfolding json_response
json_forbidden be req message = json_response be req (error_body (codes "forbidden") message) 403 []

unfoldable pub json_method_not_allowed : Backend → Request → Response
unfolding json_response
json_method_not_allowed be req =
    json_response be req (error_body (codes "method_not_allowed") (codes "Method not allowed")) 405
      []

unfoldable pub json_invalid_body : Backend → Request → Str → Option Json → Response
unfolding json_response
json_invalid_body be req message details =
    let body : Json = elim details [
      | none ↦ error_body (codes "invalid_body") message
      | some d ↦ obj (
          field (codes "error") (str (codes "invalid_body"))
            (field (codes "message") (str message) (field (codes "details") d end)))
    ] in
    json_response be req body 400 []

unfoldable pub json_internal_error : Backend → Request → Response
unfolding json_response
json_internal_error be req =
    json_response be req
      (error_body (codes "internal_error") (codes "An unexpected error occurred")) 500 []

unfoldable pub json_server_misconfigured : Backend → Request → Response
unfolding json_response
json_server_misconfigured be req =
    json_response be req
      (error_body (codes "server_misconfigured") (codes "Server configuration error")) 500 []

unfoldable pub json_rate_limited : Backend → Request → ℕ → Response
unfolding json_response
json_rate_limited be req retry_after_seconds =
    json_response be req
      (object2 (codes "error") (str (codes "rate_limited")) (codes "retry_after_seconds")
        (num retry_after_seconds))
      429 ((codes "Retry-After", be.to_string (num retry_after_seconds)) ∷ [])
