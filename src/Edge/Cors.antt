-- ===== src/Edge/Cors.antt =====
-- functions/_shared/cors.ts
pub mod Laws
use securesupabase_js.Prelude.{
  Bool, true, false, not, ◌&&◌, Option, none, some, List, [], ◌∷◌, ◌++◌, map, keep, if◌then◌else◌,
}
use securesupabase_js.Js.Text.{Str, codes, str_eq, has, split, trim, nonempty, truthy, or_else}
use securesupabase_js.Js.Json.{object2, str}
use securesupabase_js.Edge.Types.{Backend, Request, Response, json, text, origin}

-- parseCsv
unfoldable pub parse_csv : Option Str → List Str
unfolding keep split trim
parse_csv raw = elim (truthy raw) [ none ↦ [] | some v ↦ keep nonempty (map trim (split b',' v)) ]

unfoldable pub get_allowed_origins : Backend → List Str
unfolding parse_csv
get_allowed_origins be = parse_csv be.env.cors_allowed_origins

unfoldable pub is_allowed_origin : Option Str → List Str → Bool
unfolding has
is_allowed_origin requested allowed = elim (truthy requested) [
  | none ↦ true
  | some o ↦ elim allowed [
    | [] ↦ true
    | first ∷ rest ↦ if has (first ∷ rest) (codes "*") then true else has (first ∷ rest) o
  ]
]

unfoldable pub resolve_allow_origin : Option Str → List Str → Str
unfolding has
resolve_allow_origin requested [] = codes "*"
resolve_allow_origin requested (first ∷ rest) =
    if has (first ∷ rest) (codes "*") then codes "*" else elim (truthy requested) [
      | none ↦ first
      | some o ↦ if has (first ∷ rest) o then o else codes "null"
    ]

unfoldable pub allow_credentials : Backend → Bool
unfolding str_eq
allow_credentials be =
    str_eq (be.to_lower (or_else be.env.cors_allow_credentials (codes "false"))) (codes "true")

unfoldable pub build_cors_headers : Backend → Request → List (Str × Str)
unfolding resolve_allow_origin get_allowed_origins allow_credentials
build_cors_headers be req =
    let origin_header : Str = resolve_allow_origin (req.headers origin) (get_allowed_origins be) in
    let headers : List (Str × Str) =
      (codes "Access-Control-Allow-Origin", origin_header)
      ∷ (
        codes "Access-Control-Allow-Headers",
        or_else be.env.cors_allowed_headers
            (codes "authorization, x-client-info, apikey, content-type, x-requested-with"),
      )
      ∷ (
        codes "Access-Control-Allow-Methods",
        or_else be.env.cors_allowed_methods (codes "POST,OPTIONS"),
      )
      ∷ (codes "Access-Control-Max-Age", or_else be.env.cors_max_age_seconds (codes "86400"))
      ∷ (codes "Vary", codes "Origin")
      ∷ [] in
    if allow_credentials be && not (str_eq origin_header (codes "*"))
    then headers ++ (codes "Access-Control-Allow-Credentials", codes "true") ∷ []
    else headers

abbrev pub content_type : Str × Str
content_type = (codes "Content-Type", codes "application/json")

unfoldable pub cors_forbidden : Backend → Request → Response
unfolding build_cors_headers
cors_forbidden be req = record {
  status = 403;
  headers = build_cors_headers be req ++ content_type ∷ [];
  body = json (
      object2 (codes "error") (str (codes "forbidden_origin")) (codes "message")
        (str (codes "CORS origin is not allowed")));
}

unfoldable pub preflight_response : Backend → Request → Response
unfolding is_allowed_origin get_allowed_origins cors_forbidden build_cors_headers
preflight_response be req =
    if not (is_allowed_origin (req.headers origin) (get_allowed_origins be))
    then cors_forbidden be req
    else record { status = 200; headers = build_cors_headers be req; body = text (codes "ok") }
