-- ===== src/Edge/Examples.antt =====
-- The theorems on the edge functions at concrete requests.
use securesupabase_js.Prelude.{
  map, keep, ℕ, ◌≤◌, ◌≡◌, ◌≢◌, refl, false, none, some, List, [], ◌∷◌, All, arith, length, keep,
}
use securesupabase_js.Js.Text.{
  is_space, nonempty, Str, codes, str_eq, has, split, trim, trim_end, join,
}
use securesupabase_js.Edge.Types.{Header}
use securesupabase_js.Samples.{backend, request, foreign_request}
use securesupabase_js.Edge.DbProxy.Safety as DbSafety
use securesupabase_js.Edge.AuthProxy.Safety as AuthSafety
use securesupabase_js.Edge.RateLimit.{
  Store, check_rate_limit, times_of, prune, set, delete, retry_after, min_of,
}
use securesupabase_js.Edge.RateLimit.Window.{accepted, accepted-bounded, count_in}
use securesupabase_js.Edge.RateLimit.Retry.{IsCapped, check_rate_limit-IsCapped, refused-retry}
use securesupabase_js.Edge.Cors.{
  parse_csv, is_allowed_origin, resolve_allow_origin, build_cors_headers, preflight_response,
  get_allowed_origins, allow_credentials,
}
use securesupabase_js.Edge.Cors.Laws.{
  parse_csv-join, build_cors_headers-credentials, preflight_response-refused, Part, IsPart, written,
  allow_credentials_of, allow_origin_of, header_of,
}
use securesupabase_js.Edge.Security.{hash_prefix}
use securesupabase_js.Edge.Security.Context.{hash_prefix_lem, IsHexDigit}

abbrev requests : List (ℕ × Str)
requests =
    (1000, codes "ip:a") ∷ (2000, codes "ip:b") ∷ (3000, codes "ip:a") ∷ (61000, codes "ip:a") ∷ []

-- The second request of the identifier is refused, the third passes.
accepted-requests : accepted 1 (codes "ip:a") requests [] ≡ 1000 ∷ 61000 ∷ []
unfolding accepted check_rate_limit str_eq keep prune times_of set delete
accepted-requests = refl

accepted-bounded_example : count_in 500 (accepted 1 (codes "ip:a") requests []) ≤ 1
accepted-bounded_example =
    accepted-bounded 1 (codes "ip:a") requests 500
      (omega arith, (omega arith, (omega arith, (omega arith, tt))))

abbrev one_request : Store
one_request = (codes "ip:a", 1000 ∷ []) ∷ []

empty-IsCapped : IsCapped 1 0 []
unfolding times_of
empty-IsCapped = record { few = λ id. omega arith; past = λ id. tt }

check_rate_limit-IsCapped_example : IsCapped 1 1000 (check_rate_limit 1000 (codes "ip:a") 1 []).1
check_rate_limit-IsCapped_example =
    check_rate_limit-IsCapped 1 0 [] empty-IsCapped 1000 (omega arith) (codes "ip:a")

one_request-IsCapped : IsCapped 1 1000 one_request
unfolding check_rate_limit prune keep times_of set delete str_eq
one_request-IsCapped =
    check_rate_limit-IsCapped 1 0 [] empty-IsCapped 1000 (omega arith) (codes "ip:a")

refused_once : check_rate_limit 1500 (codes "ip:a") 1 one_request ≡ (some 60, one_request)
unfolding check_rate_limit prune keep times_of set delete str_eq retry_after min_of
refused_once = refl

later-IsCapped : IsCapped 1 1500 one_request
unfolding check_rate_limit prune keep times_of set delete str_eq retry_after min_of
later-IsCapped =
    check_rate_limit-IsCapped 1 1000 one_request one_request-IsCapped 1500 (omega arith)
      (codes "ip:a")

refused-retry_example :
    (1 ≤ 60) × (60 ≤ 60) × ((check_rate_limit 61500 (codes "ip:a") 1 one_request).0 ≡ none)
refused-retry_example =
    refused-retry 1 1500 one_request later-IsCapped (omega arith) (codes "ip:a") 60 61500
      one_request refused_once (omega arith)

not_comma : (c : ℕ) → 45 ≤ c → c ≢ b','
not_comma c h e = omega arith

abbrev first_part : Part
first_part = record { before = codes " "; entry = codes "a.b"; after = [] }

abbrev empty_part : Part
empty_part = record { before = []; entry = []; after = codes " " }

first_part-IsPart : IsPart first_part
unfolding is_space trim_end
first_part-IsPart =
    let a = not_comma b'a' (omega arith) in
    let dot = not_comma b'.' (omega arith) in
    let b = not_comma b'b' (omega arith) in
    record {
      blank_before = (refl, tt);
      trimmed = (refl, refl);
      no_comma = (a, (dot, (b, tt)));
      blank_after = tt;
    }

empty_part-IsPart : IsPart empty_part
unfolding is_space
empty_part-IsPart = record {
  blank_before = tt;
  trimmed = tt;
  no_comma = tt;
  blank_after = (refl, tt);
}

parse_csv-join_example :
    parse_csv (some (join (codes ",") (map written (first_part ∷ empty_part ∷ []))))
    ≡ keep nonempty (map (λ p. p.entry) (first_part ∷ empty_part ∷ []))
parse_csv-join_example =
    parse_csv-join first_part (empty_part ∷ []) (first_part-IsPart, (empty_part-IsPart, tt))

abbrev origins : List Str
origins = codes "https://a.example" ∷ codes "https://b.example" ∷ []

with_credentials : allow_credentials_of (build_cors_headers backend request) ≡ some (codes "true")
unfolding build_cors_headers get_allowed_origins resolve_allow_origin allow_credentials parse_csv
    keep split trim has str_eq header_of
with_credentials = refl

build_cors_headers-credentials_example :
    allow_origin_of (build_cors_headers backend request) ≢ some (codes "*")
build_cors_headers-credentials_example =
    build_cors_headers-credentials backend request (codes "true") with_credentials

foreign_origin :
    is_allowed_origin (foreign_request.headers Header.origin) (get_allowed_origins backend) ≡ false
unfolding get_allowed_origins is_allowed_origin parse_csv keep split trim has str_eq
foreign_origin = refl

preflight_response-refused_example :
    ((preflight_response backend foreign_request).status ≡ 403)
    × (allow_origin_of (preflight_response backend foreign_request).headers ≡ some (codes "null"))
preflight_response-refused_example =
    preflight_response-refused backend foreign_request foreign_origin

hash_prefix_lem_example :
    (length (hash_prefix (codes "ann")) ≡ 8) × All IsHexDigit (hash_prefix (codes "ann"))
hash_prefix_lem_example = hash_prefix_lem (codes "ann")
