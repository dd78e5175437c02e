-- ===== src/Edge/Cors/Laws.antt =====
-- What the CORS headers promise, and what the allowlists of the environment hold.
use securesupabase_js.Prelude.{
  ℕ, ◌≡◌, ◌≢◌, ◌⊎◌, inl, inr, ◌∙◌, refl, sym, ap, Bool, true, false, not, ◌&&◌, Option, none, some,
  List, [], ◌∷◌, ◌++◌, map, keep, All, if◌then◌else◌, arith, Bool-cases,
}
use securesupabase_js.Js.Text.{
  Str, codes, str_eq, has, split, join, trim, trim_start, trim_end, is_space, nonempty,
}
use securesupabase_js.Js.Text.Laws.{Without, split-join, str_eq_iff}
use securesupabase_js.Edge.Types.{Backend, Request, origin}
use mathlib.Core.Option.{some-injective}
use securesupabase_js.Edge.Cors.{
  content_type, parse_csv, is_allowed_origin, resolve_allow_origin, allow_credentials,
  get_allowed_origins, build_cors_headers, preflight_response,
}

-- A text without spaces at its ends.
abbrev pub IsTrimmed : Str → Type 0
IsTrimmed [] = Unit
IsTrimmed (c ∷ s) = (is_space c ≡ false) × (trim_end (c ∷ s) ≡ c ∷ s)

-- A part of an allowlist as an operator writes it: an entry, or nothing, between spaces.
pub record Part : Type 0 where
  pub before : Str
  pub entry : Str
  pub after : Str

abbrev pub written : Part → Str
written part = part.before ++ (part.entry ++ part.after)

abbrev IsBlank : Str → Type 0
IsBlank s = All (λ c. is_space c ≡ true) s

pub record IsPart (part : Part) : Type 0 where
  pub blank_before : IsBlank part.before
  pub trimmed : IsTrimmed part.entry
  pub no_comma : Without b',' part.entry
  pub blank_after : IsBlank part.after

trim_start-blank : (sp s : Str) → IsBlank sp → trim_start (sp ++ s) ≡ trim_start s
unfolding trim_start
trim_start-blank [] s h = refl
trim_start-blank (c ∷ sp) s (h, hs) = rw (h) (trim_start-blank sp s hs)

trim_end-all_blank : (sp : Str) → IsBlank sp → trim_end sp ≡ []
unfolding trim_end
trim_end-all_blank [] h = refl
trim_end-all_blank (c ∷ sp) (h, hs) = rw (trim_end-all_blank sp hs, h) refl

trim_end-blank : (s sp : Str) → IsBlank sp → trim_end (s ++ sp) ≡ trim_end s
unfolding trim_end
trim_end-blank [] sp h = trim_end-all_blank sp h
trim_end-blank (c ∷ s) sp h = rw (trim_end-blank s sp h) refl

trim_entry : (s sp : Str) → IsTrimmed s → IsBlank sp → trim_end (trim_start (s ++ sp)) ≡ s
unfolding trim_start trim_end
trim_entry [] [] t h = refl
trim_entry [] (c ∷ sp) t (h, hs) = rw (h) (trim_entry [] sp tt hs)
trim_entry (c ∷ s) sp (t, trimmed) h = rw (t) (trim_end-blank (c ∷ s) sp h ∙ trimmed)

trim-written : (part : Part) → IsPart part → trim (written part) ≡ part.entry
unfolding trim
trim-written part is_part =
    ap trim_end (trim_start-blank part.before _ is_part.blank_before)
    ∙ trim_entry part.entry part.after is_part.trimmed is_part.blank_after

map-written :
    (parts : List Part) → All IsPart parts → map trim (map written parts) ≡ map (λ p. p.entry) parts
map-written [] h = refl
map-written (part ∷ parts) (h, hs) = rw (trim-written part h, map-written parts hs) refl

blank-Without : (s : Str) → IsBlank s → Without b',' s
unfolding is_space
blank-Without [] h = tt
blank-Without (c ∷ s) (h, hs) = (λ e. ground arith, blank-Without s hs)

append-Without : (s t : Str) → Without b',' s → Without b',' t → Without b',' (s ++ t)
append-Without [] t h h' = h'
append-Without (c ∷ s) t (h, hs) h' = (h, append-Without s t hs h')

written-Without : (parts : List Part) → All IsPart parts → All (Without b',') (map written parts)
written-Without [] h = tt
written-Without (part ∷ parts) (h, hs) = (
  append-Without part.before _ (blank-Without part.before h.blank_before)
      (append-Without part.entry part.after h.no_comma (blank-Without part.after h.blank_after)),
  written-Without parts hs,
)

parse_csv-split : (v : Str) → parse_csv (some v) ≡ keep nonempty (map trim (split b',' v))
unfolding parse_csv split trim keep
parse_csv-split [] = refl
parse_csv-split (c ∷ v) = refl

-- An allowlist whose parts stand between commas, each of them an entry or nothing, with any spaces
-- before and after it, is read as exactly the entries that are not empty, in their order; an entry has
-- no comma, and no space at its ends.
pub parse_csv-join :
    (part : Part) (parts : List Part)
    → All IsPart (part ∷ parts)
    → parse_csv (some (join (codes ",") (map written (part ∷ parts))))
      ≡ keep nonempty (map (λ p. p.entry) (part ∷ parts))
parse_csv-join part parts h =
    parse_csv-split (join (codes ",") (map written (part ∷ parts)))
    ∙ ap (λ texts. keep nonempty (map trim texts))
        (split-join b',' (written part) (map written parts) (written-Without (part ∷ parts) h))
    ∙ ap (keep nonempty) (map-written (part ∷ parts) h)

-- An origin that is not allowed never gets the wildcard nor its own name back: the header is
-- "null".
resolve_allow_origin-refused :
    (requested : Option Str) (allowed : List Str)
    → is_allowed_origin requested allowed ≡ false
    → resolve_allow_origin requested allowed ≡ codes "null"
unfolding is_allowed_origin resolve_allow_origin
resolve_allow_origin-refused none allowed h = cc
resolve_allow_origin-refused (some []) allowed h = cc
resolve_allow_origin-refused (some (c ∷ o)) [] h = cc
resolve_allow_origin-refused (some (c ∷ o)) (first ∷ rest) h =
    elim (Bool-cases (has (first ∷ rest) (codes "*"))) [
      | inl star ↦ cc (rw star at h)
      | inr plain ↦ let e = rw plain at h in rw (plain, e) refl
    ]

-- An allowed origin gets the wildcard or its own name.
resolve_allow_origin-allowed :
    (c : ℕ) (o : Str) (allowed : List Str)
    → is_allowed_origin (some (c ∷ o)) allowed ≡ true
    → (resolve_allow_origin (some (c ∷ o)) allowed ≡ codes "*")
      ⊎ (resolve_allow_origin (some (c ∷ o)) allowed ≡ c ∷ o)
unfolding is_allowed_origin resolve_allow_origin
resolve_allow_origin-allowed c o [] h = inl refl
resolve_allow_origin-allowed c o (first ∷ rest) h =
    elim (Bool-cases (has (first ∷ rest) (codes "*"))) [
      | inl star ↦ inl (rw star refl)
      | inr plain ↦ let e = rw plain at h in inr (rw (plain, e) refl)
    ]

-- headers[name], the first entry of that name
unfoldable pub header_of : Str → List (Str × Str) → Option Str
unfolding str_eq
header_of name [] = none
header_of name ((n, v) ∷ headers) = if str_eq n name then some v else header_of name headers

abbrev pub allow_origin_of : List (Str × Str) → Option Str
allow_origin_of headers = header_of (codes "Access-Control-Allow-Origin") headers

abbrev pub allow_credentials_of : List (Str × Str) → Option Str
allow_credentials_of headers = header_of (codes "Access-Control-Allow-Credentials") headers

allowed_for : Backend → Request → Str
allowed_for be req = resolve_allow_origin (req.headers origin) (get_allowed_origins be)

allow_origin_of-append :
    (be : Backend) (req : Request) (more : List (Str × Str))
    → allow_origin_of (build_cors_headers be req ++ more) ≡ some (allowed_for be req)
unfolding build_cors_headers header_of str_eq allowed_for
allow_origin_of-append be req more =
    elim (Bool-cases (allow_credentials be && not (str_eq (allowed_for be req) (codes "*")))) [
      | inl both ↦ rw both refl
      | inr without ↦ rw without refl
    ]

allow_origin_of-build :
    (be : Backend) (req : Request)
    → allow_origin_of (build_cors_headers be req) ≡ some (allowed_for be req)
unfolding build_cors_headers header_of str_eq allowed_for
allow_origin_of-build be req =
    elim (Bool-cases (allow_credentials be && not (str_eq (allowed_for be req) (codes "*")))) [
      | inl both ↦ rw both refl
      | inr without ↦ rw without refl
    ]

not_star : (a : Bool) (o : Str) → (a && not (str_eq o (codes "*"))) ≡ true → o ≢ codes "*"
not_star a o h e = ground (arith, (str_eq_iff o (codes "*")).1 e)

-- No response allows credentials for every origin: with the credentials header the allowed origin
-- is not the wildcard.
pub build_cors_headers-credentials :
    (be : Backend) (req : Request) (v : Str)
    → allow_credentials_of (build_cors_headers be req) ≡ some v
    → allow_origin_of (build_cors_headers be req) ≢ some (codes "*")
unfolding build_cors_headers header_of str_eq allowed_for
build_cors_headers-credentials be req v h e =
    elim (Bool-cases (allow_credentials be && not (str_eq (allowed_for be req) (codes "*")))) [
      | inr without ↦ cc (rw without at h)
      | inl both ↦
          not_star (allow_credentials be) (allowed_for be req) both
            (some-injective _ _ (sym (allow_origin_of-build be req) ∙ e))
    ]

-- A preflight request of an origin that is not allowed is answered 403, and its
-- Access-Control-Allow-Origin is the text "null", whatever the origin.
pub preflight_response-refused :
    (be : Backend) (req : Request)
    → is_allowed_origin (req.headers origin) (get_allowed_origins be) ≡ false
    → ((preflight_response be req).status ≡ 403)
      × (allow_origin_of (preflight_response be req).headers ≡ some (codes "null"))
unfolding preflight_response allowed_for
preflight_response-refused be req h = rw h (
  refl,
  allow_origin_of-append be req (content_type ∷ [])
      ∙ ap some (resolve_allow_origin-refused (req.headers origin) (get_allowed_origins be) h),
)
