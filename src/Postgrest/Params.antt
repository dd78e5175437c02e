-- ===== src/Postgrest/Params.antt =====
-- The platform's `URLSearchParams` and `Headers`, as far as the builders use them: lists of
-- entries in order. The names of headers are kept in lower case.
use securesupabase_js.Prelude.{
  ◌≡◌, refl, false, Option, none, some, List, [], ◌∷◌, ◌++◌, arith, if◌then◌else◌,
}
use securesupabase_js.Js.Text.{Str, codes, str_eq, join}
use securesupabase_js.Js.Text.Laws.{str_eq_iff}

abbrev pub Params : Type 0
Params = List (Str × Str)

-- params.append(name, value)
unfoldable pub append : Str → Str → Params → Params
append name v params = params ++ (name, v) ∷ []

-- The entries of other names.
unfoldable pub without : Str → Params → Params
unfolding str_eq
without name [] = []
without name ((k, v) ∷ params) =
    let rest = without name params in if str_eq k name then rest else (k, v) ∷ rest

-- params.set(name, value): the first entry of the name changes, and later ones go.
unfoldable pub set : Str → Str → Params → Params
unfolding str_eq without
set name v [] = (name, v) ∷ []
set name v ((k, w) ∷ params) =
    let rest = set name v params in
    if str_eq k name then (name, v) ∷ without name params else (k, w) ∷ rest

-- params.get(name): the first entry
unfoldable pub get : Str → Params → Option Str
unfolding str_eq
get name [] = none
get name ((k, v) ∷ params) = if str_eq k name then some v else get name params

-- All values of a name, in order.
unfoldable pub get_all : Str → Params → List Str
unfolding str_eq
get_all name [] = []
get_all name ((k, v) ∷ params) =
    let rest = get_all name params in if str_eq k name then v ∷ rest else rest

abbrev pub Headers : Type 0
Headers = Params

-- headers.get(name): the values with ", " between them
unfoldable pub header : Str → Headers → Option Str
unfolding get_all join
header name headers = elim (get_all name headers) [
  | [] ↦ none
  | v ∷ vs ↦ some (join (codes ", ") (v ∷ vs))
]

pub get-set :
    (j k v : Str) (params : Params)
    → get j (set k v params) ≡ (if str_eq k j then some v else get j params)
unfolding get set without
get-set j k v [] = refl
get-set j k v ((i, w) ∷ params) = ground (
  arith,
  get-set j k v params,
  get-without j k params,
  str_eq_iff i k,
  str_eq_iff i j,
  str_eq_iff k j,
)
  where
    get-without : (j k : Str) (ps : Params) → str_eq k j ≡ false → get j (without k ps) ≡ get j ps
    get-without j k [] h = refl
    get-without j k ((i, w) ∷ ps) h =
        ground (arith, get-without j k ps, str_eq_iff i k, str_eq_iff i j, str_eq_iff k j)

pub get_all-append :
    (name : Str) (ps qs : Params) → get_all name (ps ++ qs) ≡ get_all name ps ++ get_all name qs
unfolding get_all
get_all-append name [] qs = refl
get_all-append name ((k, v) ∷ ps) qs = ground (arith, get_all-append name ps qs)

pub get_all-without :
    (j k : Str) (ps : Params) → get_all j (without k ps) ≡ (if str_eq k j then [] else get_all j ps)
unfolding get_all without
get_all-without j k [] = ground arith
get_all-without j k ((i, w) ∷ ps) =
    ground (arith, get_all-without j k ps, str_eq_iff i k, str_eq_iff i j, str_eq_iff k j)

-- Setting one name leaves one value of it, and all values of the others.
pub get_all-set :
    (j k v : Str) (ps : Params)
    → get_all j (set k v ps) ≡ (if str_eq k j then v ∷ [] else get_all j ps)
unfolding get_all set
get_all-set j k v [] = refl
get_all-set j k v ((i, w) ∷ ps) = ground (
  arith,
  get_all-set j k v ps,
  get_all-without j k ps,
  str_eq_iff i k,
  str_eq_iff i j,
  str_eq_iff k j,
)
