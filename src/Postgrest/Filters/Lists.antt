-- ===== src/Postgrest/Filters/Lists.antt =====
-- What the text that `in` and `notIn` send tells of the list: a splitter that undoes the joining of plain
-- and quoted elements shows which lists differ in the request, and a text with a quote shows which do not.
use securesupabase_js.Prelude.{
  ℕ, ◌≡◌, ◌≢◌, ◌∙◌, refl, sym, ap, Bool, true, false, not, ◌==◌, List, [], ◌∷◌, ◌++◌, map, keep,
  any, All, arith, if◌then◌else◌, Bool-cases, inl, inr,
}
use mathlib.Core.List.{append_assoc, append-nil}
use securesupabase_js.Js.Text.{Str, codes, join, str_eq, nonempty}
use securesupabase_js.Js.Json.{str}
use securesupabase_js.Postgrest.Types.{Runtime, Builder}
use securesupabase_js.Postgrest.Filters.{add}
use securesupabase_js.Postgrest.Filters.Values.{
  same_value, distinct, has_reserved, cleaned, cleaned_values, in_list, not_in,
}

-- At the start of an element, in a plain one, in a quoted one, after a backslash there, and after the
-- second quote.
pub data Mode : Type 0 where
  start : Mode
  plain quoted escaped after : Str → Mode

-- What a character completes, and the mode after it.
read_step : Mode → ℕ → List Str × Mode
read_step start c =
    if c == b'"'
    then ([], quoted [])
    else if c == b','
    then ([] ∷ [], start)
    else ([], plain (c ∷ []))
read_step (plain s) c = if c == b',' then (s ∷ [], start) else ([], plain (s ++ c ∷ []))
read_step (quoted s) c =
    if c == b'"'
    then ([], after s)
    else if c == b'\\'
    then ([], escaped s)
    else ([], quoted (s ++ c ∷ []))
read_step (escaped s) c = ([], quoted (s ++ c ∷ []))
read_step (after s) c = if c == b',' then (s ∷ [], start) else ([], after s)

last_element : Mode → Str
last_element start = []
last_element (plain s) = s
last_element (quoted s) = s
last_element (escaped s) = s
last_element (after s) = s

unfoldable pub read_from : Mode → Str → List Str
unfolding read_step last_element
read_from mode [] = last_element mode ∷ []
read_from mode (c ∷ s) = let (read, mode') = read_step mode c in read ++ read_from mode' s

unfoldable pub read_list : Str → List Str
unfolding read_from
read_list s = read_from start s

-- The distinct texts of a list, each where it stands first.
unfoldable pub unique : List Str → List Str
unfolding keep str_eq
unique [] = []
unique (s ∷ ss) = s ∷ keep (λ t. not (str_eq s t)) (unique ss)

abbrev pub IsBare : ℕ → Type 0
IsBare c = (c ≢ b'"') × (c ≢ b'\\')

-- A text that is not empty and has neither quotes nor backslashes.
abbrev pub IsPlain : Str → Type 0
IsPlain s = (nonempty s ≡ true) × All IsBare s

read_from-plain :
    (s acc rest : Str)
    → All (λ c. c ≢ b',') s
    → read_from (plain acc) (s ++ rest) ≡ read_from (plain (acc ++ s)) rest
unfolding read_from
read_from-plain [] acc rest h = rw append-nil refl
read_from-plain (c ∷ s) acc rest (h, hs) =
    let other : (c == b',') ≡ false = ground arith in
    rw other (read_from-plain s (acc ++ c ∷ []) rest hs ∙ rw append_assoc refl)

read_from-quoted :
    (s acc rest : Str)
    → All IsBare s
    → read_from (quoted acc) (s ++ rest) ≡ read_from (quoted (acc ++ s)) rest
unfolding read_from
read_from-quoted [] acc rest h = rw append-nil refl
read_from-quoted (c ∷ s) acc rest (h, hs) =
    let no_quote : (c == b'"') ≡ false = ground arith in
    let no_escape : (c == b'\\') ≡ false = ground arith in
    rw (no_quote, no_escape) (read_from-quoted s (acc ++ c ∷ []) rest hs ∙ rw append_assoc refl)

no_comma : (s : Str) → has_reserved s ≡ false → All (λ c. c ≢ b',') s
unfolding has_reserved any
no_comma [] h = tt
no_comma (c ∷ s) h = ground (arith, no_comma s)

-- A mode that has read the element `s` whole.
abbrev HasRead : Str → Mode → Type 0
HasRead s mode =
    (read_from mode [] ≡ s ∷ [])
    × ((rest : Str) → read_from mode (b',' ∷ rest) ≡ s ∷ read_from start rest)

plain-HasRead : (s : Str) → HasRead s (plain s)
unfolding read_from
plain-HasRead s = (refl, λ rest. refl)

after-HasRead : (s : Str) → HasRead s (after s)
unfolding read_from
after-HasRead s = (refl, λ rest. refl)

read_from-start_plain :
    (s rest : Str)
    → IsPlain s
    → All (λ c. c ≢ b',') s
    → read_from start (s ++ rest) ≡ read_from (plain s) rest
unfolding read_from
read_from-start_plain [] rest (h, q) n = cc
read_from-start_plain (c ∷ s) rest (h, (q, qs)) (n, ns) =
    let no_quote : (c == b'"') ≡ false = ground arith in
    let no_separator : (c == b',') ≡ false = ground arith in
    rw (no_quote, no_separator) (read_from-plain s (c ∷ []) rest ns)

read_from-quotes :
    (s rest : Str)
    → All IsBare s
    → read_from start (codes "\"" ++ (s ++ codes "\"") ++ rest) ≡ read_from (after s) rest
unfolding read_from
read_from-quotes s rest h =
    ap (λ t. read_from (quoted []) t) (append_assoc s (codes "\"") rest)
    ∙ read_from-quoted s [] (codes "\"" ++ rest) h

module _ (rt : Runtime) (texts : (t : Str) → rt.text (str t) ≡ t) where
  read_from-cleaned :
      (s : Str)
      → IsPlain s
      → (mode : Mode) × ((rest : Str)
          → read_from start (cleaned rt (str s) ++ rest) ≡ read_from mode rest)
        × HasRead s mode
  unfolding cleaned
  read_from-cleaned s h = elim (Bool-cases (has_reserved s)) [
    | inl reserved ↦
        (after s, (λ rest. rw (cleaned, reserved) (read_from-quotes s rest h.1)), after-HasRead s)
    | inr free ↦ (
      plain s,
      (λ rest. rw (cleaned, free, texts s) (read_from-start_plain s rest h (no_comma s free))),
      plain-HasRead s,
    )
  ]

  read_list-join :
      (s : Str) (ss : List Str)
      → All IsPlain (s ∷ ss)
      → read_list (join (codes ",") (map (λ t. cleaned rt (str t)) (s ∷ ss))) ≡ s ∷ ss
  unfolding read_list join
  read_list-join s [] (h, _) =
      let (mode, reads, done) = read_from-cleaned s h in
      ap (λ t. read_from start t) (sym (append-nil (cleaned rt (str s)))) ∙ reads [] ∙ done.0
  read_list-join s (t ∷ ss) (h, hs) =
      let (mode, reads, done) = read_from-cleaned s h in
      reads _ ∙ done.1 _ ∙ ap (λ ts. s ∷ ts) (read_list-join t ss hs)

keep-map_str :
    (s : Str) (ts : List Str)
    → keep (λ w. not (same_value (str s) w)) (map str ts)
      ≡ map str (keep (λ t. not (str_eq s t)) ts)
unfolding keep same_value
keep-map_str s [] = refl
keep-map_str s (t ∷ ts) = ground (arith, keep-map_str s ts)

distinct-map_str : (ss : List Str) → distinct (map str ss) ≡ map str (unique ss)
unfolding distinct unique
distinct-map_str [] = refl
distinct-map_str (s ∷ ss) =
    rw (distinct-map_str ss) (ap (λ vs. str s ∷ vs) (keep-map_str s (unique ss)))

All-keep : (P : Str → Type 0) (p : Str → Bool) (ss : List Str) → All P ss → All P (keep p ss)
unfolding keep
All-keep P p [] h = tt
All-keep P p (s ∷ ss) (h, hs) = ground (arith, All-keep P p ss hs)

All-unique : (P : Str → Type 0) (ss : List Str) → All P ss → All P (unique ss)
unfolding unique
All-unique P [] h = tt
All-unique P (s ∷ ss) (h, hs) = (h, All-keep P _ (unique ss) (All-unique P ss hs))

map-cleaned :
    (rt : Runtime) (ss : List Str)
    → map (cleaned rt) (map str ss) ≡ map (λ t. cleaned rt (str t)) ss
map-cleaned rt [] = refl
map-cleaned rt (s ∷ ss) = ap (λ ts. cleaned rt (str s) ∷ ts) (map-cleaned rt ss)

read_list-cleaned_values :
    (rt : Runtime) (s : Str) (ss : List Str)
    → ((t : Str) → rt.text (str t) ≡ t)
    → All IsPlain (s ∷ ss)
    → read_list (cleaned_values rt (map str (s ∷ ss))) ≡ unique (s ∷ ss)
unfolding cleaned_values unique
read_list-cleaned_values rt s ss texts plain_ =
    ap (λ vs. read_list (join (codes ",") (map (cleaned rt) vs))) (distinct-map_str (s ∷ ss))
    ∙ ap (λ ts. read_list (join (codes ",") ts)) (map-cleaned rt (unique (s ∷ ss)))
    ∙ read_list-join rt texts s _ (All-unique IsPlain (s ∷ ss) plain_)

-- Two lists that `in` sends as the same text have the same texts, each counted once, in the order in
-- which they first occur: for lists that are not empty, of texts that are not empty and have neither a
-- quote nor a backslash in them.
pub cleaned_values-injective :
    (rt : Runtime) (s : Str) (ss : List Str) (t : Str) (ts : List Str)
    → ((u : Str) → rt.text (str u) ≡ u)
    → All IsPlain (s ∷ ss)
    → All IsPlain (t ∷ ts)
    → cleaned_values rt (map str (s ∷ ss)) ≡ cleaned_values rt (map str (t ∷ ts))
    → unique (s ∷ ss) ≡ unique (t ∷ ts)
cleaned_values-injective rt s ss t ts texts plain_s plain_t same =
    sym (read_list-cleaned_values rt s ss texts plain_s)
    ∙ ap read_list same
    ∙ read_list-cleaned_values rt t ts texts plain_t

reserved-comma : (s t : Str) → has_reserved (s ++ b'"' ∷ b',' ∷ t) ≡ true
unfolding has_reserved any
reserved-comma [] t = refl
reserved-comma (c ∷ s) t = ground (arith, reserved-comma s t)

cleaned-reserved :
    (rt : Runtime) (s : Str)
    → has_reserved s ≡ true
    → cleaned rt (str s) ≡ codes "\"" ++ (s ++ codes "\"")
unfolding cleaned
cleaned-reserved rt s reserved = rw (cleaned, reserved) refl

distinct-pair :
    (s t : Str) → str_eq s t ≡ false → distinct (str s ∷ str t ∷ []) ≡ str s ∷ str t ∷ []
unfolding distinct keep same_value
distinct-pair s t differ = rw (differ) refl

-- the text of the two elements is that of the one
quoted-pair :
    (s t : Str)
    → codes "\"" ++ ((s ++ b'"' ∷ b',' ∷ b'"' ∷ t) ++ codes "\"")
      ≡ join
          (codes ",")
          ((codes "\"" ++ (s ++ codes "\"")) ∷ (codes "\"" ++ (t ++ codes "\"")) ∷ [])
unfolding join
quoted-pair s t = simp append_assoc

cleaned_values-pair :
    (rt : Runtime) (s t : Str)
    → has_reserved s ≡ true
    → has_reserved t ≡ true
    → str_eq s t ≡ false
    → cleaned_values rt (str (s ++ (codes "\",\"" ++ t)) ∷ [])
      ≡ cleaned_values rt (str s ∷ str t ∷ [])
unfolding cleaned_values distinct keep
cleaned_values-pair rt s t reserved_s reserved_t differ =
    ap (λ u. join (codes ",") (u ∷ [])) (cleaned-reserved rt _ (reserved-comma s (b'"' ∷ t)))
    ∙ quoted-pair s t
    ∙ sym (
        ap (λ u. join (codes ",") (u ∷ (codes "\"" ++ (t ++ codes "\"")) ∷ []))
          (cleaned-reserved rt s reserved_s))
    ∙ sym (
        ap (λ u. join (codes ",") (cleaned rt (str s) ∷ u ∷ [])) (cleaned-reserved rt t reserved_t))
    ∙ sym (ap (λ vs. join (codes ",") (map (cleaned rt) vs)) (distinct-pair s t differ))

-- A quote is not escaped: a text made of two different texts with reserved characters and `","` between
-- them is sent as the list of the two, by `in` and by `notIn`.
pub in_list-split :
    (rt : Runtime) (column s t : Str) (b : Builder)
    → has_reserved s ≡ true
    → has_reserved t ≡ true
    → str_eq s t ≡ false
    → (in_list rt column (str (s ++ (codes "\",\"" ++ t)) ∷ []) b
        ≡ in_list rt column (str s ∷ str t ∷ []) b)
      × (not_in rt column (str (s ++ (codes "\",\"" ++ t)) ∷ []) b
          ≡ not_in rt column (str s ∷ str t ∷ []) b)
unfolding in_list not_in
in_list-split rt column s t b reserved_s reserved_t differ =
    let same = cleaned_values-pair rt s t reserved_s reserved_t differ in
    (
      ap (λ u. add column (codes "in.(" ++ (u ++ codes ")")) b) same,
      ap (λ u. add column (codes "not.in.(" ++ (u ++ codes ")")) b) same,
    )
