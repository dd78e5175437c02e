-- ===== src/Realtime/Serializer/Decode.antt =====
-- packages/core/realtime-js/src/lib/serializer.ts: `decode`.
use securesupabase_js.Prelude.{
  ℕ, ◌≡◌, refl, Bool, ◌&&◌, leb, Option, none, some, List, [], ◌∷◌, if◌then◌else◌, get_elem?,
}
use securesupabase_js.Js.Text.{Str, codes}
use securesupabase_js.Js.Json.{Json, null, str, arr, Items, nil, cons}
use securesupabase_js.Realtime.Serializer.{
  Bytes, Codec, Result, ok, threw, UserBroadcast, parse, binary_decode, ◌>>=◌,
}

-- What the socket gives: an `ArrayBuffer`, a text, or something else.
data RawPayload : Type 0 where
  array_buffer : Bytes → RawPayload
  text : Str → RawPayload
  other : RawPayload

-- What the callback gets; `none` is `undefined`.
data Decoded : Type 0 where
  broadcast : Option UserBroadcast → Decoded
  message : (join_ref ref topic event payload : Option Json) → Decoded
  empty : Decoded

abbrev is_pair : ℕ → ℕ → Bool
is_pair high low = leb 0xD800 high && leb high 0xDBFF && leb 0xDC00 low && leb low 0xDFFF

-- A string is iterated by code points.
unfoldable code_points : Str → List Json
code_points [] = []
code_points (c ∷ []) = str (c ∷ []) ∷ []
code_points (c ∷ d ∷ s) =
    let rest = code_points (d ∷ s) in
    let after = code_points s in
    if is_pair c d then str (c ∷ d ∷ []) ∷ after else str (c ∷ []) ∷ rest

unfoldable items_of : Items → List Json
items_of nil = []
items_of (cons v vs) = v ∷ items_of vs

-- What `[join_ref, ref, topic, event, payload] = value` takes apart; a TypeError if not iterable.
unfoldable iterate : Json → Result (List Json)
unfolding code_points items_of
iterate (arr vs) = ok (items_of vs)
iterate (str s) = ok (code_points s)
iterate _ = threw (codes "TypeError")

abbrev message_of : List Json → Decoded
message_of vs =
    message (get_elem? vs 0) (get_elem? vs 1) (get_elem? vs 2) (get_elem? vs 3) (get_elem? vs 4)

unfoldable decode : Codec → RawPayload → Result Decoded
unfolding iterate ◌>>=◌
decode codec (array_buffer bytes) = do found ← binary_decode codec bytes; ok (broadcast found)
decode codec (text s) = do value ← parse codec s; vs ← iterate value; ok (message_of vs)
decode codec other = ok empty

-- A runtime in which every text is the same array.
abbrev codec : Codec
codec = record {
  stringify_entries = λ entries. [];
  encode_json = λ v. [];
  decode_text = λ bytes. [];
  parse_json = λ s.
      some
        (arr (cons null (cons null (cons (str (codes "room")) (cons (str (codes "join")) nil)))));
}

-- A part that is missing is undefined.
short-message :
    decode codec (text [])
    ≡ ok (
        message
          (some null)
          (some null)
          (some (str (codes "room")))
          (some (str (codes "join")))
          none)
unfolding decode parse
short-message = refl
