-- ===== src/Realtime/Serializer.antt =====
-- packages/core/realtime-js/src/lib/serializer.ts; JSON and UTF-8 are the runtime's.
pub mod Framing
pub mod Push
pub mod Broadcast
mod Decode
use securesupabase_js.Prelude.{
  ℕ, zero, suc, ◌+◌, ◌-◌, ◌*◌, ◌%◌, ◌^◌, Bool, true, false, not, ◌&&◌, ◌==◌, ltb, leb, Option, none,
  some, List, [], ◌∷◌, ◌++◌, map, keep, length, take, drop, get_elem?, if◌then◌else◌,
}
use securesupabase_js.Js.Text.{Str, codes, str_eq, has, or_else}
use securesupabase_js.Js.Json.{Json, null, str, obj, end}

abbrev pub Bytes : Type 0
Bytes = List ℕ

-- A value of a payload: JSON, or an `ArrayBuffer`.
pub data Value : Type 0 where
  json : Json → Value
  buffer : Bytes → Value

-- `msg.payload`: an `ArrayBuffer`, or an object with its entries in order.
pub data Payload : Type 0 where
  raw : Bytes → Payload
  object : List (Str × Value) → Payload

pub record Message : Type 0 where
  pub join_ref : Option Str
  pub ref : Option Str
  pub topic : Str
  pub event : Str
  pub payload : Payload

-- The runtime: `JSON.stringify` of the picked entries, of a value as UTF-8, `TextDecoder` and
-- `JSON.parse`.
pub record Codec : Type 0 where
  pub stringify_entries : List (Str × Value) → Str
  pub encode_json : Json → Bytes
  pub decode_text : Bytes → Str
  pub parse_json : Str → Option Json

pub data Result (A : Type 0) : Type 0 where
  ok : A → Result A
  threw : Str → Result A

-- The result of `encode`: bytes, or the text of the array of the message's five parts.
pub data Encoded : Type 0 where
  binary : Bytes → Encoded
  array_text : Message → Encoded

abbrev pub broadcast_event : Str
broadcast_event = codes "broadcast"

abbrev pub header_length : ℕ
header_length = 1

abbrev pub user_broadcast_push_meta_length : ℕ
user_broadcast_push_meta_length = 6

abbrev pub kind_user_broadcast_push : ℕ
kind_user_broadcast_push = 3

abbrev pub kind_user_broadcast : ℕ
kind_user_broadcast = 4

abbrev pub binary_encoding : ℕ
binary_encoding = 0

abbrev pub json_encoding : ℕ
json_encoding = 1

unfoldable pub entry : Str → List (Str × Value) → Option Value
unfolding str_eq
entry name [] = none
entry name ((k, v) ∷ entries) = if str_eq k name then some v else entry name entries

-- _pick
unfoldable pub pick : List Str → List (Str × Value) → List (Str × Value)
unfolding keep has
pick keys entries = keep (λ e. has keys e.0) entries

-- The code units that `Array.from(s, (char) => char.charCodeAt(0))` visits: of a surrogate pair
-- the first alone.
abbrev is_high : ℕ → Bool
is_high c = leb 0xD800 c && leb c 0xDBFF

abbrev is_low : ℕ → Bool
is_low c = leb 0xDC00 c && leb c 0xDFFF

unfoldable pub first_units : Str → Str
first_units [] = []
first_units (c ∷ []) = c ∷ []
first_units (c ∷ d ∷ s) =
    let paired = c ∷ first_units s in
    let single = c ∷ first_units (d ∷ s) in if is_high c && is_low d then paired else single

-- `view.setUint8(offset++, …)` for each of them
unfoldable pub char_bytes : Str → Bytes
unfolding first_units
char_bytes s = map (λ c. c % 2 ^ 8) (first_units s)

unfoldable pub zeros : ℕ → Bytes
zeros zero = []
zeros (suc n) = 0 ∷ zeros n

-- A buffer of `n` zeros with `bytes` written from its start.
unfoldable pub filled : ℕ → Bytes → Bytes
unfolding zeros
filled n bytes = bytes ++ zeros (n - length bytes)

-- The texts whose lengths the header holds.
pub record Parts : Type 0 where
  pub join_ref : Str
  pub ref : Str
  pub topic : Str
  pub user_event : Str
  pub metadata : Str

unfoldable pub header_of : Parts → ℕ → Bytes
unfolding filled char_bytes
header_of p encoding_type =
    filled
      (header_length
        + (user_broadcast_push_meta_length
            + length p.join_ref
            + length p.ref
            + length p.topic
            + length p.user_event
            + length p.metadata))
      (kind_user_broadcast_push % 2 ^ 8
        ∷ length p.join_ref % 2 ^ 8
        ∷ length p.ref % 2 ^ 8
        ∷ length p.topic % 2 ^ 8
        ∷ length p.user_event % 2 ^ 8
        ∷ length p.metadata % 2 ^ 8
        ∷ encoding_type % 2 ^ 8
        ∷ (char_bytes p.join_ref
            ++ (char_bytes p.ref
                ++ (char_bytes p.topic ++ (char_bytes p.user_event ++ char_bytes p.metadata)))))

-- The tests of the five lengths, in the order of the source.
unfoldable pub check_lengths : Parts → Option Str
check_lengths p =
    if ltb 255 (length p.join_ref)
    then some (codes "joinRef length exceeds maximum of 255")
    else if ltb 255 (length p.ref)
    then some (codes "ref length exceeds maximum of 255")
    else if ltb 255 (length p.topic)
    then some (codes "topic length exceeds maximum of 255")
    else if ltb 255 (length p.user_event)
    then some (codes "userEvent length exceeds maximum of 255")
    else if ltb 255 (length p.metadata)
    then some (codes "metadata length exceeds maximum of 255")
    else none

abbrev pub metadata_of : Codec → List (Str × Value) → Str
metadata_of codec [] = []
metadata_of codec (e ∷ rest) = codec.stringify_entries (e ∷ rest)

unfoldable pub parts_of : Codec → List Str → Message → Str → List (Str × Value) → Parts
unfolding pick
parts_of codec allowed msg user_event entries = record {
  join_ref = or_else msg.join_ref [];
  ref = or_else msg.ref [];
  topic = msg.topic;
  user_event = user_event;
  metadata = metadata_of codec (pick allowed entries);
}

-- _encodeUserBroadcastPush, on the parts of the message
unfoldable pub encode_push : Parts → ℕ → Bytes → Result Bytes
encode_push p encoding_type encoded_payload = elim (check_lengths p) [
  | some message ↦ threw message
  | none ↦ ok (header_of p encoding_type ++ encoded_payload)
]

-- The encoding of the user's payload: an `ArrayBuffer` as it is, all else as JSON.
abbrev pub user_payload : Codec → Option Value → ℕ × Bytes
user_payload codec (some (buffer bytes)) = (binary_encoding, bytes)
user_payload codec none = (json_encoding, codec.encode_json (obj end))
user_payload codec (some (json null)) = (json_encoding, codec.encode_json (obj end))
user_payload codec (some (json v)) = (json_encoding, codec.encode_json v)

abbrev pub as_binary : Result Bytes → Result Encoded
as_binary (ok bytes) = ok (binary bytes)
as_binary (threw message) = threw message

-- `typeof msg.payload.event === 'string'`
abbrev pub text_entry : Option Value → Option Str
text_entry (some (json (str s))) = some s
text_entry _ = none

unfoldable pub encode_object : Codec → List Str → Message → List (Str × Value) → Result Encoded
unfolding entry encode_push parts_of
encode_object codec allowed msg entries = elim (text_entry (entry (codes "event") entries)) [
  | none ↦ ok (array_text msg)
  | some user_event ↦
      let (encoding_type, bytes) = user_payload codec (entry (codes "payload") entries) in
      as_binary (encode_push (parts_of codec allowed msg user_event entries) encoding_type bytes)
]

unfoldable pub encode : Codec → List Str → Message → Result Encoded
unfolding str_eq encode_object
encode codec allowed msg =
    if str_eq msg.event broadcast_event
    then elim msg.payload [
      | raw bytes ↦ ok (array_text msg)
      | object entries ↦ encode_object codec allowed msg entries
    ]
    else ok (array_text msg)

-- { join_ref: null, ref: null, topic, event: 'broadcast', payload: { type, event, payload, meta } }
pub record UserBroadcast : Type 0 where
  pub topic : Str
  pub user_event : Str
  pub payload : Value
  pub meta : Option Json

-- view.getUint8(i)
unfoldable pub get_uint8 : Bytes → ℕ → Result ℕ
get_uint8 view i = elim (get_elem? view i) [ none ↦ threw (codes "RangeError") | some b ↦ ok b ]

-- buffer.slice(from, to)
unfoldable pub slice : Bytes → ℕ → ℕ → Bytes
slice bytes from to = take (to - from) (drop from bytes)

infixl 5 ◌>>=◌
unfoldable pub ◌>>=◌ : {A B : Type 0} → Result A → (A → Result B) → Result B
ok a >>= f = f a
threw message >>= f = threw message

unfoldable pub parse : Codec → Str → Result Json
parse codec s = elim (codec.parse_json s) [ none ↦ threw (codes "SyntaxError") | some v ↦ ok v ]

unfoldable pub parse_payload : Codec → ℕ → Bytes → Result Value
unfolding parse ◌>>=◌
parse_payload codec encoding payload =
    if encoding == json_encoding
    then (do v ← parse codec (codec.decode_text payload); ok (json v))
    else ok (buffer payload)

unfoldable pub parse_meta : Codec → ℕ → Str → Result (Option Json)
unfolding parse ◌>>=◌
parse_meta codec size metadata =
    if ltb 0 size then (do v ← parse codec metadata; ok (some v)) else ok none

unfoldable pub decode_user_broadcast : Codec → Bytes → Result UserBroadcast
decode_user_broadcast codec buf = do
  topic_size ← get_uint8 buf 1
  user_event_size ← get_uint8 buf 2
  metadata_size ← get_uint8 buf 3
  encoding ← get_uint8 buf 4
  let start : ℕ = header_length + 4
  let event_start : ℕ = start + topic_size
  let meta_start : ℕ = event_start + user_event_size
  let payload_start : ℕ = meta_start + metadata_size
  payload ← parse_payload codec encoding (slice buf payload_start (length buf))
  meta ← parse_meta codec metadata_size (codec.decode_text (slice buf meta_start payload_start))
  ok (record {
    topic = codec.decode_text (slice buf start event_start);
    user_event = codec.decode_text (slice buf event_start meta_start);
    payload = payload;
    meta = meta;
  })

-- _binaryDecode: `none` is the `undefined` of an unknown kind.
unfoldable pub binary_decode : Codec → Bytes → Result (Option UserBroadcast)
binary_decode codec buf = do
  kind ← get_uint8 buf 0
  if kind == kind_user_broadcast
      then (do b ← decode_user_broadcast codec buf; ok (some b))
      else ok none
