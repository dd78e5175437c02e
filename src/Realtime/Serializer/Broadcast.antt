-- ===== src/Realtime/Serializer/Broadcast.antt =====
-- The frame of a broadcast that the server sends, read by `binary_decode`.
use securesupabase_js.Prelude.{
  ℕ, ◌+◌, ◌-◌, ◌≡◌, ◌∙◌, refl, sym, ap, Option, some, [], ◌∷◌, ◌++◌, length, length-append, arith,
}
use mathlib.Core.List.{append_assoc, append-nil}
use securesupabase_js.Js.Json.{Json}
use securesupabase_js.Realtime.Serializer.{
  Bytes, Codec, Value, ok, kind_user_broadcast, slice, get_uint8, parse_payload, parse_meta,
  decode_user_broadcast, binary_decode, ◌>>=◌,
}
use securesupabase_js.Realtime.Serializer.Framing.{take-exact, drop-exact}

slice-middle :
    (pre mid post : Bytes) (i j : ℕ)
    → length pre ≡ i
    → i + length mid ≡ j
    → slice (pre ++ (mid ++ post)) i j ≡ mid
unfolding slice
slice-middle pre mid post i j e f =
    rw (drop-exact i pre (mid ++ post) e) (take-exact (j - i) mid post (omega arith))

-- The kind, the sizes of the three texts, the encoding, the texts and the payload.
unfoldable pub frame : (encoding : ℕ) (topic event metadata payload : Bytes) → Bytes
frame encoding topic event metadata payload =
    kind_user_broadcast
    ∷ length topic
    ∷ length event
    ∷ length metadata
    ∷ encoding
    ∷ (topic ++ (event ++ (metadata ++ payload)))

module _ (encoding : ℕ) (topic event metadata payload : Bytes) where
  abbrev heading : Bytes
  heading = kind_user_broadcast ∷ length topic ∷ length event ∷ length metadata ∷ encoding ∷ []

  slice-topic : slice (frame encoding topic event metadata payload) 5 (5 + length topic) ≡ topic
  unfolding frame
  slice-topic =
      slice-middle heading topic (event ++ (metadata ++ payload)) 5 (5 + length topic) refl refl

  slice-event :
      slice
        (frame encoding topic event metadata payload)
        (5 + length topic)
        (5 + length topic + length event)
      ≡ event
  unfolding frame
  slice-event =
      ap (λ b. slice b (5 + length topic) (5 + length topic + length event))
        (sym (append_assoc heading topic (event ++ (metadata ++ payload))))
      ∙ slice-middle (heading ++ topic) event (metadata ++ payload) _ _
          (length-append heading topic) refl

  slice-metadata :
      slice
        (frame encoding topic event metadata payload)
        (5 + length topic + length event)
        (5 + length topic + length event + length metadata)
      ≡ metadata
  unfolding frame
  slice-metadata =
      ap
        (λ b.
          slice b (5 + length topic + length event)
            (5 + length topic + length event + length metadata))
        (sym (append_assoc heading topic (event ++ (metadata ++ payload)))
          ∙ sym (append_assoc (heading ++ topic) event (metadata ++ payload)))
      ∙ slice-middle ((heading ++ topic) ++ event) metadata payload _ _
          (length-append (heading ++ topic) event
            ∙ ap (λ n. n + length event) (length-append heading topic))
          refl

  slice-payload :
      slice
        (frame encoding topic event metadata payload)
        (5 + length topic + length event + length metadata)
        (length (frame encoding topic event metadata payload))
      ≡ payload
  unfolding frame
  slice-payload =
      let texts : Bytes = ((heading ++ topic) ++ event) ++ metadata in
      let same : heading ++ (topic ++ (event ++ (metadata ++ payload))) ≡ texts ++ (payload ++ []) =
        simp (append_assoc, append-nil) in
      let size : length texts ≡ 5 + length topic + length event + length metadata =
        omega (arith, length-append (topic ++ event) metadata, length-append topic event) in
      ap
        (λ b.
          slice b (5 + length topic + length event + length metadata)
            (length (heading ++ (topic ++ (event ++ (metadata ++ payload))))))
        same
      ∙ slice-middle texts payload [] _ _ size (
          omega (
            arith,
            length-append topic (event ++ (metadata ++ payload)),
            length-append event (metadata ++ payload),
            length-append metadata payload,
          ))

  heading-bytes :
      (get_uint8 (frame encoding topic event metadata payload) 0 ≡ ok kind_user_broadcast)
      × (get_uint8 (frame encoding topic event metadata payload) 1 ≡ ok (length topic))
      × (get_uint8 (frame encoding topic event metadata payload) 2 ≡ ok (length event))
      × (get_uint8 (frame encoding topic event metadata payload) 3 ≡ ok (length metadata))
      × (get_uint8 (frame encoding topic event metadata payload) 4 ≡ ok encoding)
  unfolding frame get_uint8
  heading-bytes = (refl, refl, refl, refl, refl)

  -- A frame of a broadcast whose metadata and payload the runtime can read is decoded: the topic, the
  -- event, the metadata and the payload are those of the frame.
  pub binary_decode-frame :
      (codec : Codec) (v : Value) (meta : Option Json)
      → parse_payload codec encoding payload ≡ ok v
      → parse_meta codec (length metadata) (codec.decode_text metadata) ≡ ok meta
      → binary_decode codec (frame encoding topic event metadata payload)
        ≡ ok (
            some (record {
              topic = codec.decode_text topic;
              user_event = codec.decode_text event;
              payload = v;
              meta = meta;
            }))
  unfolding binary_decode decode_user_broadcast ◌>>=◌
  binary_decode-frame codec v meta paid described =
      let (g0, g1, g2, g3, g4) = heading-bytes in
      rw (
        g0, g1, g2, g3, g4, slice-payload, paid, slice-metadata, described, slice-topic,
        slice-event,
      )
