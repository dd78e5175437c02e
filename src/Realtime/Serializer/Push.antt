-- ===== src/Realtime/Serializer/Push.antt =====
-- The frame that `encode` writes for a broadcast, against a reader of its layout.
use securesupabase_js.Prelude.{
  ℕ, ◌+◌, ◌%◌, ◌^◌, ◌<◌, ◌≤◌, ◌≡◌, Option-cases, ◌⊎◌, inl, inr, refl, false, Option, none, some,
  ◌∷◌, ◌++◌, length, length-append, take, drop, ltb, arith,
}
use mathlib.Core.List.{append_assoc}
use securesupabase_js.Js.Text.{Str}
use securesupabase_js.Realtime.Serializer.{
  Bytes, Parts, ok, threw, header_of, check_lengths, encode_push, kind_user_broadcast_push,
}
use securesupabase_js.Realtime.Serializer.Framing.{
  IsLatin, char_bytes-latin, filled-exact, take-exact, drop-exact,
}

pub record Frame : Type 0 where
  pub kind : ℕ
  pub parts : Parts
  pub encoding : ℕ
  pub payload : Bytes

-- The layout: a kind, five sizes, an encoding, the five texts, and the payload up to the end.
read_texts : (j r t e m : ℕ) → Bytes → Parts
read_texts j r t e m bytes = record {
  join_ref = take j bytes;
  ref = take r (drop j bytes);
  topic = take t (drop r (drop j bytes));
  user_event = take e (drop t (drop r (drop j bytes)));
  metadata = take m (drop e (drop t (drop r (drop j bytes))));
}

unfoldable pub read_push : Bytes → Option Frame
unfolding read_texts
read_push (kind ∷ j ∷ r ∷ t ∷ e ∷ m ∷ encoding ∷ bytes) = some (record {
  kind = kind;
  parts = read_texts j r t e m bytes;
  encoding = encoding;
  payload = drop m (drop e (drop t (drop r (drop j bytes))));
})
read_push _ = none

pub record IsShort (p : Parts) : Type 0 where
  pub join_ref : length p.join_ref ≤ 255
  pub ref : length p.ref ≤ 255
  pub topic : length p.topic ≤ 255
  pub user_event : length p.user_event ≤ 255
  pub metadata : length p.metadata ≤ 255

pub record AreLatin (p : Parts) : Type 0 where
  pub join_ref : IsLatin p.join_ref
  pub ref : IsLatin p.ref
  pub topic : IsLatin p.topic
  pub user_event : IsLatin p.user_event
  pub metadata : IsLatin p.metadata

check_lengths-short : (p : Parts) → IsShort p → check_lengths p ≡ none
unfolding check_lengths
check_lengths-short p s = rw (
  short (length p.join_ref) s.join_ref,
  short (length p.ref) s.ref,
  short (length p.topic) s.topic,
  short (length p.user_event) s.user_event,
  short (length p.metadata) s.metadata,
)
  where
    short : (n : ℕ) → n ≤ 255 → ltb 255 n ≡ false
    short n h = ground arith

texts : Parts → Bytes
texts p = p.join_ref ++ (p.ref ++ (p.topic ++ (p.user_event ++ p.metadata)))

length-texts :
    (p : Parts)
    → length (texts p)
      ≡ length p.join_ref
        + (length p.ref + (length p.topic + (length p.user_event + length p.metadata)))
unfolding texts
length-texts p = simp length-append

header_of-eq :
    (p : Parts) (encoding : ℕ)
    → IsShort p
    → AreLatin p
    → encoding < 2 ^ 8
    → header_of p encoding
      ≡ kind_user_broadcast_push
        ∷ length p.join_ref
        ∷ length p.ref
        ∷ length p.topic
        ∷ length p.user_event
        ∷ length p.metadata
        ∷ encoding
        ∷ texts p
unfolding header_of texts
header_of-eq p encoding s l h =
    rw
      (
        char_bytes-latin p.join_ref l.join_ref,
        char_bytes-latin p.ref l.ref,
        char_bytes-latin p.topic l.topic,
        char_bytes-latin p.user_event l.user_event,
        char_bytes-latin p.metadata l.metadata,
        small (length p.join_ref) s.join_ref,
        small (length p.ref) s.ref,
        small (length p.topic) s.topic,
        small (length p.user_event) s.user_event,
        small (length p.metadata) s.metadata,
        small encoding (omega arith),
      )
      (filled-exact _ _ (omega (arith, length-texts p)))
  where
    small : (n : ℕ) → n ≤ 255 → n % 2 ^ 8 ≡ n
    small n h' = omega arith

regroup :
    (p : Parts) (payload : Bytes)
    → texts p ++ payload
      ≡ p.join_ref ++ (p.ref ++ (p.topic ++ (p.user_event ++ (p.metadata ++ payload))))
unfolding texts
regroup p payload = simp append_assoc

read_push-frame :
    (p : Parts) (encoding : ℕ) (payload : Bytes)
    → read_push (
        kind_user_broadcast_push
        ∷ length p.join_ref
        ∷ length p.ref
        ∷ length p.topic
        ∷ length p.user_event
        ∷ length p.metadata
        ∷ encoding
        ∷ (p.join_ref ++ (p.ref ++ (p.topic ++ (p.user_event ++ (p.metadata ++ payload))))))
      ≡ some (record {
        kind = kind_user_broadcast_push;
        parts = p;
        encoding = encoding;
        payload = payload;
      })
unfolding read_push
read_push-frame p encoding payload =
    let d1 =
      drop-exact (length p.join_ref) p.join_ref
        (p.ref ++ (p.topic ++ (p.user_event ++ (p.metadata ++ payload)))) refl in
    let d2 =
      drop-exact (length p.ref) p.ref (p.topic ++ (p.user_event ++ (p.metadata ++ payload))) refl in
    let d3 = drop-exact (length p.topic) p.topic (p.user_event ++ (p.metadata ++ payload)) refl in
    let d4 = drop-exact (length p.user_event) p.user_event (p.metadata ++ payload) refl in
    let d5 = drop-exact (length p.metadata) p.metadata payload refl in
    rw (
      d1,
      d2,
      d3,
      d4,
      d5,
      take-exact (length p.join_ref) p.join_ref
          (p.ref ++ (p.topic ++ (p.user_event ++ (p.metadata ++ payload)))) refl,
      take-exact (length p.ref) p.ref (p.topic ++ (p.user_event ++ (p.metadata ++ payload))) refl,
      take-exact (length p.topic) p.topic (p.user_event ++ (p.metadata ++ payload)) refl,
      take-exact (length p.user_event) p.user_event (p.metadata ++ payload) refl,
      take-exact (length p.metadata) p.metadata payload refl,
    )

-- If the five texts have at most 255 code units, which fit in bytes as the encoding does, the
-- frame of a broadcast is written, and the frame's reader gets back every text, the encoding and
-- the payload.
pub encode_push-read :
    (p : Parts) (encoding : ℕ) (payload : Bytes)
    → IsShort p
    → AreLatin p
    → encoding < 2 ^ 8
    → (frame : Bytes) × (encode_push p encoding payload ≡ ok frame)
      × (read_push frame
          ≡ some (record {
            kind = kind_user_broadcast_push;
            parts = p;
            encoding = encoding;
            payload = payload;
          }))
unfolding encode_push
encode_push-read p encoding payload s l h = (
  header_of p encoding ++ payload,
  rw (encode_push, check_lengths-short p s),
  rw (header_of-eq p encoding s l h, regroup p payload) (read_push-frame p encoding payload),
)

long_refused :
    (p : Parts)
    → (256 ≤ length p.join_ref)
      ⊎ (256 ≤ length p.ref)
      ⊎ (256 ≤ length p.topic)
      ⊎ (256 ≤ length p.user_event)
      ⊎ (256 ≤ length p.metadata)
    → ¬ (check_lengths p ≡ none)
unfolding check_lengths
long_refused p h e = ground arith

-- A text of more than 255 code units is an error, and no frame is written.
pub encode_push-long :
    (p : Parts) (encoding : ℕ) (payload : Bytes)
    → (256 ≤ length p.join_ref)
      ⊎ (256 ≤ length p.ref)
      ⊎ (256 ≤ length p.topic)
      ⊎ (256 ≤ length p.user_event)
      ⊎ (256 ≤ length p.metadata)
    → (message : Str) × (encode_push p encoding payload ≡ threw message)
unfolding encode_push
encode_push-long p encoding payload h = elim (Option-cases (check_lengths p)) [
  | inl e ↦ absurd (long_refused p h e)
  | inr (message, e) ↦ (message, rw (encode_push, e))
]
