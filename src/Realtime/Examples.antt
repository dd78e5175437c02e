-- ===== src/Realtime/Examples.antt =====
-- The theorems on the serializer at concrete messages.
use securesupabase_js.Prelude.{
  ℕ, zero, suc, ◌≤◌, ◌≡◌, ◌≢◌, map, inl, inr, refl, ap, true, false, none, some, [], ◌∷◌, length,
  arith,
}
use securesupabase_js.Js.Text.{Str, codes, str_eq, has, split, join, nonempty}
use securesupabase_js.Js.Json.{bool, str, arr, items}
use securesupabase_js.Realtime.Transformers.{
  Runtime, to_boolean, before_brace, inside_braces, array_items, map_items, to_array,
  convert_scalar, convert_cell,
}
use securesupabase_js.Realtime.Transformers.Cells.{array_text, convert_cell-array}
use securesupabase_js.Realtime.Serializer.Broadcast.{frame, binary_decode-frame}
use securesupabase_js.Realtime.Serializer.{
  Codec, json, parse, parse_payload, parse_meta, binary_decode, ◌>>=◌,
}
use securesupabase_js.Realtime.Serializer.{
  Bytes, Parts, ok, threw, encode_push, kind_user_broadcast_push, zeros,
}
use securesupabase_js.Realtime.Serializer.Push.{
  read_push, IsShort, AreLatin, encode_push-read, encode_push-long,
}

abbrev parts : Parts
parts = record {
  join_ref = codes "1";
  ref = [];
  topic = codes "a:b";
  user_event = codes "x";
  metadata = [];
}

parts-IsShort : IsShort parts
parts-IsShort = record {
  join_ref = omega arith;
  ref = omega arith;
  topic = omega arith;
  user_event = omega arith;
  metadata = omega arith;
}

parts-AreLatin : AreLatin parts
parts-AreLatin = record {
  join_ref = (omega arith, tt);
  ref = tt;
  topic = (omega arith, (omega arith, (omega arith, tt)));
  user_event = (omega arith, tt);
  metadata = tt;
}

encode_push-read_example :
    (frame : Bytes) × (encode_push parts 1 (codes "{}") ≡ ok frame)
    × (read_push frame
        ≡ some (record {
          kind = kind_user_broadcast_push;
          parts = parts;
          encoding = 1;
          payload = codes "{}";
        }))
encode_push-read_example =
    encode_push-read parts 1 (codes "{}") parts-IsShort parts-AreLatin (omega arith)

length-zeros : (n : ℕ) → length (zeros n) ≡ n
unfolding zeros
length-zeros zero = refl
length-zeros (suc n) = ap suc (length-zeros n)

abbrev long_parts : Parts
long_parts = record parts { topic = zeros 300 }

encode_push-long_example : (message : Str) × (encode_push long_parts 0 [] ≡ threw message)
encode_push-long_example =
    encode_push-long long_parts 0 [] (inr (inr (inl (omega (arith, length-zeros 300)))))

-- A runtime that parses nothing.
abbrev runtime : Runtime
runtime = record { parse_float = λ s. none; parse_json = λ s. none }

not_comma : (c : ℕ) → 45 ≤ c → c ≢ b','
not_comma c h e = omega arith

joined : nonempty (join (b',' ∷ []) (codes "t" ∷ codes "f" ∷ [])) ≡ true
unfolding join
joined = refl

convert_cell-array_example :
    convert_cell runtime (codes "_bool") (str (array_text (codes "t" ∷ codes "f" ∷ [])))
    ≡ arr (
        items (map (λ s. convert_cell runtime (codes "bool") (str s)) (codes "t" ∷ codes "f" ∷ [])))
convert_cell-array_example =
    convert_cell-array runtime (codes "bool") (codes "t") (codes "f" ∷ [])
      ((not_comma _ (omega arith), tt), ((not_comma _ (omega arith), tt), tt)) joined refl

-- The elements of the array are converted.
booleans :
    convert_cell runtime (codes "_bool") (str (codes "{t,f}"))
    ≡ arr (items (bool true ∷ bool false ∷ []))
unfolding convert_cell to_array inside_braces before_brace array_items map_items split
    convert_scalar to_boolean str_eq has
booleans = refl

-- A runtime in which every text is the JSON of `true`.
abbrev codec : Codec
codec = record {
  stringify_entries = λ entries. codes "{}";
  encode_json = λ v. codes "true";
  decode_text = λ bytes. bytes;
  parse_json = λ s. some (bool true);
}

paid : parse_payload codec 1 (codes "true") ≡ ok (json (bool true))
unfolding parse_payload parse ◌>>=◌
paid = refl

described :
    parse_meta codec (length (codes "m")) (codec.decode_text (codes "m")) ≡ ok (some (bool true))
unfolding parse_meta parse ◌>>=◌
described = refl

binary_decode-frame_example :
    binary_decode codec (frame 1 (codes "a:b") (codes "x") (codes "m") (codes "true"))
    ≡ ok (
        some (record {
          topic = codes "a:b";
          user_event = codes "x";
          payload = json (bool true);
          meta = some (bool true);
        }))
binary_decode-frame_example =
    binary_decode-frame 1 (codes "a:b") (codes "x") (codes "m") (codes "true") codec
      (json (bool true)) (some (bool true)) paid described
