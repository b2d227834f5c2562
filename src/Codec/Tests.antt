-- ===== src/Codec/Tests.antt =====
-- The codec at a message with a bool, an array of numbers and a string.
use go_ipc.Prelude.{
  ℕ, ◌+◌, ◌-◌, ◌*◌, ◌^◌, ◌≡◌, true, Option, none, some, List, [], ◌∷◌, ◌++◌, refl, arith, ltb, ◌==◌,
  if◌then◌else◌,
}
use go_ipc.Memory.{overlay, slice}
use go_ipc.Schema.{bool, u16}
use go_ipc.Codec.{
  Text, scalar, array, no_more, fixed, variable, Message, Json, boolean, number, text, arr, obj,
  nil, cons, empty, member, check_keys, value_of, size_of,
}
use go_ipc.Codec.Encode.{Std, encode, put_number, scalar_bits, put_items, var_bytes}
use go_ipc.Codec.Decode.{trailing, decode}
use go_ipc.Codec.Placed.{Placed}
use go_ipc.Codec.RoundTrip.{decode-encode}
use go_ipc.Codec.Prefixes.{decode-append}

-- Decimal digits, below 2 ^ width.
abbrev digits : ℕ → Text → Option ℕ
digits n [] = some n
digits n (d ∷ ds) = digits (10 * n + (d - 48)) ds

abbrev below : ℕ → Option ℕ → Option ℕ
below limit none = none
below limit (some n) = if ltb n limit then some n else none

-- A library without floats and hex.
abbrev plain : Std
plain = record {
  parse_float = λ s. none;
  narrow = λ f. f;
  widen = λ f. f;
  equal = λ f g. f == g;
  parse_int = λ s width. none;
  parse_uint = λ s width. below (2 ^ width) (digits 0 s);
  is_valid = λ s. true;
  hex_decode = λ s. none;
  hex_encode = λ b. [];
}

-- `on`, `n` and `s`.
abbrev point : Message
point = record {
  fixed_size = 6;
  fields =
      fixed (111 ∷ 110 ∷ []) (scalar bool) 0
        (fixed (110 ∷ []) (array 2 (scalar u16)) 2 (variable (115 ∷ []) true no_more));
}

abbrev value : Json
value = obj (
    member (111 ∷ 110 ∷ []) (boolean true) (
      member (110 ∷ []) (arr (cons (number (51 ∷ 48 ∷ 48 ∷ [])) (cons (number (55 ∷ [])) nil)))
        (member (115 ∷ []) (text (104 ∷ 105 ∷ [])) empty)))

abbrev encoded : List ℕ
encoded = 1 ∷ 0 ∷ 44 ∷ 1 ∷ 7 ∷ 0 ∷ 2 ∷ 0 ∷ 0 ∷ 0 ∷ 104 ∷ 105 ∷ []

value-encoded : encode plain point value ≡ some encoded
unfolding encode check_keys value_of size_of put_number scalar_bits put_items var_bytes overlay
    slice
value-encoded = refl

point-Placed : Placed 0 point.fields point.fixed_size
unfolding size_of
point-Placed = omega arith

decode-encode_example : decode plain point encoded ≡ none
decode-encode_example =
    decode-encode plain point value encoded point-Placed value-encoded (omega arith)

decode-append_example : decode plain point (encoded ++ 9 ∷ []) ≡ some trailing
decode-append_example =
    decode-append plain 9 [] point encoded point-Placed
      (decode-encode plain point value encoded point-Placed value-encoded (omega arith))
