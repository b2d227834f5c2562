-- ===== src/Codec/Encode.antt =====
-- `Encode` of refcodec.go. Of an error only that there is one is kept. Package strconv, utf8.ValidString and
-- package hex, which the code calls, are arguments.
use go_ipc.Prelude.{
  ℕ, ◌+◌, ◌*◌, ◌/◌, ◌%◌, ◌^◌, Bool, true, false, Option, none, some, List, [], ◌++◌, ◌==◌,
  if◌then◌else◌, length,
}
use go_ipc.Memory.{Bytes, overlay, slice, byte_of}
use go_ipc.Schema.{Scalar, bool, i8, i16, i32, f32, u64, i64, f64, scalar_size}
use go_ipc.Schema.Parser.{eq_text}
use go_ipc.Codec.{
  Text, FixedType, scalar, array, ref, Fields, no_more, fixed, variable, Message, size_of, Json,
  boolean, number, text, arr, obj, Items, nil, cons, Members, count, value_of, check_keys,
}

-- What the code calls. A float64 is its bits, and so is a float32; `widen` and `narrow` convert between
-- them, and `equal` is `==` of float64. The integers are given as uint64, and parsed in base ten, with a
-- width. utf8.ValidString of a string is utf8.Valid of its bytes.
pub record Std : Type 0 where
  pub parse_float : Text → Option ℕ
  pub narrow : ℕ → ℕ
  pub widen : ℕ → ℕ
  pub equal : ℕ → ℕ → Bool
  pub parse_int : Text → ℕ → Option ℕ
  pub parse_uint : Text → ℕ → Option ℕ
  pub is_valid : List ℕ → Bool
  pub hex_decode : Text → Option (List ℕ)
  pub hex_encode : List ℕ → Text

-- `k == U64 || k == I64`, whose numbers are written as strings.
abbrev pub is_wide : Scalar → Bool
is_wide u64 = true
is_wide i64 = true
is_wide k = false

-- `Kind.IsSigned`
abbrev pub is_signed : Scalar → Bool
is_signed i8 = true
is_signed i16 = true
is_signed i32 = true
is_signed i64 = true
is_signed k = false

abbrev pub number_text : Scalar → Json → Option Text
number_text k (text s) = if is_wide k then some s else none
number_text k (number s) = if is_wide k then none else some s
number_text k v = none

-- The loop over an array: `put` for each item, `step` bytes on.
unfoldable pub put_items : (ℕ → Json → Bytes → Option Bytes) → ℕ → ℕ → Items → Bytes → Option Bytes
put_items put_elem step base nil m = some m
put_items put_elem step base (cons x xs) m = elim (put_elem base x m) [
  | none ↦ none
  | some m' ↦ put_items put_elem step (base + step) xs m'
]

module _ (std : Std) where
  abbrev pub parse_bits : Scalar → Text → Option ℕ
  parse_bits f32 s = elim (std.parse_float s) [
    | none ↦ none
    | some f ↦ if std.equal (std.widen (std.narrow f)) f then some (std.narrow f) else none
  ]
  parse_bits f64 s = std.parse_float s
  parse_bits k s =
      if is_signed k
      then std.parse_int s (scalar_size k * 8)
      else std.parse_uint s (scalar_size k * 8)

  unfoldable pub scalar_bits : Scalar → Json → Option ℕ
  scalar_bits k v = elim (number_text k v) [ none ↦ none | some s ↦ parse_bits k s ]

  -- The stores of the bytes of a number, lowest first.
  unfoldable pub put_number : Scalar → ℕ → Json → Bytes → Option Bytes
  unfolding scalar_bits
  put_number k base v m = elim (scalar_bits k v) [
    | none ↦ none
    | some bits ↦ some (overlay m base (scalar_size k) (λ i. bits / 2 ^ (8 * i) % 256))
  ]

  abbrev pub put_bool : ℕ → Json → Bytes → Option Bytes
  put_bool base (boolean b) m = some (if b then overlay m base 1 (λ _. 1) else m)
  put_bool base v m = none

  unfoldable mutual
    -- `put`, into the bytes from `base` on.
    pub put : FixedType → ℕ → Json → Bytes → Option Bytes
    put (scalar bool) base v m = put_bool base v m
    put (scalar k) base v m = put_number k base v m
    put (array len elem) base v m = elim v [
      | arr xs ↦
          if count xs == len
          then put_items (λ b x n. put elem b x n) (size_of elem) base xs m
          else none
      | w ↦ none
    ]
    put (ref fixed_size fields) base v m = elim v [
      | obj o ↦ if check_keys fields o then put_fields fields base o m else none
      | w ↦ none
    ]

    -- The loop of `putFixed`.
    pub put_fields : Fields → ℕ → Members → Bytes → Option Bytes
    put_fields no_more base o m = some m
    put_fields (fixed name type_of offset rest) base o m =
        elim (put type_of (base + offset) (value_of name o) m) [
          | none ↦ none
          | some m' ↦ put_fields rest base o m'
        ]
    put_fields (variable name is_string rest) base o m = put_fields rest base o m

  -- `varBytes`
  unfoldable pub var_bytes : Bool → Json → Option (List ℕ)
  var_bytes is_string (text s) =
      if is_string then if std.is_valid s then some s else none else elim (std.hex_decode s) [
        | none ↦ none
        | some raw ↦ if eq_text (std.hex_encode raw) s then some raw else none
      ]
  var_bytes is_string v = none

  -- The sections behind the fixed one: a length and the bytes of each field of variable length.
  unfoldable pub var_sections : Fields → Members → Option (List ℕ)
  var_sections no_more o = some []
  var_sections (fixed name type_of offset rest) o = var_sections rest o
  var_sections (variable name is_string rest) o = elim (var_bytes is_string (value_of name o)) [
    | none ↦ none
    | some raw ↦ elim (var_sections rest o) [
      | none ↦ none
      | some more ↦ some (slice (byte_of (length raw)) 0 4 ++ (raw ++ more))
    ]
  ]

  unfoldable pub encode : Message → Json → Option (List ℕ)
  unfolding put var_sections
  encode m (obj o) =
      if check_keys m.fields o
      then elim (put_fields m.fields 0 o (λ _. 0)) [
        | none ↦ none
        | some b ↦ elim (var_sections m.fields o) [
          | none ↦ none
          | some more ↦ some (slice b 0 m.fixed_size ++ more)
        ]
      ]
      else none
  encode m v = none
