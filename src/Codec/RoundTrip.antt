-- ===== src/Codec/RoundTrip.antt =====
-- `Decode` accepts what `Encode` gives, and nothing longer.
use go_ipc.Prelude.{
  ℕ, zero, suc, ◌+◌, ◌^◌, ◌<◌, ◌≡◌, inl, inr, Bool, true, false, Bool-cases, not, ◌&&◌, Option,
  none, some, List, [], ◌∷◌, ◌++◌, refl, ◌∙◌, ap, subst, arith, ltb, if◌then◌else◌, length, drop,
  length-append, take-length_append, drop-length_append,
}
use go_ipc.Memory.{Bytes, load32, slice, byte_of}
use go_ipc.Memory.Laws.{length-slice}
use go_ipc.Codec.{
  Fields, no_more, fixed, variable, Message, Json, null, boolean, number, text, arr, obj, Members,
  value_of, check_keys,
}
use go_ipc.Codec.Encode.{Std, put_fields, var_bytes, var_sections, encode}
use go_ipc.Codec.Decode.{bytes_of, check_fixed, check_vars, decode}
use go_ipc.Codec.Placed.{Placed, check_fixed-Same}
use go_ipc.Codec.Puts.{Wrote, put_fields_lem}
use go_ipc.Schema.Parser.{eq_text}

-- A byte of a slice, with more behind it.
bytes_of-slice :
    (n : ℕ) (m : Bytes) (i : ℕ) (s : List ℕ) (d : ℕ)
    → d < n
    → bytes_of (slice m i n ++ s) d ≡ m (i + d)
unfolding slice
bytes_of-slice zero m i s d h = absurd (omega arith)
bytes_of-slice (suc n) m i s zero h = ap m (let e : i ≡ i + 0 = omega arith in e)
bytes_of-slice (suc n) m i s (suc d) h =
    bytes_of-slice n m (i + 1) s d (omega arith)
    ∙ ap m (let e : i + 1 + d ≡ i + suc d = omega arith in e)

pub bytes_of-append : (b s : List ℕ) (d : ℕ) → d < length b → bytes_of (b ++ s) d ≡ bytes_of b d
bytes_of-append [] s d h = absurd (omega arith)
bytes_of-append (x ∷ b) s zero h = refl
bytes_of-append (x ∷ b) s (suc d) h = bytes_of-append b s d (omega arith)

-- The length of a section, as it is read.
read_length :
    (n : ℕ) (s : List ℕ) → n < 2 ^ 32 → load32 (bytes_of (slice (byte_of n) 0 4 ++ s)) 0 ≡ n
unfolding load32 slice
read_length n s h = omega arith

module _ (std : Std) where
  abbrev IsText : Bool → Option (List ℕ) → Type 0
  IsText is_string none = Unit
  IsText is_string (some raw) = (is_string && not (std.is_valid raw)) ≡ false

  var_bytes-IsText : (is_string : Bool) (v : Json) → IsText is_string (var_bytes std is_string v)
  unfolding var_bytes
  var_bytes-IsText is_string null = tt
  var_bytes-IsText is_string (boolean b) = tt
  var_bytes-IsText is_string (number s) = tt
  var_bytes-IsText is_string (arr xs) = tt
  var_bytes-IsText is_string (obj o) = tt
  var_bytes-IsText true (text s) = elim (Bool-cases (std.is_valid s)) [
    | inl e ↦ rw (e, e) refl
    | inr e ↦ rw e tt
  ]
  var_bytes-IsText false (text s) = by_hex (std.hex_decode s)
    where
      by_hex :
          (o : Option (List ℕ))
          → IsText false (elim o [
            | none ↦ none
            | some raw ↦ if eq_text (std.hex_encode raw) s then some raw else none
          ])
      by_hex none = tt
      by_hex (some raw) = elim (Bool-cases (eq_text (std.hex_encode raw) s)) [
        | inl e ↦ rw e refl
        | inr e ↦ rw e tt
      ]

  -- What the sections of the fields are, if there are any: an input that `Decode` reads to its end.
  abbrev Reads : Fields → Option (List ℕ) → Type 0
  Reads fs none = Unit
  Reads fs (some b) = length b < 2 ^ 32 → check_vars std fs b ≡ none

  one_section :
      (is_string : Bool) (name : List ℕ) (rest : Fields) (raw more : List ℕ)
      → (is_string && not (std.is_valid raw)) ≡ false
      → length raw < 2 ^ 32
      → check_vars std
          (variable name is_string rest)
          (slice (byte_of (length raw)) 0 4 ++ (raw ++ more))
        ≡ check_vars std rest more
  unfolding check_vars slice
  one_section is_string name rest raw more valid h =
      let n = read_length (length raw) (raw ++ more) h in
      let fits : ltb (length (raw ++ more)) (length raw) ≡ false =
        ground (arith, length-append raw more) in
      let big : ltb (length (slice (byte_of (length raw)) 0 4 ++ (raw ++ more))) 4 ≡ false =
        ground arith in
      rw (big, n, fits, take-length_append raw more, drop-length_append raw more, valid)

  var_sections-Reads : (fs : Fields) (o : Members) → Reads fs (var_sections std fs o)
  unfolding var_sections check_vars
  var_sections-Reads no_more o = λ h. refl
  var_sections-Reads (fixed name type_of offset rest) o = var_sections-Reads rest o
  var_sections-Reads (variable name is_string rest) o =
      by_bytes (var_bytes std is_string (value_of name o))
        (var_bytes-IsText is_string (value_of name o)) (var_sections-Reads rest o)
    where
      by_rest :
          (raw : List ℕ) (l : Option (List ℕ))
          → (is_string && not (std.is_valid raw)) ≡ false
          → Reads rest l
          → Reads (variable name is_string rest) (elim l [
            | none ↦ none
            | some more ↦ some (slice (byte_of (length raw)) 0 4 ++ (raw ++ more))
          ])
      by_rest raw none valid ih = tt
      by_rest raw (some more) valid ih = λ h.
          let all : length (slice (byte_of (length raw)) 0 4 ++ (raw ++ more))
              ≡ length raw + length more + 4 =
            omega (
              arith,
              length-append (slice (byte_of (length raw)) 0 4) (raw ++ more),
              length-slice 4 (byte_of (length raw)) 0,
              length-append raw more,
            ) in
          one_section is_string name rest raw more valid (omega (arith, h, all))
          ∙ ih (omega (arith, h, all))

      by_bytes :
          (l : Option (List ℕ))
          → IsText is_string l
          → Reads rest (var_sections std rest o)
          → Reads (variable name is_string rest) (elim l [
            | none ↦ none
            | some raw ↦ elim (var_sections std rest o) [
              | none ↦ none
              | some more ↦ some (slice (byte_of (length raw)) 0 4 ++ (raw ++ more))
            ]
          ])
      by_bytes none valid ih = tt
      by_bytes (some raw) valid ih = by_rest raw (var_sections std rest o) valid ih

  -- An encoding that `Decode` accepts, if there is one.
  abbrev Accepted : Message → Option (List ℕ) → Type 0
  Accepted m none = Unit
  Accepted m (some b) = length b < 2 ^ 32 → decode std m b ≡ none

  module _ (m : Message) (p : Placed 0 m.fields m.fixed_size) where
    joined :
        (w : Bytes) (more : List ℕ)
        → check_fixed m.fields w 0 ≡ true
        → Reads m.fields (some more)
        → Accepted m (some (slice w 0 m.fixed_size ++ more))
    unfolding decode
    joined w more good reads h =
        let b = slice w 0 m.fixed_size ++ more in
        let len : length b ≡ m.fixed_size + length more =
          omega
            (arith, length-append (slice w 0 m.fixed_size) more, length-slice m.fixed_size w 0) in
        let fits : ltb (length b) m.fixed_size ≡ false = ground (arith, len) in
        let fixed_part : check_fixed m.fields (bytes_of b) 0 ≡ true =
          check_fixed-Same m.fields w (bytes_of b) 0 0 m.fixed_size p
            (λ d q q'. bytes_of-slice m.fixed_size w 0 more d (omega arith) ∙ ap w (omega arith))
          ∙ good in
        let tail : drop m.fixed_size b ≡ more =
          subst (λ (n : ℕ). drop n b ≡ more) (length-slice m.fixed_size w 0)
            (drop-length_append (slice w 0 m.fixed_size) more) in
        rw (fits, fixed_part, tail) (reads (omega (arith, h, len)))

    encode-Accepted : (v : Json) → Accepted m (encode std m v)
    unfolding encode
    encode-Accepted null = tt
    encode-Accepted (boolean b) = tt
    encode-Accepted (number s) = tt
    encode-Accepted (text s) = tt
    encode-Accepted (arr xs) = tt
    encode-Accepted (obj o) = elim (Bool-cases (check_keys m.fields o)) [
      | inl e ↦ rw e (
          by_parts (put_fields std m.fields 0 o (λ _. 0)) (var_sections std m.fields o)
            (put_fields_lem std m.fields 0 o (λ _. 0) 0 m.fixed_size p (λ d q q'. refl))
            (var_sections-Reads m.fields o))
      | inr e ↦ rw e tt
    ]
      where
        by_parts :
            (w : Option Bytes) (l : Option (List ℕ))
            → Wrote (λ n. check_fixed m.fields n 0) (0 + 0) (0 + m.fixed_size) (λ _. 0) w
            → Reads m.fields l
            → Accepted m (elim w [
              | none ↦ none
              | some b ↦ elim l [ none ↦ none | some more ↦ some (slice b 0 m.fixed_size ++ more) ]
            ])
        by_parts none l h k = tt
        by_parts (some b) none h k = tt
        by_parts (some b) (some more) h k = joined b more h.1 k

  -- `Decode` accepts what `Encode` gives of a message whose fields are placed as `Check` places them. The
  -- encoding is shorter than 2 ^ 32 bytes, so that every length fits its section.
  pub decode-encode :
      (m : Message) (v : Json) (b : List ℕ)
      → Placed 0 m.fields m.fixed_size
      → encode std m v ≡ some b
      → length b < 2 ^ 32
      → decode std m b ≡ none
  decode-encode m v b p e = subst (Accepted m) e (encode-Accepted m p v)
