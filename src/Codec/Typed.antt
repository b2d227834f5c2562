-- ===== src/Codec/Typed.antt =====
-- `Encode` succeeds exactly on the values of its message.
use go_ipc.Prelude.{
  ℕ, ◌+◌, ◌*◌, ◌/◌, ◌%◌, ◌^◌, ◌≡◌, inl, inr, Bool-cases, Option, none, some, refl, ◌==◌, ==_iff,
}
use go_ipc.Memory.{Bytes, overlay}
use go_ipc.Schema.{Scalar, bool, u8, i8, u16, i16, u32, i32, f32, u64, i64, f64, scalar_size}
use go_ipc.Codec.{
  FixedType, scalar, array, ref, Fields, no_more, fixed, variable, size_of, Json, null, boolean,
  number, text, arr, obj, Members, count, value_of, check_keys,
}
use go_ipc.Codec.Encode.{Std, scalar_bits, put_number, put_bool, put_items, put, put_fields}
use go_ipc.Codec.Typing.{
  Gives, Only, bind-Only, Only-map, AllItems, IsScalar, HasType, HasFields, put_items-Only,
}

module _ (std : Std) where
  put_bool-Only :
      (base : ℕ) (v : Json) (m : Bytes) → Only (IsScalar std bool v) (put_bool std base v m)
  put_bool-Only base (boolean b) m = (b, refl)
  put_bool-Only base null m = tt
  put_bool-Only base (number s) m = tt
  put_bool-Only base (text s) m = tt
  put_bool-Only base (arr xs) m = tt
  put_bool-Only base (obj o) m = tt

  put_number-Only :
      (k : Scalar) (base : ℕ) (v : Json) (m : Bytes)
      → Only ((bits : ℕ) × (scalar_bits std k v ≡ some bits)) (put_number std k base v m)
  unfolding put_number
  put_number-Only k base v m = by_bits (scalar_bits std k v)
    where
      by_bits :
          (o : Option ℕ)
          → Only (Gives o) (elim o [
            | none ↦ none
            | some bits ↦ some (overlay m base (scalar_size k) (λ i. bits / 2 ^ (8 * i) % 256))
          ])
      by_bits none = tt
      by_bits (some bits) = (bits, refl)

  mutual
    unfolding put

    put-Only :
        (t : FixedType) (base : ℕ) (v : Json) (m : Bytes)
        → Only (HasType std t v) (put std t base v m)
    put-Only (scalar bool) base v m = put_bool-Only base v m
    put-Only (scalar u8) base v m = put_number-Only u8 base v m
    put-Only (scalar i8) base v m = put_number-Only i8 base v m
    put-Only (scalar u16) base v m = put_number-Only u16 base v m
    put-Only (scalar i16) base v m = put_number-Only i16 base v m
    put-Only (scalar u32) base v m = put_number-Only u32 base v m
    put-Only (scalar i32) base v m = put_number-Only i32 base v m
    put-Only (scalar f32) base v m = put_number-Only f32 base v m
    put-Only (scalar u64) base v m = put_number-Only u64 base v m
    put-Only (scalar i64) base v m = put_number-Only i64 base v m
    put-Only (scalar f64) base v m = put_number-Only f64 base v m
    put-Only (array len elem) base null m = tt
    put-Only (array len elem) base (boolean b) m = tt
    put-Only (array len elem) base (number s) m = tt
    put-Only (array len elem) base (text s) m = tt
    put-Only (array len elem) base (arr xs) m = elim (Bool-cases (count xs == len)) [
      | inl e ↦ rw e (
          Only-map (AllItems (λ x. HasType std elem x) xs) (HasType std (array len elem) (arr xs))
            (put_items (λ b x w. put std elem b x w) (size_of elem) base xs m)
            (λ all. (xs, refl, (==_iff (count xs) len).0 e, all))
            (put_items-Only std (λ b x w. put std elem b x w) (size_of elem)
              (λ x. HasType std elem x) (λ i x w. put-Only elem i x w) xs base m))
      | inr e ↦ rw e tt
    ]
    put-Only (array len elem) base (obj o) m = tt
    put-Only (ref fixed_size fields) base null m = tt
    put-Only (ref fixed_size fields) base (boolean b) m = tt
    put-Only (ref fixed_size fields) base (number s) m = tt
    put-Only (ref fixed_size fields) base (text s) m = tt
    put-Only (ref fixed_size fields) base (arr xs) m = tt
    put-Only (ref fixed_size fields) base (obj o) m = elim (Bool-cases (check_keys fields o)) [
      | inl e ↦ rw e (
          Only-map (HasFields std fields o) (HasType std (ref fixed_size fields) (obj o))
            (put_fields std fields base o m) (λ all. (o, refl, e, all))
            (put_fields-Only fields base o m))
      | inr e ↦ rw e tt
    ]

    put_fields-Only :
        (fs : Fields) (base : ℕ) (o : Members) (m : Bytes)
        → Only (HasFields std fs o) (put_fields std fs base o m)
    put_fields-Only no_more base o m = tt
    put_fields-Only (fixed name type_of offset rest) base o m =
        bind-Only (HasType std type_of (value_of name o)) (HasFields std rest o)
          (put std type_of (base + offset) (value_of name o) m)
          (λ m1. put_fields std rest base o m1)
          (put-Only type_of (base + offset) (value_of name o) m)
          (λ m1. put_fields-Only rest base o m1)
    put_fields-Only (variable name is_string rest) base o m = put_fields-Only rest base o m
