-- ===== src/Codec/Typing.antt =====
-- Which JSON values are values of a message, and that `Encode` succeeds on these alone.
use go_ipc.Prelude.{
  ℕ, ◌+◌, ◌*◌, ◌/◌, ◌%◌, ◌^◌, ◌≡◌, Bool, true, Option, none, some, List, refl, sym, subst, ==_iff,
}
use go_ipc.Memory.{Bytes, overlay}
use go_ipc.Schema.{Scalar, bool, u8, i8, u16, i16, u32, i32, f32, u64, i64, f64, scalar_size}
use go_ipc.Codec.{
  FixedType, scalar, array, ref, Fields, no_more, fixed, variable, Message, size_of, Json, boolean,
  arr, obj, Items, nil, cons, Members, count, value_of, check_keys,
}
use go_ipc.Codec.Encode.{
  Std, scalar_bits, put_number, put_bool, put_items, put, put_fields, var_bytes,
}

-- There is a result; and what holds if there is one.
abbrev pub Gives : {A : Type 0} → Option A → Type 0
Gives {A} o = (x : A) × (o ≡ some x)

abbrev pub Only : {A : Type 0} → Type 0 → Option A → Type 0
Only P none = Unit
Only P (some x) = P

module _ {B : Type 0} where
  Only-both : (P Q : Type 0) (o : Option B) → P → Only Q o → Only (P × Q) o
  Only-both P Q none p q = tt
  Only-both P Q (some x) p q = (p, q)

  pub Only-map : (P Q : Type 0) (o : Option B) → (P → Q) → Only P o → Only Q o
  Only-map P Q none f p = tt
  Only-map P Q (some x) f p = f p

module _ {A B : Type 0} where
  pub bind-Gives :
      (o : Option A) (k : A → Option B)
      → Gives o
      → ((x : A) → Gives (k x))
      → Gives (elim o [ none ↦ none | some x ↦ k x ])
  bind-Gives none k (x, e) next = cc
  bind-Gives (some y) k g next = next y

  pub bind-Only :
      (P Q : Type 0) (o : Option A) (k : A → Option B)
      → Only P o
      → ((x : A) → Only Q (k x))
      → Only (P × Q) (elim o [ none ↦ none | some x ↦ k x ])
  bind-Only P Q none k p next = tt
  bind-Only P Q (some x) k p next = Only-both P Q (k x) p (next x)

abbrev pub AllItems : (Json → Type 0) → Items → Type 0
AllItems P nil = Unit
AllItems P (cons x xs) = P x × AllItems P xs

module _ (std : Std) where
  -- A value of a scalar type: a bool, or what has a bit pattern.
  abbrev pub IsScalar : Scalar → Json → Type 0
  IsScalar bool v = (b : Bool) × (v ≡ boolean b)
  IsScalar k v = (bits : ℕ) × (scalar_bits std k v ≡ some bits)

  abbrev mutual
    -- A value of a fixed type: an array has the items that the type says, an object the fields of the
    -- message.
    pub HasType : FixedType → Json → Type 0
    HasType (scalar k) v = IsScalar k v
    HasType (array len elem) v =
        (xs : Items) × (v ≡ arr xs) × (count xs ≡ len) × AllItems (λ x. HasType elem x) xs
    HasType (ref fixed_size fields) v =
        (o : Members) × (v ≡ obj o) × (check_keys fields o ≡ true) × HasFields fields o

    pub HasFields : Fields → Members → Type 0
    HasFields no_more o = Unit
    HasFields (fixed name type_of offset rest) o =
        HasType type_of (value_of name o) × HasFields rest o
    HasFields (variable name is_string rest) o = HasFields rest o

  -- The strings and the bytes of a message.
  abbrev pub HasTexts : Fields → Members → Type 0
  HasTexts no_more o = Unit
  HasTexts (fixed name type_of offset rest) o = HasTexts rest o
  HasTexts (variable name is_string rest) o =
      ((raw : List ℕ) × (var_bytes std is_string (value_of name o) ≡ some raw)) × HasTexts rest o

  abbrev pub IsValue : Message → Json → Type 0
  IsValue m v =
      (o : Members) × (v ≡ obj o)
      × (check_keys m.fields o ≡ true)
      × HasFields m.fields o
      × HasTexts m.fields o

  put_number-Gives :
      (k : Scalar) (base : ℕ) (v : Json) (m : Bytes)
      → (bits : ℕ) × (scalar_bits std k v ≡ some bits)
      → Gives (put_number std k base v m)
  unfolding put_number
  put_number-Gives k base v m g =
      bind-Gives (scalar_bits std k v)
        (λ bits. some (overlay m base (scalar_size k) (λ i. bits / 2 ^ (8 * i) % 256))) g
        (λ bits. (_, refl))

  module _ (f : ℕ → Json → Bytes → Option Bytes) (step : ℕ) (P : Json → Type 0) where
    put_items-Gives :
        (each : (i : ℕ) (x : Json) (m : Bytes) → P x → Gives (f i x m))
        → (xs : Items) (base : ℕ) (m : Bytes) → AllItems P xs
        → Gives (put_items f step base xs m)
    unfolding put_items
    put_items-Gives each nil base m all = (m, refl)
    put_items-Gives each (cons x xs) base m all =
        bind-Gives (f base x m) (λ m1. put_items f step (base + step) xs m1) (each base x m all.0)
          (λ m1. put_items-Gives each xs (base + step) m1 all.1)

    pub put_items-Only :
        (each : (i : ℕ) (x : Json) (m : Bytes) → Only (P x) (f i x m))
        → (xs : Items) (base : ℕ) (m : Bytes) → Only (AllItems P xs) (put_items f step base xs m)
    unfolding put_items
    put_items-Only each nil base m = tt
    put_items-Only each (cons x xs) base m =
        bind-Only (P x) (AllItems P xs) (f base x m) (λ m1. put_items f step (base + step) xs m1)
          (each base x m) (λ m1. put_items-Only each xs (base + step) m1)

  mutual
    unfolding put

    put-Gives :
        (t : FixedType) (base : ℕ) (v : Json) (m : Bytes) → HasType t v → Gives (put std t base v m)
    put-Gives (scalar bool) base v m (b, e) =
        subst (λ w. Gives (put_bool std base w m)) (sym e) (_, refl)
    put-Gives (scalar u8) base v m h = put_number-Gives u8 base v m h
    put-Gives (scalar i8) base v m h = put_number-Gives i8 base v m h
    put-Gives (scalar u16) base v m h = put_number-Gives u16 base v m h
    put-Gives (scalar i16) base v m h = put_number-Gives i16 base v m h
    put-Gives (scalar u32) base v m h = put_number-Gives u32 base v m h
    put-Gives (scalar i32) base v m h = put_number-Gives i32 base v m h
    put-Gives (scalar f32) base v m h = put_number-Gives f32 base v m h
    put-Gives (scalar u64) base v m h = put_number-Gives u64 base v m h
    put-Gives (scalar i64) base v m h = put_number-Gives i64 base v m h
    put-Gives (scalar f64) base v m h = put_number-Gives f64 base v m h
    put-Gives (array len elem) base v m (xs, e, n, all) =
        subst (λ w. Gives (put std (array len elem) base w m)) (sym e)
          (rw ((==_iff (count xs) len).1 n) (
            put_items-Gives (λ b x w. put std elem b x w) (size_of elem) (λ x. HasType elem x)
              (λ i x w. put-Gives elem i x w) xs base m all))
    put-Gives (ref fixed_size fields) base v m (o, e, keys, all) =
        subst (λ w. Gives (put std (ref fixed_size fields) base w m)) (sym e)
          (rw keys (put_fields-Gives fields base o m all))

    pub put_fields-Gives :
        (fs : Fields) (base : ℕ) (o : Members) (m : Bytes)
        → HasFields fs o
        → Gives (put_fields std fs base o m)
    put_fields-Gives no_more base o m all = (m, refl)
    put_fields-Gives (fixed name type_of offset rest) base o m all =
        bind-Gives (put std type_of (base + offset) (value_of name o) m)
          (λ m1. put_fields std rest base o m1)
          (put-Gives type_of (base + offset) (value_of name o) m all.0)
          (λ m1. put_fields-Gives rest base o m1 all.1)
    put_fields-Gives (variable name is_string rest) base o m all =
        put_fields-Gives rest base o m all
