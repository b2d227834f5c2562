-- ===== src/Codec/Puts.antt =====
-- What `put` writes: bytes of its type alone, which the checks of `Decode` accept.
use go_ipc.Prelude.{
  ℕ, suc, ◌+◌, ◌*◌, ◌/◌, ◌%◌, ◌^◌, ◌≤◌, ◌<◌, ◌≡◌, ◌⊎◌, inl, inr, Bool, true, false, Bool-cases,
  ◌&&◌, Option, none, some, refl, ◌∙◌, subst, arith, leb, ◌==◌,
}
use go_ipc.Memory.{Bytes, overlay}
use go_ipc.Memory.Laws.{overlay-at, overlay-out}
use go_ipc.Schema.{Scalar, bool, u8, i8, u16, i16, u32, i32, f32, u64, i64, f64, scalar_size}
use go_ipc.Codec.{
  FixedType, scalar, array, ref, Fields, no_more, fixed, variable, size_of, Json, null, boolean,
  number, text, arr, obj, Items, nil, cons, Members, count, value_of, check_keys,
}
use go_ipc.Codec.Encode.{Std, scalar_bits, put_number, put_bool, put_items, put, put_fields}
use go_ipc.Codec.Decode.{all_items, check_type, check_fixed}
use go_ipc.Codec.Placed.{IsPlaced, Placed, Placed-le, Same, check_type-Same}

-- Nothing is written from `lo` to `hi` yet.
abbrev pub Blank : Bytes → ℕ → ℕ → Type 0
Blank m lo hi = (d : ℕ) → lo ≤ d → d < hi → m d ≡ 0

-- An error, or a write from `lo` to `hi` alone that the check `good` accepts.
abbrev pub Wrote : (Bytes → Bool) → ℕ → ℕ → Bytes → Option Bytes → Type 0
Wrote good lo hi m none = Unit
Wrote good lo hi m (some m') = ((d : ℕ) → (d < lo) ⊎ (hi ≤ d) → m' d ≡ m d) × (good m' ≡ true)

-- Two writes, the second behind the first.
module _ (g h : Bytes → Bool) (lo a b hi : ℕ) (m : Bytes) (first : lo ≤ a) (range : a ≤ b)
    (last : b ≤ hi) (reads : (n n' : Bytes) → Same n n' a b → g n' ≡ g n) where
  joined :
      (m1 : Bytes) (o : Option Bytes)
      → Wrote g a b m (some m1)
      → Wrote h b hi m1 o
      → Wrote (λ n. g n && h n) lo hi m o
  joined m1 none w w' = tt
  joined m1 (some m2) w w' =
      let kept = reads m1 m2 (λ d p q. w'.0 d (inl q)) in
      (λ d o. w'.0 d (beyond d o) ∙ w.0 d (outside d o), rw (kept, w.1, w'.1))
    where
      beyond : (d : ℕ) → (d < lo) ⊎ (hi ≤ d) → (d < b) ⊎ (hi ≤ d)
      beyond d (inl o) = inl (omega arith)
      beyond d (inr o) = inr o

      outside : (d : ℕ) → (d < lo) ⊎ (hi ≤ d) → (d < a) ⊎ (b ≤ d)
      outside d (inl o) = inl (omega arith)
      outside d (inr o) = inr (omega arith)

  in_turn :
      (o : Option Bytes) (k : Bytes → Option Bytes)
      → Wrote g a b m o
      → ((m1 : Bytes) → ((d : ℕ) → b ≤ d → m1 d ≡ m d) → Wrote h b hi m1 (k m1))
      → Wrote (λ n. g n && h n) lo hi m (elim o [ none ↦ none | some m1 ↦ k m1 ])
  in_turn none k w next = tt
  in_turn (some m1) k w next = joined m1 (k m1) w (next m1 (λ d p. w.0 d (inr p)))

-- The loop over an array, over any write of an item.
module _ (f : ℕ → Json → Bytes → Option Bytes) (check : Bytes → ℕ → Bool) (step : ℕ)
    (each : (i : ℕ) (x : Json) (m : Bytes)
      → Blank m i (i + step)
      → Wrote (λ n. check n i) i (i + step) m (f i x m))
    (reads : (i : ℕ) (n n' : Bytes) → Same n n' i (i + step) → check n' i ≡ check n i) where
  put_items_lem :
      (xs : Items) (base : ℕ) (m : Bytes)
      → Blank m base (base + count xs * step)
      → Wrote
          (λ n. all_items (λ i. check n i) step base (count xs))
          base
          (base + count xs * step)
          m
          (put_items f step base xs m)
  unfolding put_items all_items
  put_items_lem nil base m blank = (λ d o. refl, refl)
  put_items_lem (cons x xs) base m blank =
      let e : base + suc (count xs) * step ≡ base + step + count xs * step = omega arith in
      rw e (
        in_turn (λ n. check n base) (λ n. all_items (λ i. check n i) step (base + step) (count xs))
          base base (base + step) (base + step + count xs * step) m (omega arith) (omega arith)
          (omega arith) (reads base) (f base x m) (λ m1. put_items f step (base + step) xs m1)
          (each base x m (λ d p q. blank d p (omega (arith, e))))
          (λ m1 same.
            put_items_lem xs (base + step) m1
              (λ d p q. same d p ∙ blank d (omega arith) (omega (arith, e)))))

module _ (std : Std) where
  put_bool_lem :
      (base : ℕ) (v : Json) (m : Bytes)
      → Blank m base (base + 1)
      → Wrote (λ n. leb (n base) 1) base (base + 1) m (put_bool std base v m)
  put_bool_lem base null m blank = tt
  put_bool_lem base (boolean true) m blank = (
    λ d o. overlay-out m base 1 (λ _. 1) d o,
    rw (overlay-at m base 1 (λ _. 1) base (omega arith) (omega arith)) refl,
  )
  put_bool_lem base (boolean false) m blank =
      (λ d o. refl, rw (blank base (omega arith) (omega arith)) refl)
  put_bool_lem base (number s) m blank = tt
  put_bool_lem base (text s) m blank = tt
  put_bool_lem base (arr xs) m blank = tt
  put_bool_lem base (obj o) m blank = tt

  put_number_lem :
      (k : Scalar) (base : ℕ) (v : Json) (m : Bytes)
      → Wrote (λ n. true) base (base + scalar_size k) m (put_number std k base v m)
  unfolding put_number
  put_number_lem k base v m = by_bits (scalar_bits std k v)
    where
      by_bits :
          (o : Option ℕ)
          → Wrote
              (λ n. true)
              base
              (base + scalar_size k)
              m
              (elim o [
                | none ↦ none
                | some bits ↦ some (overlay m base (scalar_size k) (λ i. bits / 2 ^ (8 * i) % 256))
              ])
      by_bits none = tt
      by_bits (some bits) =
          (λ d o. overlay-out m base (scalar_size k) (λ i. bits / 2 ^ (8 * i) % 256) d o, refl)

  mutual
    unfolding put check_type size_of

    pub put_lem :
        (t : FixedType) (base : ℕ) (v : Json) (m : Bytes)
        → IsPlaced t
        → Blank m base (base + size_of t)
        → Wrote (λ n. check_type t n base) base (base + size_of t) m (put std t base v m)
    put_lem (scalar bool) base v m p blank = put_bool_lem base v m blank
    put_lem (scalar u8) base v m p blank = put_number_lem u8 base v m
    put_lem (scalar i8) base v m p blank = put_number_lem i8 base v m
    put_lem (scalar u16) base v m p blank = put_number_lem u16 base v m
    put_lem (scalar i16) base v m p blank = put_number_lem i16 base v m
    put_lem (scalar u32) base v m p blank = put_number_lem u32 base v m
    put_lem (scalar i32) base v m p blank = put_number_lem i32 base v m
    put_lem (scalar f32) base v m p blank = put_number_lem f32 base v m
    put_lem (scalar u64) base v m p blank = put_number_lem u64 base v m
    put_lem (scalar i64) base v m p blank = put_number_lem i64 base v m
    put_lem (scalar f64) base v m p blank = put_number_lem f64 base v m
    put_lem (array len elem) base null m p blank = tt
    put_lem (array len elem) base (boolean b) m p blank = tt
    put_lem (array len elem) base (number s) m p blank = tt
    put_lem (array len elem) base (text s) m p blank = tt
    put_lem (array len elem) base (arr xs) m p blank = elim (Bool-cases (count xs == len)) [
      | inl e ↦
          let n : count xs ≡ len = ground arith in
          rw e (
            subst
              (λ (l : ℕ).
                Wrote (λ n. all_items (λ i. check_type elem n i) (size_of elem) base l) base
                  (base + l * size_of elem) m
                  (put_items (λ b x w. put std elem b x w) (size_of elem) base xs m))
              n
              (put_items_lem (λ b x w. put std elem b x w) (λ b i. check_type elem b i)
                (size_of elem) (λ i x w q. put_lem elem i x w p q)
                (λ i b b' q. check_type-Same elem b b' i p q) xs base m
                (λ d q q'. blank d q (rw n at q'))))
      | inr e ↦ rw e tt
    ]
    put_lem (array len elem) base (obj o) m p blank = tt
    put_lem (ref fixed_size fields) base null m p blank = tt
    put_lem (ref fixed_size fields) base (boolean b) m p blank = tt
    put_lem (ref fixed_size fields) base (number s) m p blank = tt
    put_lem (ref fixed_size fields) base (text s) m p blank = tt
    put_lem (ref fixed_size fields) base (arr xs) m p blank = tt
    put_lem (ref fixed_size fields) base (obj o) m p blank =
        elim (Bool-cases (check_keys fields o)) [
          | inl e ↦
              let zero_off : base + 0 ≡ base = omega arith in
              rw (e) (
                rw zero_off at (
                  put_fields_lem fields base o m 0 fixed_size p
                    (λ d q q'. blank d (omega arith) q')))
          | inr e ↦ rw e tt
        ]

    pub put_fields_lem :
        (fs : Fields) (base : ℕ) (o : Members) (m : Bytes) (off end : ℕ)
        → Placed off fs end
        → Blank m (base + off) (base + end)
        → Wrote
            (λ n. check_fixed fs n base)
            (base + off)
            (base + end)
            m
            (put_fields std fs base o m)
    put_fields_lem no_more base o m off end p blank = (λ d q. refl, refl)
    put_fields_lem (fixed name type_of offset rest) base o m off end p blank =
        let le = Placed-le (offset + size_of type_of) rest end p.2 in
        let e : base + (offset + size_of type_of) ≡ base + offset + size_of type_of = omega arith in
        in_turn (λ n. check_type type_of n (base + offset)) (λ n. check_fixed rest n base)
          (base + off) (base + offset) (base + offset + size_of type_of) (base + end) m
          (omega (arith, p.0)) (omega arith) (omega (arith, le))
          (λ n n' q. check_type-Same type_of n n' (base + offset) p.1 q)
          (put std type_of (base + offset) (value_of name o) m)
          (λ m1. put_fields std rest base o m1)
          (put_lem type_of (base + offset) (value_of name o) m p.1
            (λ d q q'. blank d (omega (arith, p.0)) (omega (arith, le))))
          (λ m1 same. rw e at (
            put_fields_lem rest base o m1 (offset + size_of type_of) end p.2
              (λ d q q'. same d (omega arith) ∙ blank d (omega (arith, p.0)) q')))
    put_fields_lem (variable name is_string rest) base o m off end p blank =
        put_fields_lem rest base o m off end p blank
