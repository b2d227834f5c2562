-- ===== src/Codec/Placed.antt =====
-- Messages whose fields are placed as `layout` places them, and what the checks of `Decode` read.
use go_ipc.Prelude.{ℕ, zero, suc, ◌+◌, ◌*◌, ◌≤◌, ◌<◌, ◌≡◌, Bool, refl, ap, arith, leb}
use go_ipc.Memory.{Bytes}
use go_ipc.Schema.{Scalar, bool, u8, i8, u16, i16, u32, i32, f32, u64, i64, f64, scalar_size}
use go_ipc.Codec.{FixedType, scalar, array, ref, Fields, no_more, fixed, variable, size_of}
use go_ipc.Codec.Decode.{all_items, check_type, check_fixed}

abbrev mutual
  pub IsPlaced : FixedType → Type 0
  IsPlaced (scalar k) = Unit
  IsPlaced (array len elem) = IsPlaced elem
  IsPlaced (ref fixed_size fields) = Placed 0 fields fixed_size

  -- The fixed fields lie one behind the other, between `off` and `end`.
  pub Placed : ℕ → Fields → ℕ → Type 0
  Placed off no_more end = off ≤ end
  Placed off (fixed name type_of offset rest) end =
      (off ≤ offset) × IsPlaced type_of × Placed (offset + size_of type_of) rest end
  Placed off (variable name is_string rest) end = Placed off rest end

pub Placed-le : (off : ℕ) (fs : Fields) (end : ℕ) → Placed off fs end → off ≤ end
Placed-le off no_more end h = h
Placed-le off (fixed name type_of offset rest) end h =
    omega (arith, h.0, Placed-le (offset + size_of type_of) rest end h.2)
Placed-le off (variable name is_string rest) end h = Placed-le off rest end h

-- `b` and `b'` have the same bytes from `lo` to `hi`.
abbrev pub Same : Bytes → Bytes → ℕ → ℕ → Type 0
Same b b' lo hi = (d : ℕ) → lo ≤ d → d < hi → b' d ≡ b d

pub all_items-Same :
    (f g : ℕ → Bool) (step base n : ℕ)
    → ((i : ℕ) → base ≤ i → i + step ≤ base + n * step → g i ≡ f i)
    → all_items g step base n ≡ all_items f step base n
unfolding all_items
all_items-Same f g step base zero h = refl
all_items-Same f g step base (suc n) h =
    let e : suc n * step ≡ step + n * step = omega arith in
    let here : g base ≡ f base = h base (omega arith) (omega (arith, e)) in
    rw (
      here,
      all_items-Same f g step (base + step) n (λ i p q. h i (omega arith) (omega (arith, e))),
    )

scalar-Same :
    (k : Scalar) (b b' : Bytes) (base : ℕ)
    → Same b b' base (base + scalar_size k)
    → check_type (scalar k) b' base ≡ check_type (scalar k) b base
unfolding check_type
scalar-Same bool b b' base h = ap (λ (x : ℕ). leb x 1) (h base (omega arith) (omega arith))
scalar-Same u8 b b' base h = refl
scalar-Same i8 b b' base h = refl
scalar-Same u16 b b' base h = refl
scalar-Same i16 b b' base h = refl
scalar-Same u32 b b' base h = refl
scalar-Same i32 b b' base h = refl
scalar-Same f32 b b' base h = refl
scalar-Same u64 b b' base h = refl
scalar-Same i64 b b' base h = refl
scalar-Same f64 b b' base h = refl

-- The checks read the bytes of the type alone.
mutual
  unfolding check_type size_of

  pub check_type-Same :
      (t : FixedType) (b b' : Bytes) (base : ℕ)
      → IsPlaced t
      → Same b b' base (base + size_of t)
      → check_type t b' base ≡ check_type t b base
  check_type-Same (scalar k) b b' base p h = scalar-Same k b b' base h
  check_type-Same (ref fixed_size fields) b b' base p h =
      check_fixed-Same fields b b' base 0 fixed_size p (λ d q. h d (omega arith))
  check_type-Same (array len elem) b b' base p h =
      all_items-Same (λ i. check_type elem b i) (λ i. check_type elem b' i) (size_of elem) base len
        (λ i q q'. check_type-Same elem b b' i p (λ d r r'. h d (omega arith) (omega arith)))

  pub check_fixed-Same :
      (fs : Fields) (b b' : Bytes) (base off end : ℕ)
      → Placed off fs end
      → Same b b' (base + off) (base + end)
      → check_fixed fs b' base ≡ check_fixed fs b base
  check_fixed-Same no_more b b' base off end p h = refl
  check_fixed-Same (fixed name type_of offset rest) b b' base off end p h =
      let le = Placed-le (offset + size_of type_of) rest end p.2 in
      rw (
        check_type-Same type_of b b' (base + offset) p.1
            (λ d q q'. h d (omega (arith, p.0)) (omega (arith, le))),
        check_fixed-Same rest b b' base (offset + size_of type_of) end p.2
            (λ d q q'. h d (omega (arith, p.0)) q'),
      )
  check_fixed-Same (variable name is_string rest) b b' base off end p h =
      check_fixed-Same rest b b' base off end p h
