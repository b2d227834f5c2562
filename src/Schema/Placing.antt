-- ===== src/Schema/Placing.antt =====
-- `checker.layout` places every field as the layout promises.
use go_ipc.Prelude.{
  ℕ, ◌+◌, ◌-◌, ◌*◌, ◌%◌, ◌^◌, ◌≤◌, ◌<◌, ◌≡◌, inl, inr, false, Bool-cases, Option, none, some, List,
  [], ◌∷◌, All, refl, ap, subst, arith, ltb, if◌then◌else◌,
}
use go_ipc.Schema.{
  Scalar, bool, u8, i8, u16, i16, u32, i32, f32, u64, i64, f64, FieldType, scalar, string, bytes,
  array, ref, scalar_size, Table, Layout, Message, lookup, field_size, field_align, fixed_fields,
  max_fixed_size, round_up, place_fields, layout_message,
}
use go_ipc.Schema.Placement.{IsAlign, Placed, IsLayout}

round_up_lem :
    (n a : ℕ) → IsAlign a → (n ≤ round_up n a) × (round_up n a < n + a) × (round_up n a % a ≡ 0)
round_up_lem n a (inl e) = rw e (omega arith)
round_up_lem n a (inr (inl e)) = rw e (omega arith)
round_up_lem n a (inr (inr (inl e))) = rw e (omega arith)
round_up_lem n a (inr (inr (inr e))) = rw e (omega arith)

-- Only one multiple of the alignment lies that close behind `n`.
one_place :
    (n a o o' : ℕ)
    → IsAlign a
    → (n ≤ o) × (o < n + a) × (o % a ≡ 0)
    → (n ≤ o') × (o' < n + a) × (o' % a ≡ 0)
    → o ≡ o'
one_place n a o o' (inl e) h h' = omega arith
one_place n a o o' (inr (inl e)) h h' =
    let (p, q, z) = rw e at h in let (p', q', z') = rw e at h' in omega arith
one_place n a o o' (inr (inr (inl e))) h h' =
    let (p, q, z) = rw e at h in let (p', q', z') = rw e at h' in omega arith
one_place n a o o' (inr (inr (inr e))) h h' =
    let (p, q, z) = rw e at h in let (p', q', z') = rw e at h' in omega arith

scalar_size-IsAlign : (k : Scalar) → IsAlign (scalar_size k)
scalar_size-IsAlign bool = inl refl
scalar_size-IsAlign u8 = inl refl
scalar_size-IsAlign i8 = inl refl
scalar_size-IsAlign u16 = inr (inl refl)
scalar_size-IsAlign i16 = inr (inl refl)
scalar_size-IsAlign u32 = inr (inr (inl refl))
scalar_size-IsAlign i32 = inr (inr (inl refl))
scalar_size-IsAlign f32 = inr (inr (inl refl))
scalar_size-IsAlign u64 = inr (inr (inr refl))
scalar_size-IsAlign i64 = inr (inr (inr refl))
scalar_size-IsAlign f64 = inr (inr (inr refl))

-- The messages that a type contains are laid out already.
abbrev pub Known : Table → FieldType → Type 0
Known t (scalar k) = Unit
Known t string = Unit
Known t bytes = Unit
Known t (array len elem) = Known t elem
Known t (ref msg) = IsAlign (lookup msg t).align

field_align-IsAlign : (t : Table) (f : FieldType) → Known t f → IsAlign (field_align t f)
unfolding field_align
field_align-IsAlign t (scalar k) h = scalar_size-IsAlign k
field_align-IsAlign t string h = inl refl
field_align-IsAlign t bytes h = inl refl
field_align-IsAlign t (array len elem) h = field_align-IsAlign t elem h
field_align-IsAlign t (ref msg) h = h

-- What the loop over the fields may give.
abbrev pub Places : Table → ℕ → ℕ → List FieldType → Option (List ℕ × ℕ × ℕ) → Type 0
Places t off align fs none =
    (offs : List ℕ) (last : ℕ) → Placed t off fs offs last → max_fixed_size < last
Places t off align fs (some (offs, last, most)) =
    Placed t off fs offs last
    × (last ≤ max_fixed_size)
    × IsAlign most
    × (align ≤ most)
    × All (λ f. field_align t f ≤ most) fs

larger-IsAlign : (a b : ℕ) → IsAlign a → IsAlign b → IsAlign (if ltb a b then b else a)
larger-IsAlign a b h k = elim (Bool-cases (ltb a b)) [ inl e ↦ rw e k | inr e ↦ rw e h ]

larger-le : (a b : ℕ) → (a ≤ (if ltb a b then b else a)) × (b ≤ (if ltb a b then b else a))
larger-le a b = ground arith

module _ (t : Table) where
  Placed-le :
      (fs : List FieldType) (off : ℕ) (offs : List ℕ) (last : ℕ)
      → Placed t off fs offs last
      → off ≤ last
  Placed-le [] off [] last p = omega arith
  Placed-le [] off (o ∷ offs) last p = absurd p
  Placed-le (f ∷ fs) off [] last p = absurd p
  Placed-le (f ∷ fs) off (o ∷ offs) last p =
      omega (arith, p.0, Placed-le fs (o + field_size t f) offs last p.3)

  -- The first field alone ends too late.
  too_large :
      (f : FieldType) (fs : List FieldType) (off : ℕ) (start : ℕ)
      → IsAlign (field_align t f)
      → (off ≤ start) × (start < off + field_align t f) × (start % field_align t f ≡ 0)
      → max_fixed_size < start + field_size t f
      → (offs : List ℕ) (last : ℕ) → Placed t off (f ∷ fs) offs last
      → max_fixed_size < last
  too_large f fs off start a h large [] last p = absurd p
  too_large f fs off start a h large (o ∷ offs) last p =
      let e : o ≡ start = one_place off (field_align t f) o start a (p.0, p.1, p.2) h in
      omega (arith, Placed-le fs (o + field_size t f) offs last p.3)

  -- The fields behind the first end too late.
  one_more :
      (f : FieldType) (fs : List FieldType) (off : ℕ) (start : ℕ)
      → IsAlign (field_align t f)
      → (off ≤ start) × (start < off + field_align t f) × (start % field_align t f ≡ 0)
      → ((offs : List ℕ) (last : ℕ)
          → Placed t (start + field_size t f) fs offs last
          → max_fixed_size < last)
      → (offs : List ℕ) (last : ℕ) → Placed t off (f ∷ fs) offs last
      → max_fixed_size < last
  one_more f fs off start a h k [] last p = absurd p
  one_more f fs off start a h k (o ∷ offs) last p =
      let e : o ≡ start = one_place off (field_align t f) o start a (p.0, p.1, p.2) h in
      k offs last (subst (λ c. Placed t (c + field_size t f) fs offs last) e p.3)

  place_one :
      (f : FieldType) (fs : List FieldType) (off align start : ℕ) (o : Option (List ℕ × ℕ × ℕ))
      → IsAlign (field_align t f)
      → (off ≤ start) × (start < off + field_align t f) × (start % field_align t f ≡ 0)
      → Places t
          (start + field_size t f)
          (if ltb align (field_align t f) then field_align t f else align)
          fs
          o
      → Places t off align
          (f ∷ fs)
          (elim o [ none ↦ none | some (offs, last, most) ↦ some (start ∷ offs, last, most) ])
  place_one f fs off align start none a h k = one_more f fs off start a h k
  place_one f fs off align start (some (offs, last, most)) a h (p, b, m, le, all) =
      let (l1, l2) = larger-le align (field_align t f) in
      ((h.0, h.1, h.2, p), b, m, omega (arith, l1, le), (omega (arith, l2, le), all))

  place_fields_lem :
      (fs : List FieldType) (off align : ℕ)
      → off ≤ max_fixed_size
      → IsAlign align
      → All (Known t) fs
      → Places t off align fs (place_fields t fs off align)
  unfolding place_fields
  place_fields_lem [] off align b m h = (refl, b, m, omega arith, tt)
  place_fields_lem (f ∷ fs) off align b m h =
      let a = field_align t f in
      let ok = field_align-IsAlign t f h.0 in
      let start = round_up off a in
      let end = start + field_size t f in
      elim (Bool-cases (ltb max_fixed_size end)) [
        | inl large ↦
            rw large (too_large f fs off start ok (round_up_lem off a ok) (ground (arith, large)))
        | inr fits ↦ rw fits (
            place_one f fs off align start _ ok (round_up_lem off a ok) (
              place_fields_lem fs end (if ltb align a then a else align) (ground (arith, fits))
                (larger-IsAlign align a m ok) h.1))
      ]

  -- What `layout` may do with one message.
  abbrev pub Laid : Message → Option Layout → Type 0
  Laid m none =
      (offs : List ℕ) (last : ℕ)
      → Placed t 0 (fixed_fields m.fields) offs last
      → max_fixed_size < last
  Laid m (some l) = IsLayout t (fixed_fields m.fields) l

  lay :
      (m : Message) (o : Option (List ℕ × ℕ × ℕ))
      → Places t 0 1 (fixed_fields m.fields) o
      → Laid m (elim o [
        | none ↦ none
        | some (offs, last, most) ↦
            some (record { offsets = offs; fixed_size = round_up last most; align = most })
      ])
  lay m none h = h
  lay m (some (offs, last, most)) (p, b, a, le, all) =
      let (up, near, whole) = round_up_lem last most a in
      record {
        last = last;
        placed = p;
        covers = up;
        tight = near;
        aligned = whole;
        align_ok = a;
        widest = all;
        bounded = b;
      }

  -- If the layout of a message succeeds, its fixed fields lie in order, each at a multiple of its own
  -- alignment, none over another, with no more than the padding that the alignment asks for; the
  -- section ends at a multiple of the message's alignment, which no field's alignment exceeds. The
  -- messages that it contains are laid out already. It fails only if every such placing ends behind the
  -- largest size.
  pub layout_message_lem :
      (m : Message) → All (Known t) (fixed_fields m.fields) → Laid m (layout_message t m)
  unfolding layout_message
  layout_message_lem m h =
      lay m (place_fields t (fixed_fields m.fields) 0 1)
        (place_fields_lem (fixed_fields m.fields) 0 1 (omega arith) (inl refl) h)

-- The fixed section of such a message, a u64 and some bytes, is accepted and takes 2 ^ 31 bytes.
pub layout_message-overflow :
    (id k : ℕ)
    → 1 ≤ k
    → k ≤ 7
    → layout_message []
        (record { id = id; fields = scalar u64 ∷ array (2 ^ 31 - 8 - k) (scalar u8) ∷ [] })
      ≡ some (record { offsets = 0 ∷ 8 ∷ []; fixed_size = 2 ^ 31; align = 8 })
unfolding layout_message place_fields fixed_fields field_size field_align
layout_message-overflow id k lo hi =
    let n = 2 ^ 31 - 8 - k in
    let fits : ltb max_fixed_size (8 + n * 1) ≡ false = ground arith in
    let ends : round_up (8 + n * 1) 8 ≡ 2 ^ 31 = omega arith in
    let placed : place_fields [] (scalar u64 ∷ array n (scalar u8) ∷ []) 0 1
        ≡ some (0 ∷ 8 ∷ [], 8 + n * 1, 8) =
      ap
        (λ b.
          elim (if◌then◌else◌ {A = Option (List ℕ × ℕ × ℕ)} b none (some (8 ∷ [], 8 + n * 1, 8)))
            as (λ _. Option (List ℕ × ℕ × ℕ)) [
              | none ↦ none
              | some (offs, last, most) ↦ some (0 ∷ offs, last, most)
            ])
        fits in
    rw (placed, ends, layout_message) refl
