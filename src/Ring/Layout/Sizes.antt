-- ===== src/Ring/Layout/Sizes.antt =====
-- `initRing` and `AttachRing`: the capacity they choose and accept, and the ring they give.
use go_ipc.Prelude.{
  ℕ, zero, suc, ◌+◌, ◌-◌, ◌*◌, ◌/◌, ◌%◌, ◌^◌, bit_and, ◌≤◌, ◌<◌, ◌≡◌, Bool, Bool-cases, ◌&&◌, inl,
  inr, true, false, [], refl, sym, ◌∙◌, ap, arith, ltb, ◌==◌,
}
use native.Mathlib.Nat.{pow-suc, pow-succ', pow-le-pow_right}
use native.Mathlib.Decide.{dec_lt, dec_le}
use go_ipc.Words.{u64_add}
use go_ipc.Errors.{ok}
use go_ipc.Ring.{ring_magic, ring_version, header_size, min_capacity, fresh_ring}
use go_ipc.Ring.Records.{IsRing}
use go_ipc.Ring.Layout.{Segment, bit_len, bit_len_loop, init_ring, attach_ring}

bit_len_loop-zero : (fuel : ℕ) → bit_len_loop fuel 0 ≡ 0
unfolding bit_len_loop
bit_len_loop-zero zero = refl
bit_len_loop-zero (suc fuel) = refl

two_step : (b : ℕ) → 2 ^ (b + 1) ≡ 2 * 2 ^ b
two_step b = let e : b + 1 ≡ suc b = omega arith in rw e (pow-succ' 2 b)

bit_len_loop-le : (fuel n : ℕ) → bit_len_loop fuel n ≤ fuel
unfolding bit_len_loop
bit_len_loop-le zero n = omega arith
bit_len_loop-le (suc fuel) n = ground (arith, bit_len_loop-le fuel (n / 2))

-- The number of digits that the loop counts, with fuel for all of them.
bit_len_loop_lem :
    (fuel n : ℕ)
    → n < 2 ^ fuel
    → (n < 2 ^ bit_len_loop fuel n) × (0 < n → 2 ^ bit_len_loop fuel n ≤ 2 * n)
unfolding bit_len_loop
bit_len_loop_lem zero n h = (omega arith, λ p. absurd (omega arith))
bit_len_loop_lem (suc fuel) n h = elim (Bool-cases (n == 0)) [
  | inl nothing ↦ rw nothing (ground arith, λ p. absurd (ground arith))
  | inr more ↦
      let (above, below) = bit_len_loop_lem fuel (n / 2) (omega (arith, pow-suc 2 fuel)) in
      let b = bit_len_loop fuel (n / 2) in
      let pos : 0 < n = ground arith in
      let e : 2 ^ (b + 1) ≡ 2 * 2 ^ b = two_step b in
      rw (more, e)
        (
          omega (arith, above),
          λ p. elim (dec_lt 0 (n / 2)) [
            | yes q ↦ omega (arith, below q)
            | no q ↦ let z : n / 2 ≡ 0 = omega arith in rw (z, bit_len_loop-zero fuel) (omega arith)
          ],
        )
]

module _ (p : ℕ → Bool) where
  all_below : ℕ → Bool
  all_below zero = true
  all_below (suc n) = p n && all_below n

  all_below_lem : (n : ℕ) → all_below n ≡ true → (k : ℕ) → k < n → p k ≡ true
  unfolding all_below
  all_below_lem zero h k l = absurd (omega arith)
  all_below_lem (suc n) h k l = elim (Bool-cases (p n)) [
    | inl yes_n ↦ elim (dec_lt k n) [
      | yes q ↦ all_below_lem n (ground (arith, h, yes_n)) k q
      | no q ↦ let e : k ≡ n = omega arith in rw e yes_n
    ]
    | inr no_n ↦ absurd (ground (arith, h, no_n))
  ]

-- A power of two has one bit.
one_bit : (k : ℕ) → k < 64 → (bit_and (2 ^ k) (2 ^ k - 1) == 0) ≡ true
unfolding all_below
one_bit = all_below_lem (λ k. bit_and (2 ^ k) (2 ^ k - 1) == 0) 64 refl

-- The capacity that `initRing` takes for a data region of `n` bytes: the largest power of two that
-- fits.
abbrev capacity_for : ℕ → ℕ
capacity_for n = 2 ^ (bit_len n - 1)

-- A number of `b` digits, and the power of two below it.
below_digits :
    (b n : ℕ)
    → 4096 ≤ n
    → b ≤ 64
    → n < 2 ^ b
    → 2 ^ b ≤ 2 * n
    → (2 ^ (b - 1) ≤ n) × (n < 2 * 2 ^ (b - 1)) × (12 ≤ b - 1) × (b - 1 < 64)
below_digits b n h small above below =
    let more : 12 < b = elim (dec_le b 12) [
      | yes q ↦ absurd (omega (arith, pow-le-pow_right {n = 2} (omega arith) q))
      | no q ↦ omega arith
    ] in
    let e : 2 ^ (b - 1 + 1) ≡ 2 * 2 ^ (b - 1) = two_step (b - 1) in
    let f : b - 1 + 1 ≡ b = omega (arith, more) in
    let g : 2 ^ b ≡ 2 * 2 ^ (b - 1) = ap (λ (c : ℕ). 2 ^ c) (sym f) ∙ e in
    (omega (arith, g), omega (arith, g), omega (arith, more), omega (arith, more))

-- The capacity is the largest power of two that fits in the data region.
capacity_for_lem :
    (n : ℕ)
    → 4096 ≤ n
    → n < 2 ^ 64
    → (capacity_for n ≤ n) × (n < 2 * capacity_for n) × (12 ≤ bit_len n - 1) × (bit_len n - 1 < 64)
unfolding bit_len
capacity_for_lem n h l =
    let (above, below) = bit_len_loop_lem 64 n l in
    below_digits (bit_len_loop 64 n) n h (bit_len_loop-le 64 n) above (below (omega arith))

-- A new ring holds nothing.
pub fresh_ring-IsRing :
    (capacity consumer : ℕ)
    → min_capacity ≤ capacity
    → capacity % 8 ≡ 0
    → capacity ≤ 2 ^ 62
    → IsRing (fresh_ring capacity consumer) []
fresh_ring-IsRing capacity consumer h m l = record {
  large = h;
  whole = m;
  small = l;
  head_aligned = refl;
  chain = refl;
  room = omega arith;
  cached = omega arith;
  fits = omega arith;
  clean = λ c p q. refl;
}

half_power : (k : ℕ) → 1 ≤ k → 2 ^ k ≡ 2 * 2 ^ (k - 1)
half_power k h = let e : k ≡ k - 1 + 1 = omega arith in ap (λ (j : ℕ). 2 ^ j) e ∙ two_step (k - 1)

mod-eight : (k : ℕ) → 12 ≤ k → 2 ^ k % 8 ≡ 0
mod-eight k h =
    let a = half_power k (omega arith) in
    let b = half_power (k - 1) (omega arith) in
    let c = half_power (k - 1 - 1) (omega arith) in omega (arith, a, b, c)

-- `initRing` makes of a buffer, if it is aligned, large enough and smaller than 2 ^ 62 bytes, a ring that
-- holds nothing and that `AttachRing` accepts. Its capacity fits the data region and is more than
-- half of it.
pub init_ring_lem :
    (seg : Segment) (consumer : ℕ)
    → header_size + min_capacity ≤ seg.size
    → seg.size < 2 ^ 62
    → seg.address % 8 ≡ 0
    → (made : Segment) × (init_ring seg consumer ≡ ok made)
      × (attach_ring made ≡ ok made.ring)
      × IsRing made.ring []
      × (made.ring.consumer ≡ consumer)
      × (header_size + made.ring.capacity ≤ seg.size)
      × (seg.size < header_size + 2 * made.ring.capacity)
unfolding init_ring attach_ring
init_ring_lem seg consumer large small aligned =
    let n = seg.size - header_size in
    let (fits, half, low, high) = capacity_for_lem n (omega arith) (omega arith) in
    let floor : min_capacity ≤ capacity_for n = pow-le-pow_right {n = 2} (omega arith) low in
    let a : ltb seg.size (header_size + min_capacity) ≡ false = ground arith in
    let b : (seg.address % 8 == 0) ≡ true = ground arith in
    let c = one_bit (bit_len n - 1) high in
    let d : ltb (capacity_for n) min_capacity ≡ false = ground arith in
    let e : ltb seg.size (u64_add header_size (capacity_for n)) ≡ false = ground arith in
    (
      record seg {
        magic = ring_magic;
        version = ring_version;
        ring = fresh_ring (capacity_for n) consumer;
      },
      rw (a, b) refl,
      rw (a, b, c, d, e) refl,
      fresh_ring-IsRing (capacity_for n) consumer (omega arith) (mod-eight (bit_len n - 1) low)
          (omega arith),
      refl,
      omega arith,
      omega arith,
    )
