-- ===== src/Ring/Reading/Total.antt =====
-- `Read` ends on any memory whatever, well formed or not.
use go_ipc.Prelude.{
  ℕ, zero, suc, ◌+◌, ◌-◌, ◌*◌, ◌^◌, ◌⊎◌, ◌/◌, ◌%◌, ◌≤◌, ◌<◌, ◌≡◌, ◌≢◌, none, List, [], ◌∷◌, ◌++◌,
  false, Bool-cases, inl, inr, refl, arith, ltb, ◌==◌,
}
use go_ipc.Words.{u64_add, u64_sub, i32_not_positive}
use go_ipc.Memory.{Bytes, load32, slice, store32, clear_bytes}
use go_ipc.Ring.{Ring, align, load_type}
use native.Mathlib.Nat.{mod-lt}
use go_ipc.Ring.Reader.{Msg, ReadEnd, stop, bad, panicked, exhausted, read_loop, finish_read, read}

-- A record that `Read` accepts takes eight bytes at least.
align-ge : (n : ℕ) → i32_not_positive n ≡ false → ltb n 8 ≡ false → 8 ≤ align n
unfolding align
align-ge n h h' = ground arith

-- A step is that of `align` without an overflow, or too large for what is available.
align-le : (n : ℕ) → i32_not_positive n ≡ false → (align n ≤ 2 ^ 31) ⊎ (align n ≡ 2 ^ 64 - 2 ^ 31)
unfolding align
align-le n h = ground arith

module _ (limit cap head available : ℕ) where
  read_loop-ne-exhausted :
      (fuel : ℕ) (m : Bytes) (k count : ℕ) (out : List Msg)
      → available < 8 * fuel + k
      → k ≤ available
      → read_loop limit cap head available fuel m k count out ≢ exhausted
  unfolding read_loop
  read_loop-ne-exhausted zero m k count out h h' = absurd (omega arith)
  read_loop-ne-exhausted (suc fuel) m k count out h h' =
      let i = u64_add head k % cap in
      let l = load32 m i in
      let n = align l in
      let m' = store32 (clear_bytes m (i + 4) (n - 4)) i 0 in
      ground (
        arith,
        align-ge l,
        read_loop-ne-exhausted fuel m' (k + n) count out,
        read_loop-ne-exhausted fuel m' (k + n) (count + 1)
            (out ++ ((load_type m i, slice m (i + 8) (l - 8)) ∷ [])),
      )

  read_loop-ne-panicked :
      (fuel : ℕ) (m : Bytes) (k count : ℕ) (out : List Msg)
      → 0 < cap
      → cap ≤ 2 ^ 62
      → available < 2 ^ 64 - 2 ^ 31
      → read_loop limit cap head available fuel m k count out ≢ panicked
  unfolding read_loop
  read_loop-ne-panicked zero m k count out pos small near = λ p. cc
  read_loop-ne-panicked (suc fuel) m k count out pos small near =
      let i = u64_add head k % cap in
      let l = load32 m i in
      let n = align l in
      let m' = store32 (clear_bytes m (i + 4) (n - 4)) i 0 in
      let below : i < cap = mod-lt (u64_add head k) pos in
      ground (
        arith,
        align-le l,
        below,
        read_loop-ne-panicked fuel m' (k + n) count out pos small near,
        read_loop-ne-panicked fuel m' (k + n) (count + 1)
            (out ++ ((load_type m i, slice m (i + 8) (l - 8)) ∷ [])) pos small near,
      )

finish_read-ne-none :
    (r : Ring) (e : ReadEnd) → e ≢ exhausted → e ≢ panicked → finish_read r e ≢ none
finish_read-ne-none r (stop m k out) h g = λ p. cc
finish_read-ne-none r (bad m out) h g = λ p. cc
finish_read-ne-none r panicked h g = absurd (g refl)
finish_read-ne-none r exhausted h g = absurd (h refl)

-- `Read` returns on every ring of at most 2 ^ 62 bytes whose cursors are less than 2 ^ 64 - 2 ^ 31 apart, whatever
-- its bytes are: the loop never runs out of fuel and never slices out of the data region.
pub read_total :
    (limit : ℕ) (r : Ring)
    → 0 < r.capacity
    → r.capacity ≤ 2 ^ 62
    → u64_sub r.tail r.head < 2 ^ 64 - 2 ^ 31
    → read limit r ≢ none
unfolding read
read_total limit r pos small near = elim (Bool-cases (limit == 0)) [
  | inl nothing ↦ rw nothing (λ p. cc)
  | inr more ↦
      let a = u64_sub r.tail r.head in
      rw more (
        finish_read-ne-none r _
          (read_loop-ne-exhausted limit r.capacity r.head a (a / 8 + 2) r.bytes 0 0 [] (omega arith)
            (omega arith))
          (read_loop-ne-panicked limit r.capacity r.head a (a / 8 + 2) r.bytes 0 0 [] pos small
            near))
]
