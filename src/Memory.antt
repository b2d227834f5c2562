-- ===== src/Memory.antt =====
-- The data region of ring.go as a byte at every index: `loadLength`, `loadType`, their stores, and
-- Go's `copy` and `clear`. An int32 or a uint32 lies in four bytes, lowest first.
pub mod Laws
use go_ipc.Prelude.{
  ℕ, zero, suc, ◌+◌, ◌-◌, ◌*◌, ◌/◌, ◌%◌, ◌^◌, Bool, ◌&&◌, List, [], ◌∷◌, ltb, leb, if◌then◌else◌,
  length, get_or,
}

abbrev pub Bytes : Type 0
Bytes = ℕ → ℕ

-- `m` with the `n` bytes from index `i` on replaced by `f 0`, `f 1`, ….
unfoldable pub overlay : Bytes → ℕ → ℕ → (ℕ → ℕ) → Bytes
overlay m i n f j = if leb i j && ltb j (i + n) then f (j - i) else m j

abbrev pub byte_of : ℕ → ℕ → ℕ
byte_of v zero = v % 256
byte_of v (suc zero) = v / 256 % 256
byte_of v (suc (suc zero)) = v / 65536 % 256
byte_of v (suc (suc (suc k))) = v / 16777216 % 256

unfoldable pub load32 : Bytes → ℕ → ℕ
load32 m i = m i + 256 * m (i + 1) + 65536 * m (i + 2) + 16777216 * m (i + 3)

unfoldable pub store32 : Bytes → ℕ → ℕ → Bytes
unfolding overlay
store32 m i v = overlay m i 4 (byte_of v)

-- `copy(data[i:], p)`.
unfoldable pub copy_bytes : Bytes → ℕ → List ℕ → Bytes
unfolding overlay
copy_bytes m i p = overlay m i (length p) (λ k. get_or p k 0)

-- `clear(data[i:i+n])`.
unfoldable pub clear_bytes : Bytes → ℕ → ℕ → Bytes
unfolding overlay
clear_bytes m i n = overlay m i n (λ _. 0)

-- The slice `data[i:i+n]`.
unfoldable pub slice : Bytes → ℕ → ℕ → List ℕ
slice m i zero = []
slice m i (suc n) = m i ∷ slice m (i + 1) n
