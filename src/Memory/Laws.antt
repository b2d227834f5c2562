-- ===== src/Memory/Laws.antt =====
-- What a load sees after a store, and the data region as a tape addressed by cursors.
use go_ipc.Prelude.{
  ℕ, zero, suc, ◌+◌, ◌-◌, ◌%◌, ◌^◌, ◌≤◌, ◌<◌, ◌≡◌, ◌≢◌, refl, ap, ◌∙◌, sym, ◌⊎◌, inl, inr, List, [],
  ◌∷◌, arith, length, get_or,
}
use go_ipc.Memory.{Bytes, byte_of, overlay, load32, store32, copy_bytes, slice}
use mathlib.Core.Path.{ap₂}
use native.Mathlib.Nat.{add-zero, mod-eq_of_lt, mod-eq-sub-mod, mod-lt, mod-add-mod}
use native.Mathlib.Decide.{dec_lt}

-- The bytes that a cursor addresses: cursor `c` stands for index `c % cap`.
abbrev pub tape : ℕ → Bytes → Bytes
tape cap m c = m (c % cap)

-- Two memories agree on `[lo, hi)`.
abbrev pub Agree : Bytes → Bytes → ℕ → ℕ → Type 0
Agree m m' lo hi = (c : ℕ) → lo ≤ c → c < hi → m' c ≡ m c

pub overlay-in : (m : Bytes) (i n : ℕ) (f : ℕ → ℕ) (k : ℕ) → k < n → overlay m i n f (i + k) ≡ f k
unfolding overlay
overlay-in m i n f k h = let e : i + k - i ≡ k = omega arith in ground (arith, ap f e)

pub overlay-at :
    (m : Bytes) (i n : ℕ) (f : ℕ → ℕ) (j : ℕ) → i ≤ j → j < i + n → overlay m i n f j ≡ f (j - i)
unfolding overlay
overlay-at m i n f j h h' = ground arith

pub byte_of-zero : (k : ℕ) → byte_of 0 k ≡ 0
byte_of-zero zero = refl
byte_of-zero (suc zero) = refl
byte_of-zero (suc (suc zero)) = refl
byte_of-zero (suc (suc (suc k))) = refl

pub overlay-out :
    (m : Bytes) (i n : ℕ) (f : ℕ → ℕ) (j : ℕ) → (j < i) ⊎ (i + n ≤ j) → overlay m i n f j ≡ m j
unfolding overlay
overlay-out m i n f j h = ground arith

pub mod-within : (cap c k : ℕ) → c % cap + k < cap → (c + k) % cap ≡ c % cap + k
mod-within cap c k h = sym (mod-add-mod c cap k) ∙ mod-eq_of_lt h

-- Fewer than `cap` steps on from a place below `cap`, modulo `cap`, is another place.
shift-ne : (cap r d : ℕ) → r < cap → 0 < d → d < cap → (r + d) % cap ≢ r
shift-ne cap r d hr h0 hd = elim (dec_lt (r + d) cap) [
  | yes p ↦ omega (arith, mod-eq_of_lt p)
  | no p ↦ omega (
    arith,
    mod-eq-sub-mod {n = r + d} {m = cap} (omega arith),
    mod-eq_of_lt {n = r + d - cap} {m = cap} (omega arith),
  )
]

-- Two cursors less than a lap apart stand for different indexes.
pub mod-ne : (cap a b : ℕ) → 0 < cap → a < b → b < a + cap → a % cap ≢ b % cap
mod-ne cap a b hc h h' e =
    shift-ne cap (a % cap) (b - a) (mod-lt a hc) (omega arith) (omega arith)
      (mod-add-mod a cap (b - a) ∙ ap (λ k. k % cap) (omega arith) ∙ sym e)

module _ (cap : ℕ) (m : Bytes) (lo t n : ℕ) (f : ℕ → ℕ) (pos : 0 < cap) (inside : t % cap + n ≤ cap)
    (above : lo ≤ t) (below : t + n ≤ lo + cap) where
  -- A cursor of the window outside `[t, t + n)` has its index outside the bytes written.
  outside :
      (c : ℕ)
      → lo ≤ c
      → c < lo + cap
      → (c < t) ⊎ (t + n ≤ c)
      → (c % cap < t % cap) ⊎ (t % cap + n ≤ c % cap)
  outside c h h' o = elim (dec_lt (c % cap) (t % cap)) [
    | yes p ↦ inl p
    | no p ↦ elim (dec_lt (c % cap) (t % cap + n)) [
      | no q ↦ inr (omega arith)
      | yes q ↦ absurd (clash o (omega arith) (same p q))
    ]
  ]
    where
      k : ℕ
      k = c % cap - t % cap

      same : ¬ (c % cap < t % cap) → c % cap < t % cap + n → (t + k) % cap ≡ c % cap
      same p q = mod-within cap t k (omega arith) ∙ omega arith

      clash : (c < t) ⊎ (t + n ≤ c) → k < n → (t + k) % cap ≡ c % cap → ⊥
      clash (inl b) q e = mod-ne cap c (t + k) pos (omega arith) (omega arith) (sym e)
      clash (inr b) q e = mod-ne cap (t + k) c pos (omega arith) (omega arith) e

  -- A write that does not cross the end of the data region is one on the tape, within a lap.
  pub tape-overlay :
      (c : ℕ)
      → lo ≤ c
      → c < lo + cap
      → overlay m (t % cap) n f (c % cap) ≡ overlay (tape cap m) t n f c
  tape-overlay c h h' = elim (dec_lt c t) [
    | yes p ↦ out (inl p)
    | no p ↦ elim (dec_lt c (t + n)) [ no q ↦ out (inr (omega arith)) | yes q ↦ into p q ]
  ]
    where
      out : (c < t) ⊎ (t + n ≤ c) → overlay m (t % cap) n f (c % cap) ≡ overlay (tape cap m) t n f c
      out o =
          overlay-out m (t % cap) n f (c % cap) (outside c h h' o)
          ∙ sym (overlay-out (tape cap m) t n f c o)

      into :
          ¬ (c < t) → c < t + n → overlay m (t % cap) n f (c % cap) ≡ overlay (tape cap m) t n f c
      into p q =
          let k = c - t in
          let kn : k < n = omega arith in
          let e : c ≡ t + k = omega arith in
          rw (e, mod-within cap t k (omega arith))
            (overlay-in m (t % cap) n f k kn ∙ sym (overlay-in (tape cap m) t n f k kn))

-- Loads and slices that do not cross the end of the data region read the tape.
pub tape-load32 :
    (cap : ℕ) (m : Bytes) (c : ℕ) → c % cap + 4 ≤ cap → load32 m (c % cap) ≡ load32 (tape cap m) c
unfolding load32
tape-load32 cap m c h = rw (
  mod-within cap c 1 (omega arith),
  mod-within cap c 2 (omega arith),
  mod-within cap c 3 (omega arith),
)

pub slice-Agree :
    (n : ℕ) (m m' : Bytes) (i j : ℕ)
    → ((k : ℕ) → k < n → m' (j + k) ≡ m (i + k))
    → slice m' j n ≡ slice m i n
unfolding slice
slice-Agree zero m m' i j h = refl
slice-Agree (suc n) m m' i j h = ap₂ ◌∷◌ first (slice-Agree n m m' (i + 1) (j + 1) later)
  where
    first : m' j ≡ m i
    first = simp add-zero at (h 0 (omega arith))

    later : (k : ℕ) → k < n → m' (j + 1 + k) ≡ m (i + 1 + k)
    later k hk =
        let e : j + 1 + k ≡ j + (k + 1) = omega arith in
        let e' : i + 1 + k ≡ i + (k + 1) = omega arith in rw (e, e') (h (k + 1) (omega arith))

-- A slice whose bytes are those of `p` is `p`.
pub slice-of :
    (p : List ℕ) (m : Bytes) (i : ℕ)
    → ((k : ℕ) → k < length p → m (i + k) ≡ get_or p k 0)
    → slice m i (length p) ≡ p
unfolding slice
slice-of [] m i h = refl
slice-of (x ∷ xs) m i h = ap₂ ◌∷◌ first (slice-of xs m (i + 1) later)
  where
    first : m i ≡ x
    first = simp add-zero at (h 0 (omega arith))

    later : (k : ℕ) → k < length xs → m (i + 1 + k) ≡ get_or xs k 0
    later k hk = let e : i + 1 + k ≡ i + suc k = omega arith in rw e (h (suc k) (omega arith))

pub tape-slice :
    (cap : ℕ) (m : Bytes) (c k n : ℕ)
    → c % cap + k + n ≤ cap
    → slice m (c % cap + k) n ≡ slice (tape cap m) (c + k) n
tape-slice cap m c k n h = slice-Agree n (tape cap m) m (c + k) (c % cap + k) λ j hj.
    let e : c + k + j ≡ c + (k + j) = omega arith in
    let e' : c % cap + k + j ≡ c % cap + (k + j) = omega arith in
    rw (e, e', mod-within cap c (k + j) (omega arith))

pub load32-Agree :
    (m m' : Bytes) (lo hi c : ℕ) → Agree m m' lo hi → lo ≤ c → c + 4 ≤ hi → load32 m' c ≡ load32 m c
unfolding load32
load32-Agree m m' lo hi c a h h' = rw (
  a c h (omega arith),
  a (c + 1) (omega arith) (omega arith),
  a (c + 2) (omega arith) (omega arith),
  a (c + 3) (omega arith) (omega arith),
)

pub load32-store32 : (m : Bytes) (i v : ℕ) → v < 2 ^ 32 → load32 (store32 m i v) i ≡ v
unfolding load32 store32
load32-store32 m i v h = ground arith

pub load32-zero : (m : Bytes) (i : ℕ) → ((k : ℕ) → k < 4 → m (i + k) ≡ 0) → load32 m i ≡ 0
unfolding load32
load32-zero m i h = omega (
  arith,
  h 0 (omega arith),
  h 1 (omega arith),
  h 2 (omega arith),
  h 3 (omega arith),
  ap m (add-zero i),
)

pub slice-copy : (p : List ℕ) (m : Bytes) (i : ℕ) → slice (copy_bytes m i p) i (length p) ≡ p
unfolding copy_bytes
slice-copy p m i = slice-of p _ i (λ k h. overlay-in m i (length p) (λ j. get_or p j 0) k h)

pub length-slice : (n : ℕ) (m : Bytes) (i : ℕ) → length (slice m i n) ≡ n
unfolding slice
length-slice zero m i = refl
length-slice (suc n) m i = ap suc (length-slice n m (i + 1))
