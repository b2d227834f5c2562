-- ===== src/Ring/Stores.antt =====
-- What the stores of a length and of a header do to the tape.
use go_ipc.Prelude.{
  ℕ, ◌+◌, ◌%◌, ◌^◌, ◌≤◌, ◌<◌, ◌≡◌, inl, inr, List, [], ◌∷◌, get_or, refl, ◌∙◌, subst, arith, length,
}
use go_ipc.Memory.{Bytes, load32, store32, copy_bytes, overlay, byte_of, slice}
use go_ipc.Memory.Laws.{
  tape, overlay-out, tape-overlay, mod-within, load32-Agree, load32-store32, slice-Agree,
  slice-copy,
}
use go_ipc.Ring.{store_type}
use go_ipc.Ring.Replace.{AgreeBut}

-- `storeLength` at the index of cursor `c`, in the lap from `lo` on.
pub record StoredLength (cap : ℕ) (m : Bytes) (lo c : ℕ) (m' : Bytes) (v : ℕ) : Type 0 where
  pub but : AgreeBut cap (tape cap m) (tape cap m') lo c 4
  pub len : load32 (tape cap m') c ≡ v

module _ (cap : ℕ) (m : Bytes) (lo c : ℕ) (pos : 0 < cap) (above : lo ≤ c) where
  pub store_length :
      (v : ℕ)
      → v < 2 ^ 32
      → c % cap + 4 ≤ cap
      → c + 4 ≤ lo + cap
      → StoredLength cap m lo c (store32 m (c % cap) v) v
  unfolding store32
  store_length v hv inside below = record {
    but = λ d h k o. on_tape d h k ∙ overlay-out (tape cap m) c 4 (byte_of v) d o;
    len =
        load32-Agree (store32 (tape cap m) c v) _ c (c + 4) c
          (λ d h k. on_tape d (omega arith) (omega arith)) (omega arith) (omega arith)
        ∙ load32-store32 (tape cap m) c v hv;
  }
    where
      on_tape :
          (d : ℕ)
          → lo ≤ d
          → d < lo + cap
          → overlay m (c % cap) 4 (byte_of v) (d % cap) ≡ overlay (tape cap m) c 4 (byte_of v) d
      on_tape = tape-overlay cap m lo c 4 (byte_of v) pos inside above below

-- `storeType`, then `storeLength`.
pub record StoredHeader (cap : ℕ) (m : Bytes) (lo c : ℕ) (m' : Bytes) (t v : ℕ) : Type 0 where
  pub but : AgreeBut cap (tape cap m) (tape cap m') lo c 8
  pub len : load32 (tape cap m') c ≡ v
  pub typ : load32 (tape cap m') (c + 4) ≡ t

pub store_header :
    (cap : ℕ) (m : Bytes) (lo c t v : ℕ)
    → 0 < cap
    → lo ≤ c
    → t < 2 ^ 32
    → v < 2 ^ 32
    → c % cap + 8 ≤ cap
    → c + 8 ≤ lo + cap
    → StoredHeader cap m lo c (store32 (store_type m (c % cap) t) (c % cap) v) t v
store_header cap m lo c t v pos above ht hv inside below = record {
  but = but;
  len = second.len;
  typ =
      load32-Agree (tape cap m1) (tape cap m2) (c + 4) (c + 8) (c + 4)
        (λ d h k. second.but d (omega arith) (omega arith) (inr h)) (omega arith) (omega arith)
      ∙ first.len;
}
  where
    m1 : Bytes
    m1 = store_type m (c % cap) t

    m2 : Bytes
    m2 = store32 m1 (c % cap) v

    at : (c + 4) % cap ≡ c % cap + 4
    at = mod-within cap c 4 (omega arith)

    first : StoredLength cap m lo (c + 4) m1 t
    first =
        subst (λ (i : ℕ). StoredLength cap m lo (c + 4) (store32 m i t) t) at
          (store_length cap m lo (c + 4) pos (omega arith) t ht (omega (arith, at)) (omega arith))

    second : StoredLength cap m1 lo c m2 v
    second = store_length cap m1 lo c pos above v hv (omega arith) (omega arith)

    but : AgreeBut cap (tape cap m) (tape cap m2) lo c 8
    but d h k (inl o) = second.but d h k (inl o) ∙ first.but d h k (inl (omega arith))
    but d h k (inr o) = second.but d h k (inr (omega arith)) ∙ first.but d h k (inr (omega arith))

-- The compare-and-swap of a length, then `storeType`: the order of `reclaim`.
pub store_header_after :
    (cap : ℕ) (m : Bytes) (lo c t v : ℕ)
    → 0 < cap
    → lo ≤ c
    → t < 2 ^ 32
    → v < 2 ^ 32
    → c % cap + 8 ≤ cap
    → c + 8 ≤ lo + cap
    → StoredHeader cap m lo c (store_type (store32 m (c % cap) v) (c % cap) t) t v
store_header_after cap m lo c t v pos above ht hv inside below = record {
  but = but;
  len =
      load32-Agree (tape cap m1) (tape cap m2) c (c + 4) c
        (λ d h k. second.but d (omega arith) (omega arith) (inl k)) (omega arith) (omega arith)
      ∙ first.len;
  typ = second.len;
}
  where
    m1 : Bytes
    m1 = store32 m (c % cap) v

    m2 : Bytes
    m2 = store_type m1 (c % cap) t

    at : (c + 4) % cap ≡ c % cap + 4
    at = mod-within cap c 4 (omega arith)

    first : StoredLength cap m lo c m1 v
    first = store_length cap m lo c pos above v hv (omega arith) (omega arith)

    second : StoredLength cap m1 lo (c + 4) m2 t
    second =
        subst (λ (i : ℕ). StoredLength cap m1 lo (c + 4) (store32 m1 i t) t) at
          (store_length cap m1 lo (c + 4) pos (omega arith) t ht (omega (arith, at)) (omega arith))

    but : AgreeBut cap (tape cap m) (tape cap m2) lo c 8
    but d h k (inl o) = second.but d h k (inl (omega arith)) ∙ first.but d h k (inl o)
    but d h k (inr o) = second.but d h k (inr (omega arith)) ∙ first.but d h k (inr (omega arith))

-- `copy` of a payload behind the header at cursor `c`.
pub record Copied (cap : ℕ) (m : Bytes) (lo c : ℕ) (m' : Bytes) (p : List ℕ) : Type 0 where
  pub but : AgreeBut cap (tape cap m) (tape cap m') lo (c + 8) (length p)
  pub payload : slice (tape cap m') (c + 8) (length p) ≡ p

pub copy_payload :
    (cap : ℕ) (m : Bytes) (lo c : ℕ) (p : List ℕ)
    → 0 < cap
    → lo ≤ c
    → c % cap + 8 + length p ≤ cap
    → c + 8 + length p ≤ lo + cap
    → Copied cap m lo c (copy_bytes m (c % cap + 8) p) p
unfolding copy_bytes slice
copy_payload cap m lo c [] pos above inside below = record {
  but = λ d h k o. unfold overlay in ground arith;
  payload = refl;
}
copy_payload cap m lo c (x ∷ xs) pos above inside below = record {
  but = λ d h k o. on_tape d h k ∙ overlay-out (tape cap m) (c + 8) n f d o;
  payload =
      slice-Agree n (copy_bytes (tape cap m) (c + 8) (x ∷ xs))
        (tape cap (copy_bytes m (c % cap + 8) (x ∷ xs))) (c + 8) (c + 8)
        (λ k hk. on_tape (c + 8 + k) (omega arith) (omega arith))
      ∙ slice-copy (x ∷ xs) (tape cap m) (c + 8);
}
  where
    n : ℕ
    n = length (x ∷ xs)

    f : ℕ → ℕ
    f k = get_or (x ∷ xs) k 0

    at : (c + 8) % cap ≡ c % cap + 8
    at = mod-within cap c 8 (omega arith)

    on_tape :
        (d : ℕ)
        → lo ≤ d
        → d < lo + cap
        → overlay m (c % cap + 8) n f (d % cap) ≡ overlay (tape cap m) (c + 8) n f d
    on_tape d h k =
        subst (λ (i : ℕ). overlay m i n f (d % cap) ≡ overlay (tape cap m) (c + 8) n f d) at
          (tape-overlay cap m lo (c + 8) n f pos (omega (arith, at)) (omega arith) (omega arith) d h
            k)
