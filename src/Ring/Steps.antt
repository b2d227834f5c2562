-- ===== src/Ring/Steps.antt =====
-- The single stores of producers and of the reader's recovery, each as a change of one record.
use go_ipc.Prelude.{
  ℕ, ◌+◌, ◌-◌, ◌%◌, ◌^◌, ◌≤◌, ◌<◌, ◌≡◌, ◌≢◌, ◌⊎◌, inl, inr, Option, none, some, List, [], ◌∷◌, ◌++◌,
  refl, sym, ◌∙◌, ap, arith, length,
}
use go_ipc.Words.{i32_neg, i32_of}
use go_ipc.Memory.{Bytes, store32, slice}
use go_ipc.Memory.Laws.{tape, load32-zero, load32-Agree, slice-Agree, length-slice}
use go_ipc.Ring.{Ring, Slot, type_padding, store_type, release}
use go_ipc.Ring.Producer.{commit, abort, fill, write_padding, write_header}
use go_ipc.Ring.Bounds.{round8}
use go_ipc.Ring.Records.{Record, blank, claimed, message, padding, span, Chain-append, IsRing}
use go_ipc.Ring.Replace.{AgreeBut, Chain-at_end, at_end, Place, place, IsRing-replace}
use go_ipc.Ring.Stores.{store_length, StoredHeader, store_header, Copied, copy_payload}

module _ {r : Ring} {xs : List Record} (v : IsRing r xs) where
  open v use {large, whole, small, head_aligned, chain, room, cached, fits, clean}

  -- The invariant says nothing of the slots and the waiters.
  pub IsRing-slots : (ss : List Slot) → IsRing (record r { slots = ss }) xs
  IsRing-slots ss = record {
    large = large;
    whole = whole;
    small = small;
    head_aligned = head_aligned;
    chain = chain;
    room = room;
    cached = cached;
    fits = fits;
    clean = clean;
  }

  pub IsRing-cache : IsRing (record r { head_cache = r.head }) xs
  IsRing-cache = record {
    large = large;
    whole = whole;
    small = small;
    head_aligned = head_aligned;
    chain = chain;
    room = room;
    cached = omega arith;
    fits = fits;
    clean = clean;
  }

  -- The compare-and-swap takes `n` bytes, in which there is no header yet.
  pub IsRing-extend :
      (n : ℕ)
      → 8 ≤ n
      → n % 8 ≡ 0
      → n < 2 ^ 31
      → r.tail % r.capacity + n ≤ r.capacity
      → r.tail + n ≤ r.head + r.capacity
      → r.tail + n < 2 ^ 64
      → IsRing (record r { tail = r.tail + n }) (xs ++ blank n ∷ [])
  IsRing-extend n h8 hm hs inside fit nowrap = record {
    large = large;
    whole = whole;
    small = small;
    head_aligned = head_aligned;
    chain =
        Chain-append r.capacity (tape r.capacity r.bytes) r.head r.tail (r.tail + n) xs
          (blank n ∷ []) chain
          (
            (
              load32-zero (tape r.capacity r.bytes) r.tail
                  (λ k hk. clean (r.tail + k) (omega arith) (omega arith)),
              h8,
              hm,
              hs,
            ),
            inside,
            refl,
          );
    room = fit;
    cached = cached;
    fits = nowrap;
    clean = λ c h k. clean c (omega arith) k;
  }

  pub tail-at_end : at_end r.head xs ≡ r.tail
  tail-at_end = Chain-at_end r.capacity (tape r.capacity r.bytes) r.head r.tail xs chain

-- The index of the record behind `xs`.
abbrev pub index_after : Ring → List Record → ℕ
index_after r xs = at_end r.head xs % r.capacity

pub widen :
    (cap : ℕ) (w w' : Bytes) (lo c k n : ℕ)
    → k ≤ n
    → AgreeBut cap w w' lo c k
    → AgreeBut cap w w' lo c n
widen cap w w' lo c k n h but d p q (inl o) = but d p q (inl o)
widen cap w w' lo c k n h but d p q (inr o) = but d p q (inr (omega arith))

-- The header of the record `x` behind `xs` is written: type `t`, then length `len`.
header_stored :
    {r : Ring} (xs : List Record) (x : Record) (ys : List Record) (t len : ℕ)
    → IsRing r (xs ++ x ∷ ys)
    → 8 ≤ span x
    → t < 2 ^ 32
    → len < 2 ^ 32
    → let i = index_after r xs in
      StoredHeader r.capacity r.bytes r.head
        (at_end r.head xs)
        (store32 (store_type r.bytes i t) i len)
        t
        len
header_stored {r} xs x ys t len v h ht hl =
    let p = place xs x ys v in
    store_header r.capacity r.bytes r.head (at_end r.head xs) t len (omega (arith, v.large)) p.above
      ht hl (omega (arith, p.inside)) (omega (arith, p.below, v.room))

module _ {r : Ring} (xs ys : List Record) where
  -- The header of a claim is written over a range without one.
  pub write_header_lem :
      (n len typ : ℕ)
      → IsRing r (xs ++ blank n ∷ ys)
      → n ≡ round8 len
      → 8 ≤ len
      → len + 7 < 2 ^ 31
      → typ < 2 ^ 32
      → typ ≢ type_padding
      → IsRing
          (record r { bytes = write_header (index_after r xs) typ len r.bytes })
          (xs ++ claimed len typ ∷ ys)
  unfolding write_header
  write_header_lem n len typ v e h8 hl ht np =
      let s = header_stored xs (blank n) ys typ (i32_neg len) v (omega arith) ht (omega arith) in
      IsRing-replace xs ys (blank n) (claimed len typ) _ v (sym e)
        (widen _ _ _ _ _ 8 n (omega arith) s.but) (s.len, s.typ, h8, hl, np)

  -- The padding record of the wrap point covers the range up to it.
  pub write_padding_lem :
      (n : ℕ)
      → IsRing r (xs ++ blank n ∷ ys)
      → IsRing
          (record r { bytes = write_padding (index_after r xs) n r.bytes })
          (xs ++ padding n ∷ ys)
  unfolding write_padding
  write_padding_lem n v =
      let (z, h8, hm, hs) = (place xs (blank n) ys v).holds in
      let s =
        header_stored xs (blank n) ys type_padding (i32_of n) v h8 (omega arith) (omega arith) in
      IsRing-replace xs ys (blank n) (padding n) _ v (omega arith) (widen _ _ _ _ _ 8 n h8 s.but)
        (s.len ∙ omega arith, s.typ, h8, omega arith)

-- The payload that lies behind the header of a claim of `len` bytes.
abbrev pub payload_at : Ring → List Record → ℕ → List ℕ
payload_at r xs len = slice (tape r.capacity r.bytes) (at_end r.head xs + 8) (len - 8)

pub IsRing-release :
    (slot : Option ℕ) {r : Ring} {xs : List Record} → IsRing r xs → IsRing (release slot r) xs
unfolding release
IsRing-release none v = v
IsRing-release (some i) v = IsRing-slots v _

module _ {r : Ring} (xs ys : List Record) (len typ : ℕ)
    (v : IsRing r (xs ++ claimed len typ ∷ ys)) where
  at : Place r xs (claimed len typ) ys
  at = place xs (claimed len typ) ys v

  c : ℕ
  c = at_end r.head xs

  -- `Commit`: the claimed record is a message, of the bytes that lie in it.
  pub commit_lem :
      (slot : Option ℕ)
      → IsRing
          (commit (record { index = index_after r xs; total = len; slot = slot }) r)
          (xs ++ message typ (payload_at r xs len) ∷ ys)
  unfolding commit at c
  commit_lem slot =
      let (l, t, h8, hl, np) = at.holds in
      let s =
        store_length r.capacity r.bytes r.head c (omega (arith, v.large)) at.above len (omega arith)
          (omega (arith, at.inside)) (omega (arith, at.below, v.room)) in
      let w = tape r.capacity r.bytes in
      let w' = tape r.capacity (store32 r.bytes (index_after r xs) len) in
      let n : length (payload_at r xs len) ≡ len - 8 = length-slice (len - 8) w (c + 8) in
      let later = λ (d : ℕ) (p : c + 4 ≤ d) (q : d < c + round8 len).
        s.but d (omega (arith, at.above)) (omega (arith, at.below, v.room)) (inr p) in
      IsRing-release slot (
        IsRing-replace xs ys (claimed len typ) (message typ (payload_at r xs len)) _ v
          (omega (arith, n)) (widen _ _ _ _ _ 4 (round8 len) (omega arith) s.but)
          (
            s.len ∙ omega (arith, n),
            load32-Agree w w' (c + 4) (c + 8) (c + 4) (λ d p q. later d p (omega arith))
                  (omega arith) (omega arith)
                ∙ t,
            slice-Agree (length (payload_at r xs len)) w w' (c + 8) (c + 8)
                  (λ k hk. later (c + 8 + k) (omega arith) (omega (arith, n)))
                ∙ ap (slice w (c + 8)) n,
            omega (arith, n),
            np,
          ))

  -- `Abort`: the claimed record is padding.
  pub abort_lem :
      (slot : Option ℕ)
      → IsRing
          (abort (record { index = index_after r xs; total = len; slot = slot }) r)
          (xs ++ padding len ∷ ys)
  unfolding abort at
  abort_lem slot =
      let (l, t, h8, hl, np) = at.holds in
      let s =
        header_stored xs (claimed len typ) ys type_padding len v (omega arith) (omega arith)
          (omega arith) in
      IsRing-release slot (
        IsRing-replace xs ys (claimed len typ) (padding len) _ v refl
          (widen _ _ _ _ _ 8 (round8 len) (omega arith) s.but) (s.len, s.typ, h8, hl))

  module _ (slot : Option ℕ) (p : List ℕ) (e : len ≡ 8 + length p) where
    copied :
        Copied r.capacity r.bytes r.head
          (at_end r.head xs)
          (fill (record { index = index_after r xs; total = len; slot = slot }) p r).bytes
          p
    unfolding fill at
    copied =
        copy_payload r.capacity r.bytes r.head (at_end r.head xs) p (omega (arith, v.large))
          at.above (omega (arith, at.inside)) (omega (arith, at.below, v.room))

    -- The producer's writes to `Bytes` leave the claim as it is.
    pub fill_lem :
        IsRing
          (fill (record { index = index_after r xs; total = len; slot = slot }) p r)
          (xs ++ claimed len typ ∷ ys)
    unfolding fill at
    fill_lem =
        let (l, t, h8, hl, np) = at.holds in
        let w = tape r.capacity r.bytes in
        let head_kept = λ (d : ℕ) (q : at_end r.head xs ≤ d) (q' : d < at_end r.head xs + 8).
          copied.but d (omega (arith, at.above)) (omega (arith, at.below, v.room)) (inl q') in
        IsRing-replace xs ys (claimed len typ) (claimed len typ) _ v refl
          (λ d q q' o. copied.but d q q' (apart d o))
          (
            load32-Agree w _ (at_end r.head xs) (at_end r.head xs + 8) (at_end r.head xs) head_kept
                  (omega arith) (omega arith)
                ∙ l,
            load32-Agree w _ (at_end r.head xs) (at_end r.head xs + 8) (at_end r.head xs + 4)
                  head_kept (omega arith) (omega arith)
                ∙ t,
            h8,
            hl,
            np,
          )
      where
        apart :
            (d : ℕ)
            → (d < at_end r.head xs) ⊎ (at_end r.head xs + round8 len ≤ d)
            → (d < at_end r.head xs + 8) ⊎ (at_end r.head xs + 8 + length p ≤ d)
        apart d (inl o) = inl (omega arith)
        apart d (inr o) = inr (omega arith)

    -- They are what a commit publishes.
    pub payload-fill :
        payload_at (fill (record { index = index_after r xs; total = len; slot = slot }) p r) xs len
        ≡ p
    unfolding fill
    payload-fill =
        ap
          (slice
            (tape r.capacity
              (fill (record { index = index_after r xs; total = len; slot = slot }) p r).bytes)
            (at_end r.head xs + 8))
          (let e' : len - 8 ≡ length p = omega arith in e')
        ∙ copied.payload
