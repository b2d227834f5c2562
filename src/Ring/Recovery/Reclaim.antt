-- ===== src/Ring/Recovery/Reclaim.antt =====
-- What `stalled` and `reclaim` do to a ring whose first record is not committed.
use go_ipc.Prelude.{
  ℕ, ◌+◌, ◌-◌, ◌%◌, ◌^◌, ◌≤◌, ◌<◌, ◌≡◌, min, inl, inr, Bool-cases, Bool, true, false, List, [], ◌∷◌,
  refl, arith, ltb, ◌==◌, ==_iff, if◌then◌else◌,
}
use go_ipc.Words.{u64_add, u64_sub, i32_not_positive, i32_of}
use go_ipc.Memory.{Bytes, load32, store32}
use go_ipc.Memory.Laws.{tape, tape-load32}
use go_ipc.Ring.{Ring, type_padding, store_type}
use go_ipc.Ring.Records.{
  Record, blank, claimed, filled, message, padding, span, Holds, Holds-span, IsRing,
}
use go_ipc.Ring.Replace.{at_end, Place, place, IsRing-replace}
use go_ipc.Ring.Stores.{StoredHeader, store_header_after}
use go_ipc.Ring.Steps.{widen, IsRing-slots}
use go_ipc.Ring.Recovery.{Stall, reclaim, clear_intents}

-- A record that stops the reader: a range without a header, or a claim without a commit.
abbrev pub is_open : Record → Bool
is_open (blank size) = true
is_open (claimed len typ) = true
is_open (filled typ payload) = true
is_open (message typ payload) = false
is_open (padding len) = false

sign_of : (w : Bytes) (c : ℕ) (x : Record) → Holds w c x → i32_not_positive (load32 w c) ≡ is_open x
sign_of w c (blank size) h = rw h.0
sign_of w c (claimed len typ) h = rw h.0 (ground (arith, h.2, h.3))
sign_of w c (filled typ payload) h = rw h.0 (ground (arith, h.3))
sign_of w c (message typ payload) h = rw h.0 (ground (arith, h.3))
sign_of w c (padding len) h = rw h.0 (ground (arith, h.2, h.3))

span-lt : (w : Bytes) (c : ℕ) (x : Record) → Holds w c x → (span x + 7 < 2 ^ 31) × (span x % 8 ≡ 0)
span-lt w c (blank size) h = omega arith
span-lt w c (claimed len typ) h = omega arith
span-lt w c (filled typ payload) h = omega arith
span-lt w c (message typ payload) h = omega arith
span-lt w c (padding len) h = omega arith

module _ {r : Ring} (x : Record) (ys : List Record) (v : IsRing r (x ∷ ys)) where
  spot : Place r [] x ys
  spot = place [] x ys v

  h8 : 8 ≤ span x
  h8 = (Holds-span (tape r.capacity r.bytes) r.head x v.chain.0).0

  pub len_at : load32 r.bytes (r.head % r.capacity) ≡ load32 (tape r.capacity r.bytes) r.head
  len_at = tape-load32 r.capacity r.bytes r.head (omega (arith, h8, v.chain.1))

  pub sign : i32_not_positive (load32 r.bytes (r.head % r.capacity)) ≡ is_open x
  sign = rw len_at (sign_of (tape r.capacity r.bytes) r.head x v.chain.0)

  -- `reclaim` up to `end`, the end of the claim, turns the record at `head` into padding. A claim that
  -- crossed the wrap point goes on behind it: only the part up to there is taken.
  pub reclaim_lem :
      (end : ℕ) (found ss : List ℕ)
      → r.head ≤ end
      → end < 2 ^ 64
      → min (end - r.head) (r.capacity - r.head % r.capacity) ≡ span x
      → let st : Stall = record {
        at = r.head;
        length = load32 r.bytes (r.head % r.capacity);
        slots = ss;
      } in
        (reclaim st end found r).1 ≡ true
        × IsRing (reclaim st end found r).0 (padding (span x) ∷ ys)
  unfolding reclaim at_end
  reclaim_lem end found ss le fits cut =
      rw (whole_size, in_range, same)
        (elim (Bool-cases (u64_add r.head (span x) == end)) [
          | inl last ↦ rw last (refl, IsRing-slots padded (clear_intents found r.slots))
          | inr more ↦ rw more (refl, padded)
        ])
    where
      first : ℕ
      first = load32 r.bytes (r.head % r.capacity)

      same : (first == first) ≡ true
      same = (==_iff first first).1 refl

      bound : (span x + 7 < 2 ^ 31) × (span x % 8 ≡ 0)
      bound = span-lt (tape r.capacity r.bytes) r.head x v.chain.0

      in_range : i32_of (span x) ≡ span x
      in_range = omega (arith, bound)

      whole_size :
          (if ltb (r.capacity - r.head % r.capacity) (u64_sub end r.head)
            then r.capacity - r.head % r.capacity
            else u64_sub end r.head)
          ≡ span x
      whole_size = ground (arith, cut, le, fits)

      stored :
          StoredHeader r.capacity r.bytes r.head r.head
            (store_type
              (store32 r.bytes (r.head % r.capacity) (span x))
              (r.head % r.capacity)
              type_padding)
            type_padding
            (span x)
      stored =
          store_header_after r.capacity r.bytes r.head r.head type_padding (span x)
            (omega (arith, v.large)) (omega arith) (omega arith) (omega (arith, bound))
            (omega (arith, h8, v.chain.1)) (omega (arith, h8, spot.below, v.room))

      padded :
          IsRing
            (record r {
              bytes =
                  store_type
                    (store32 r.bytes (r.head % r.capacity) (span x))
                    (r.head % r.capacity)
                    type_padding;
            })
            (padding (span x) ∷ ys)
      padded =
          IsRing-replace [] ys x (padding (span x)) _ v (omega (arith, bound))
            (widen _ _ _ _ _ 8 (span x) h8 stored.but) (stored.len, stored.typ, h8, bound.0)
