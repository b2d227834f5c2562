-- ===== src/Ring/Claims/Passes.antt =====
-- One pass of the loop of `tryClaim`: it claims where there is room, and reports a full ring where
-- there is none.
use go_ipc.Prelude.{
  ℕ, ◌+◌, ◌%◌, ◌^◌, ◌≤◌, ◌<◌, ◌≡◌, inl, inr, true, false, Bool-cases, ltb→lt, ==_iff, Option, none,
  some, List, append-nil, refl, sym, ap, arith, ltb, ◌==◌, if◌then◌else◌,
}
use go_ipc.Words.{u64_add}
use go_ipc.Errors.{ok, err, full}
use go_ipc.Ring.{Ring, Claim, update_slot, type_padding, release}
use go_ipc.Ring.Producer.{
  Pass, done, has_room, write_padding, write_header, take_range, swap_tail, claim_pass,
}
use go_ipc.Ring.Bounds.{round8, has_room_iff}
use go_ipc.Ring.Records.{Record, IsRing}
use go_ipc.Ring.Steps.{IsRing-slots, IsRing-cache, tail-at_end}
use native.Mathlib.Nat.{le_refl, mod-lt}
use go_ipc.Ring.Claims.{to_end, need, IsClaimed, head-le-tail, pad_start, straight, wrapped}

-- A pass that returned a claim.
pub record Claims (r : Ring) (xs : List Record) (slot : Option ℕ) (typ len : ℕ) (p : Pass)
    : Type 0 where
  pub ring : Ring
  pub claim : Claim
  pub returned : p ≡ done ring (ok claim)
  pub claimed_there : IsClaimed r xs slot typ len ring claim

-- A claim of `len` bytes has room, and its cursor does not wrap.
pub record Fits (r : Ring) (len : ℕ) : Type 0 where
  pub room : r.tail + need r len ≤ r.head + r.capacity
  pub no_wrap : r.tail + need r len < 2 ^ 64

module _ (typ len : ℕ) (h8 : 8 ≤ len) (hl : len + 7 < 2 ^ 31) (ht : typ < type_padding) where
  take_range_cross :
      {r : Ring} {xs : List Record} (slot : Option ℕ) (k : ℕ)
      → IsRing r xs
      → ltb (to_end r) (round8 len) ≡ true
      → k ≡ round8 len + to_end r
      → r.tail + k ≤ r.head + r.capacity
      → r.tail + k < 2 ^ 64
      → Claims r xs slot typ len
          (take_range slot typ len r.tail (r.tail % r.capacity) (round8 len) (to_end r) k r)
  unfolding take_range
  take_range_cross {r} {xs} slot k v cross e fit nowrap =
      let big : 0 < to_end r =
        omega (arith, mod-lt r.tail {m = r.capacity} (omega (arith, v.large))) in
      let ne : (k == round8 len) ≡ false = ground arith in
      let te : u64_add r.tail k ≡ r.tail + (round8 len + to_end r) = omega arith in
      record {
        ring = record r {
          tail = u64_add r.tail k;
          bytes = write_header 0 typ len (write_padding (r.tail % r.capacity) (to_end r) r.bytes);
        };
        claim = record { index = 0; total = len; slot = slot };
        returned = rw ne;
        claimed_there =
            rw (te, cross)
              (
                wrapped v typ len h8 hl ht (ltb→lt _ _ cross) (omega arith) (omega arith),
                ap (λ (i : ℕ). record { index = i; total = len; slot = slot }) (sym (pad_start v)),
                refl,
                refl,
                refl,
              );
      }

  take_range_straight :
      {r : Ring} {xs : List Record} (slot : Option ℕ) (k : ℕ)
      → IsRing r xs
      → ltb (to_end r) (round8 len) ≡ false
      → k ≡ round8 len
      → r.tail + k ≤ r.head + r.capacity
      → r.tail + k < 2 ^ 64
      → Claims r xs slot typ len
          (take_range slot typ len r.tail (r.tail % r.capacity) (round8 len) (to_end r) k r)
  unfolding take_range
  take_range_straight {r} {xs} slot k v fits e fit nowrap =
      let eq : (k == round8 len) ≡ true = ground arith in
      let te : u64_add r.tail k ≡ r.tail + round8 len = omega arith in
      record {
        ring = record r {
          tail = u64_add r.tail k;
          bytes = write_header (r.tail % r.capacity) typ len r.bytes;
        };
        claim = record { index = r.tail % r.capacity; total = len; slot = slot };
        returned = rw eq;
        claimed_there =
            rw (te, fits)
              (
                rw append-nil
                    (straight v typ len h8 hl ht (ground arith) (omega arith) (omega arith)),
                rw (append-nil, tail-at_end v),
                refl,
                refl,
                refl,
              );
      }

  take_range_lem :
      {r : Ring} {xs : List Record} (slot : Option ℕ)
      → IsRing r xs
      → Fits r len
      → Claims r xs slot typ len (
          take_range slot typ len r.tail
            (r.tail % r.capacity)
            (round8 len)
            (to_end r)
            (need r len)
            r)
  take_range_lem {r} slot v f = elim (Bool-cases (ltb (to_end r) (round8 len))) [
    | inl cross ↦ take_range_cross slot (need r len) v cross (rw cross) f.room f.no_wrap
    | inr fits ↦ take_range_straight slot (need r len) v fits (rw fits) f.room f.no_wrap
  ]

  swap_tail_lem :
      {r : Ring} {xs : List Record} (slot : Option ℕ)
      → IsRing r xs
      → Fits r len
      → Claims r xs slot typ len (
          swap_tail slot typ len r.tail
            (r.tail % r.capacity)
            (round8 len)
            (to_end r)
            (need r len)
            r)
  unfolding swap_tail
  swap_tail_lem {r} none v f = rw ((==_iff r.tail r.tail).1 refl) (take_range_lem none v f)
  swap_tail_lem {r} {xs} (some i) v f =
      let ss = update_slot i (λ s. record s { at = r.tail; size = need r len }) r.slots in
      let r' = record r { slots = ss } in
      let f' : Fits r' len = record { room = f.room; no_wrap = f.no_wrap } in
      let c = take_range_lem {r = r'} {xs = xs} (some i) (IsRing-slots v ss) f' in
      rw ((==_iff r.tail r.tail).1 refl) record {
        ring = c.ring;
        claim = c.claim;
        returned = c.returned;
        claimed_there = c.claimed_there;
      }

  -- The uint64 sum of `tryClaim` does not wrap.
  wide :
      {r : Ring} {xs : List Record}
      → IsRing r xs
      → (if ltb (to_end r) (round8 len) then u64_add (round8 len) (to_end r) else round8 len)
        ≡ need r len
  wide {r} v =
      let e : u64_add (round8 len) (to_end r) ≡ round8 len + to_end r = omega (arith, v.small) in
      rw e

  ordered : {r : Ring} {xs : List Record} → IsRing r xs → ltb r.tail r.head ≡ false
  ordered {r} v = ground (arith, head-le-tail v)

  -- With room, a pass over the cursors as they are returns a claim.
  pub claim_pass-Claims :
      {r : Ring} {xs : List Record} (slot : Option ℕ)
      → IsRing r xs
      → Fits r len
      → Claims r xs slot typ len (claim_pass slot typ len (round8 len) r.tail r.head_cache r)
  unfolding claim_pass
  claim_pass-Claims {r} {xs} slot v f =
      rw (wide v) (elim (Bool-cases (has_room r.tail r.head_cache r.capacity n)) [
        | inl roomy ↦ rw roomy (swap_tail_lem slot v f)
        | inr tight ↦
            rw
              (
                tight,
                (ordered v),
                (has_room_iff r.tail r.head r.capacity n v.fits).1 (head-le-tail v, f.room),
              )
              (reload (
                swap_tail_lem {r = record r { head_cache = r.head }} slot (IsRing-cache v)
                  (record { room = f.room; no_wrap = f.no_wrap })))
      ])
    where
      n : ℕ
      n = need r len

      reload :
          {p : Pass}
          → Claims (record r { head_cache = r.head }) xs slot typ len p
          → Claims r xs slot typ len p
      reload c = record {
        ring = c.ring;
        claim = c.claim;
        returned = c.returned;
        claimed_there = c.claimed_there;
      }

  -- Without room it returns `full`, and clears the intent of the slot.
  pub claim_pass-full :
      {r : Ring} {xs : List Record} (slot : Option ℕ)
      → IsRing r xs
      → r.head + r.capacity < r.tail + need r len
      → claim_pass slot typ len (round8 len) r.tail r.head_cache r
        ≡ done (release slot r) (err full)
  unfolding claim_pass
  claim_pass-full {r} slot v f =
      rw (wide v, no_room r.head_cache v.cached, ordered v, no_room r.head (le_refl r.head))
    where
      no_room : (h : ℕ) → h ≤ r.head → has_room r.tail h r.capacity (need r len) ≡ false
      no_room h le = elim (Bool-cases (has_room r.tail h r.capacity (need r len))) [
        | inl roomy ↦
            absurd (omega (arith, (has_room_iff r.tail h r.capacity (need r len) v.fits).0 roomy))
        | inr tight ↦ tight
      ]
