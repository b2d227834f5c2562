-- ===== src/Ring/Claims.antt =====
-- `tryClaim` on a ring that holds `xs`: what it reserves, and when it reports a full ring.
pub mod Passes
use go_ipc.Prelude.{
  ℕ, ◌+◌, ◌-◌, ◌*◌, ◌/◌, ◌%◌, ◌^◌, ◌≤◌, ◌<◌, ◌≡◌, inl, inr, true, false, Bool-cases, ltb→lt, ==_iff,
  Option, none, some, List, [], ◌∷◌, ◌++◌, append-nil, append_assoc, refl, sym, ◌∙◌, ap, subst,
  arith, ltb, ◌==◌, if◌then◌else◌,
}
use go_ipc.Words.{u64_add}
use go_ipc.Errors.{ok, err, full}
use go_ipc.Ring.{Ring, Claim, update_slot, type_padding, release}
use go_ipc.Ring.Producer.{
  Pass, done, has_room, write_padding, write_header, take_range, swap_tail, claim_pass,
}
use go_ipc.Ring.Bounds.{round8, has_room_iff}
use go_ipc.Ring.Records.{Chain-le, Chain-mod, Record, blank, claimed, padding, IsRing}
use go_ipc.Ring.Replace.{at_end, at_end-append, at_end-one}
use go_ipc.Ring.Steps.{
  IsRing-slots, IsRing-cache, IsRing-extend, tail-at_end, index_after, write_header_lem,
  write_padding_lem,
}
use native.Mathlib.Nat.{le_refl, mod-lt, div-add-mod, mod-add-mod}
use go_ipc.Memory.Laws.{tape}

-- The bytes from the tail to the end of the data region.
abbrev pub to_end : Ring → ℕ
to_end r = r.capacity - r.tail % r.capacity

-- What a claim of a record of `len` bytes takes, padding to the wrap point included.
abbrev pub need : Ring → ℕ → ℕ
need r len = if ltb (to_end r) (round8 len) then round8 len + to_end r else round8 len

-- The padding record that a claim of `len` bytes puts before its own.
abbrev pub pads : Ring → ℕ → List Record
pads r len = if ltb (to_end r) (round8 len) then padding (to_end r) ∷ [] else []

-- A claim of `len` bytes was returned, and the ring holds it behind the old records.
abbrev pub IsClaimed : Ring → List Record → Option ℕ → ℕ → ℕ → Ring → Claim → Type 0
IsClaimed r xs slot typ len ring c =
    IsRing ring ((xs ++ pads r len) ++ claimed len typ ∷ [])
    × (c ≡ record { index = index_after ring (xs ++ pads r len); total = len; slot = slot })
    × (ring.head ≡ r.head)
    × (ring.capacity ≡ r.capacity)
    × (ring.tail ≡ r.tail + need r len)

module _ {r : Ring} {xs : List Record} (v : IsRing r xs) where
  pub tail-mod : r.tail % 8 ≡ 0
  tail-mod = Chain-mod r.capacity (tape r.capacity r.bytes) r.head r.tail xs v.chain v.head_aligned

  pub head-le-tail : r.head ≤ r.tail
  head-le-tail = Chain-le r.capacity (tape r.capacity r.bytes) r.head r.tail xs v.chain

  -- The tail's index is a multiple of eight, as the capacity and the tail are.
  index-mod : r.tail % r.capacity % 8 ≡ 0
  index-mod =
      let q = r.tail / r.capacity in
      let c8 : r.capacity ≡ r.capacity / 8 * 8 = omega (arith, v.whole) in
      omega (arith, tail-mod, div-add-mod r.tail r.capacity, ap (λ (t : ℕ). t * q) c8)

  -- A claim of the bytes up to the wrap point brings the tail to index 0.
  pub lap_end : (r.tail + to_end r) % r.capacity ≡ 0
  lap_end =
      let lt = mod-lt r.tail {m = r.capacity} (omega (arith, v.large)) in
      sym (mod-add-mod r.tail r.capacity (to_end r)) ∙ grind (arith, lt)

  pub to_end-mod : (8 ≤ to_end r) × (to_end r % 8 ≡ 0)
  to_end-mod = omega (arith, mod-lt r.tail {m = r.capacity} (omega (arith, v.large)), index-mod)

  pad_start : at_end r.head (xs ++ padding (to_end r) ∷ []) % r.capacity ≡ 0
  pad_start =
      ap (λ (c : ℕ). c % r.capacity)
        (at_end-append r.head xs (padding (to_end r) ∷ [])
          ∙ at_end-one (at_end r.head xs) (padding (to_end r))
          ∙ omega (arith, tail-at_end v, to_end-mod))
      ∙ lap_end

  -- A claim of `n` bytes that do not fit before the wrap point takes the bytes up to it too.
  pub across :
      (n : ℕ)
      → 8 ≤ n
      → n % 8 ≡ 0
      → n < 2 ^ 31
      → to_end r < n
      → r.tail + (n + to_end r) ≤ r.head + r.capacity
      → r.tail + (n + to_end r) < 2 ^ 64
      → IsRing (record r { tail = r.tail + to_end r + n }) (xs ++ blank (to_end r) ∷ blank n ∷ [])
  across n h8 hm hs cross fit nowrap =
      let e = to_end r in
      let (e8, em) = to_end-mod in
      let v1 : IsRing (record r { tail = r.tail + e }) (xs ++ blank e ∷ []) =
        IsRing-extend v e e8 em (omega arith) (omega arith) (omega arith) (omega arith) in
      rw (append_assoc xs (blank e ∷ []) (blank n ∷ [])) at (
        IsRing-extend v1 n h8 hm hs (rw lap_end (omega (arith, head-le-tail))) (omega arith)
          (omega arith))

module _ {r : Ring} {xs : List Record} (v : IsRing r xs) (typ len : ℕ) (h8 : 8 ≤ len)
    (hl : len + 7 < 2 ^ 31) (ht : typ < type_padding) where
  -- The claim fits before the end of the data region.
  straight :
      round8 len ≤ to_end r
      → r.tail + round8 len ≤ r.head + r.capacity
      → r.tail + round8 len < 2 ^ 64
      → IsRing
          (record r {
            tail = r.tail + round8 len;
            bytes = write_header (r.tail % r.capacity) typ len r.bytes;
          })
          (xs ++ claimed len typ ∷ [])
  straight inside fit nowrap =
      let v' =
        IsRing-extend v (round8 len) (omega arith) (omega arith) (omega arith) (omega arith) fit
          nowrap in
      rw (tail-at_end v) at
        (write_header_lem xs [] (round8 len) len typ v' refl h8 hl (omega arith) (omega arith))

  wrapped :
      to_end r < round8 len
      → r.tail + (round8 len + to_end r) ≤ r.head + r.capacity
      → r.tail + (round8 len + to_end r) < 2 ^ 64
      → IsRing
          (record r {
            tail = r.tail + (round8 len + to_end r);
            bytes = write_header 0 typ len (write_padding (r.tail % r.capacity) (to_end r) r.bytes);
          })
          ((xs ++ padding (to_end r) ∷ []) ++ claimed len typ ∷ [])
  wrapped cross fit nowrap =
      subst
        (λ (t : ℕ).
          IsRing
            (record r {
              tail = t;
              bytes = write_header 0 typ len (write_padding (r.tail % r.capacity) e r.bytes);
            })
            ((xs ++ padding e ∷ []) ++ claimed len typ ∷ []))
        (omega arith) v4
    where
      e : ℕ
      e = to_end r

      n : ℕ
      n = round8 len

      e_mod : (8 ≤ e) × (e % 8 ≡ 0)
      e_mod = to_end-mod v

      v2 : IsRing (record r { tail = r.tail + e + n }) (xs ++ blank e ∷ blank n ∷ [])
      v2 = across v n (omega arith) (omega arith) (omega arith) cross fit nowrap

      v3 :
          IsRing
            (record r {
              tail = r.tail + e + n;
              bytes = write_padding (r.tail % r.capacity) e r.bytes;
            })
            (xs ++ padding e ∷ blank n ∷ [])
      v3 = rw (tail-at_end v) at (write_padding_lem xs (blank n ∷ []) e v2)

      v4 :
          IsRing
            (record r {
              tail = r.tail + e + n;
              bytes = write_header 0 typ len (write_padding (r.tail % r.capacity) e r.bytes);
            })
            ((xs ++ padding e ∷ []) ++ claimed len typ ∷ [])
      v4 = rw (pad_start v) at (
          write_header_lem (xs ++ padding e ∷ []) [] n len typ
            (rw (← append_assoc xs (padding e ∷ []) (blank n ∷ [])) at v3) refl h8 hl (omega arith)
            (omega arith))
