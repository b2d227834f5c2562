-- ===== src/Ring/History/Calls.antt =====
-- What one `TryWrite` or `Read` call does to a ring without an open claim.
use go_ipc.Prelude.{
  ℕ, zero, suc, ◌+◌, ◌^◌, ◌≤◌, ◌<◌, ◌≡◌, inl, inr, Bool-cases, Option, none, some, true, false,
  List, [], ◌∷◌, ◌++◌, append-nil, refl, sym, ◌∙◌, ap, arith, length, All, ltb, leb, ◌==◌, ◌||◌,
}
use go_ipc.Errors.{Err, err, full, message_too_large, reserved_type}
use go_ipc.Ring.{Ring, type_padding, release, max_message_size}
use go_ipc.Ring.Producer.{try_claim, try_write}
use go_ipc.Ring.Reader.{Msg}
use go_ipc.Ring.Bounds.{round8, max_message_size-le}
use go_ipc.Ring.Records.{Record, blank, claimed, filled, message, padding, IsRing}
use go_ipc.Ring.Claims.{to_end, need, pads}
use go_ipc.Ring.Claims.Passes.{Fits}
use go_ipc.Ring.Steps.{IsRing-release}
use go_ipc.Ring.Publish.{IsValidClaim, try_claim-full, try_write-room}
use go_ipc.Ring.Reading.{ready}
use go_ipc.Ring.Reading.Whole.{read_lem}
use go_ipc.Ring.History.{send, receive, perform, pending, IsClosed}
use native.Mathlib.Decide.{dec_le, dec_lt}

pending-append : (xs ys : List Record) → pending (xs ++ ys) ≡ pending xs ++ pending ys
pending-append [] ys = refl
pending-append (blank size ∷ xs) ys = pending-append xs ys
pending-append (claimed len typ ∷ xs) ys = pending-append xs ys
pending-append (filled typ payload ∷ xs) ys = pending-append xs ys
pending-append (message typ payload ∷ xs) ys = ap (λ l. (typ, payload) ∷ l) (pending-append xs ys)
pending-append (padding len ∷ xs) ys = pending-append xs ys

IsClosed-append :
    (xs ys : List Record) → All IsClosed xs → All IsClosed ys → All IsClosed (xs ++ ys)
IsClosed-append [] ys h k = k
IsClosed-append (x ∷ xs) ys h k = (h.0, IsClosed-append xs ys h.1 k)

-- What `Read` passes on and what it leaves are together what was there.
pub ready-pending :
    (n : ℕ) (xs : List Record)
    → All IsClosed xs
    → ((ready n xs).0 ++ pending (ready n xs).1 ≡ pending xs) × All IsClosed (ready n xs).1
unfolding ready
ready-pending n [] h = (refl, tt)
ready-pending zero (x ∷ xs) h = (refl, h)
ready-pending (suc n) (blank size ∷ xs) h = absurd h.0
ready-pending (suc n) (claimed len typ ∷ xs) h = absurd h.0
ready-pending (suc n) (filled typ payload ∷ xs) h = absurd h.0
ready-pending (suc n) (message typ payload ∷ xs) h =
    let (e, k) = ready-pending n xs h.1 in (ap (λ l. (typ, payload) ∷ l) e, k)
ready-pending (suc n) (padding len ∷ xs) h = ready-pending (suc n) xs h.1

-- What a call on a ring that holds `xs` gives.
pub record Performed (r : Ring) (xs : List Record) (budget : ℕ)
    (o : Option (Ring × List Msg × List Msg)) : Type 0 where
  pub ring : Ring
  pub left : List Record
  pub accepted : List Msg
  pub delivered : List Msg
  pub returned : o ≡ some (ring, accepted, delivered)
  pub valid : IsRing ring left
  pub closed : All IsClosed left
  pub kept : delivered ++ pending left ≡ pending xs ++ accepted
  pub capacity_kept : ring.capacity ≡ r.capacity
  pub moved : ring.tail ≤ r.tail + budget

release-cursors :
    (slot : Option ℕ) (r : Ring)
    → ((release slot r).capacity ≡ r.capacity) × ((release slot r).tail ≡ r.tail)
unfolding release
release-cursors none r = (refl, refl)
release-cursors (some i) r = (refl, refl)

module _ {r : Ring} {xs : List Record} (v : IsRing r xs) (h : All IsClosed xs) where
  pub received_lem : (limit : ℕ) → Performed r xs (2 ^ 32) (perform (receive limit) r)
  unfolding perform
  received_lem limit =
      let (ring, e, v', tl, cp) = read_lem v limit in
      let (same, k) = ready-pending limit xs h in
      record {
        ring = ring;
        left = (ready limit xs).1;
        accepted = [];
        delivered = (ready limit xs).0;
        returned = rw e refl;
        valid = v';
        closed = k;
        kept = same ∙ sym (append-nil (pending xs));
        capacity_kept = cp;
        moved = omega arith;
      }

  module _ (slot : Option ℕ) (typ : ℕ) (payload : List ℕ) where
    write_refused :
        (ring : Ring) (e : Err)
        → try_claim slot typ (length payload) r ≡ some (ring, err e)
        → try_write slot typ payload r ≡ some (ring, some e)
    unfolding try_write
    write_refused ring e eq = rw (eq, try_write) refl

    -- A call that is refused leaves a ring of the same records.
    refused :
        (ring : Ring) (e : Err)
        → try_write slot typ payload r ≡ some (ring, some e)
        → IsRing ring xs
        → ring.capacity ≡ r.capacity
        → ring.tail ≡ r.tail
        → Performed r xs (2 ^ 32) (perform (send slot typ payload) r)
    unfolding perform
    refused ring e eq v' cp tl = record {
      ring = ring;
      left = xs;
      accepted = [];
      delivered = [];
      returned = rw eq refl;
      valid = v';
      closed = h;
      kept = sym (append-nil (pending xs));
      capacity_kept = cp;
      moved = omega arith;
    }

    reserved : typ ≡ type_padding → Performed r xs (2 ^ 32) (perform (send slot typ payload) r)
    unfolding try_claim
    reserved e = refused r reserved_type (write_refused r reserved_type claim_refused) v refl refl
      where
        claim_refused : try_claim slot typ (length payload) r ≡ some (r, err reserved_type)
        claim_refused = let t : (typ == type_padding) ≡ true = ground arith in rw t refl

    too_large :
        typ < type_padding
        → max_message_size r < length payload
        → Performed r xs (2 ^ 32) (perform (send slot typ payload) r)
    unfolding try_claim
    too_large lt big =
        refused r message_too_large (write_refused r message_too_large claim_refused) v refl refl
      where
        claim_refused : try_claim slot typ (length payload) r ≡ some (r, err message_too_large)
        claim_refused =
            let t : (typ == type_padding) ≡ false = ground arith in
            let l : (leb (2 ^ 63) (length payload) || ltb (max_message_size r) (length payload))
                ≡ true =
              ground (arith, big) in
            rw (t, l) refl

    no_room :
        IsValidClaim r typ (length payload)
        → r.head + r.capacity < r.tail + need r (8 + length payload)
        → Performed r xs (2 ^ 32) (perform (send slot typ payload) r)
    no_room w f =
        let (cp, tl) = release-cursors slot r in
        refused (release slot r) full
          (write_refused (release slot r) full (try_claim-full v slot typ (length payload) w f))
          (IsRing-release slot v) cp tl

    need-le : (n : ℕ) → n ≤ r.capacity → r.capacity ≤ 2 ^ 31 → need r n ≤ 2 ^ 32
    need-le n le small = ground (arith, v.large)

    written :
        IsValidClaim r typ (length payload)
        → Fits r (8 + length payload)
        → need r (8 + length payload) ≤ 2 ^ 32
        → Performed r xs (2 ^ 32) (perform (send slot typ payload) r)
    unfolding perform
    written w f le =
        let (ring, e, v', hd, cp, tl) = try_write-room slot typ payload v w f in
        let more = pads r (8 + length payload) in
        record {
          ring = ring;
          left = (xs ++ more) ++ message typ payload ∷ [];
          accepted = (typ, payload) ∷ [];
          delivered = [];
          returned = rw e refl;
          valid = v';
          closed = IsClosed-append (xs ++ more) _ (IsClosed-append xs more h pads-closed) (tt, tt);
          kept =
              pending-append (xs ++ more) _
              ∙ ap (λ l. l ++ (typ, payload) ∷ [])
                  (pending-append xs more
                    ∙ ap (λ l. pending xs ++ l) pads-pending
                    ∙ append-nil (pending xs));
          capacity_kept = cp;
          moved = omega (arith, tl, le);
        }
      where
        pads-closed : All IsClosed (pads r (8 + length payload))
        pads-closed = elim (Bool-cases (ltb (to_end r) (round8 (8 + length payload)))) [
          | inl c ↦ rw c (tt, tt)
          | inr c ↦ rw c tt
        ]

        pads-pending : pending (pads r (8 + length payload)) ≡ []
        pads-pending = elim (Bool-cases (ltb (to_end r) (round8 (8 + length payload)))) [
          | inl c ↦ rw c refl
          | inr c ↦ rw c refl
        ]

    pub sent_lem :
        typ ≤ type_padding
        → r.capacity ≤ 2 ^ 31
        → r.tail + 2 ^ 32 < 2 ^ 64
        → Performed r xs (2 ^ 32) (perform (send slot typ payload) r)
    sent_lem le small nowrap = elim (dec_lt typ type_padding) [
      | no b ↦ reserved (omega arith)
      | yes b ↦ elim (dec_le (length payload) (max_message_size r)) [
        | no big ↦ too_large b (omega arith)
        | yes fits ↦
            let (half, _) = max_message_size-le r v.large in
            let w : IsValidClaim r typ (length payload) = record {
              typed = b;
              sized = fits;
              aligns = omega arith;
            } in
            let bound = need-le (8 + length payload) (omega arith) small in
            elim (dec_le (r.tail + need r (8 + length payload)) (r.head + r.capacity)) [
              | yes f ↦ written w (record { room = f; no_wrap = omega (arith, bound) }) bound
              | no f ↦ no_room w (omega arith)
            ]
      ]
    ]
