-- ===== src/Queue/Ends.antt =====
-- What `Close` leaves behind in the ring.
use go_ipc.Prelude.{
  ℕ, zero, suc, ◌≡◌, ◌≢◌, true, false, Option, none, some, List, [], ◌∷◌, All, ltb, ◌==◌,
  if◌then◌else◌, if_both, if_cases, refl, sym, ◌∙◌, ap, subst, arith,
}
use go_ipc.Errors.{Err, ok, err, peer_gone}
use go_ipc.Ring.{Ring, Slot, no_intent, update_slot}
use go_ipc.Ring.Producer.{try_write}
use go_ipc.Ring.Recovery.{drop_slot}
use go_ipc.Ring.Handles.{Handle, take_slot}
use go_ipc.Queue.{Queue, Outside, wake_senders}
use go_ipc.Queue.Peer.{check_peer}
use go_ipc.Queue.Send.{written, write, sent_now, try_send}
use go_ipc.Queue.Closing.{leave_ring, drop_slots, close}

-- No slot of these is the process's own.
abbrev pub IsLeft : ℕ → List Slot → ℕ → Type 0
IsLeft self [] i = Unit
IsLeft self (s ∷ ss) zero = s.owner ≢ self
IsLeft self (s ∷ ss) (suc i) = IsLeft self ss i

abbrev dropped : ℕ → Slot → Slot
dropped self s = record s { at = no_intent; owner = if s.owner == self then 0 else s.owner }

dropped-owner : (self : ℕ) (s : Slot) → self ≢ 0 → (dropped self s).owner ≢ self
dropped-owner self s h =
    if_cases (λ x. x ≢ self) (s.owner == self) (λ b e. h (sym e))
      (λ b e. absurd (ground (arith, b, e)))

IsLeft-update_slot_here :
    (self : ℕ) (i : ℕ) (ss : List Slot) → self ≢ 0 → IsLeft self (update_slot i (dropped self) ss) i
unfolding update_slot
IsLeft-update_slot_here self i [] h = tt
IsLeft-update_slot_here self zero (s ∷ ss) h = dropped-owner self s h
IsLeft-update_slot_here self (suc i) (s ∷ ss) h = IsLeft-update_slot_here self i ss h

IsLeft-update_slot :
    (self i j : ℕ) (ss : List Slot)
    → self ≢ 0
    → IsLeft self ss j
    → IsLeft self (update_slot i (dropped self) ss) j
unfolding update_slot
IsLeft-update_slot self i j [] h k = tt
IsLeft-update_slot self zero zero (s ∷ ss) h k = dropped-owner self s h
IsLeft-update_slot self zero (suc j) (s ∷ ss) h k = k
IsLeft-update_slot self (suc i) zero (s ∷ ss) h k = k
IsLeft-update_slot self (suc i) (suc j) (s ∷ ss) h k = IsLeft-update_slot self i j ss h k

IsLeft-drop_slots :
    (self : ℕ) (is : List ℕ) (r : Ring) (j : ℕ)
    → self ≢ 0
    → IsLeft self r.slots j
    → IsLeft self (drop_slots self is r).slots j
unfolding drop_slots drop_slot
IsLeft-drop_slots self [] r j h k = k
IsLeft-drop_slots self (i ∷ is) r j h k =
    IsLeft-drop_slots self is (drop_slot self i r) j h (IsLeft-update_slot self i j r.slots h k)

drop_slots-IsLeft :
    (self : ℕ) (is : List ℕ) (r : Ring)
    → self ≢ 0
    → All (IsLeft self (drop_slots self is r).slots) is
unfolding drop_slots drop_slot
drop_slots-IsLeft self [] r h = tt
drop_slots-IsLeft self (i ∷ is) r h = (
  IsLeft-drop_slots self is (drop_slot self i r) i h (IsLeft-update_slot_here self i r.slots h),
  drop_slots-IsLeft self is (drop_slot self i r) h,
)

drop_slots-consumer :
    (self : ℕ) (is : List ℕ) (r : Ring) → (drop_slots self is r).consumer ≡ r.consumer
unfolding drop_slots drop_slot
drop_slots-consumer self [] r = refl
drop_slots-consumer self (i ∷ is) r = drop_slots-consumer self is (drop_slot self i r)

write-gone :
    (out : Outside) (typ : ℕ) (payload : List ℕ) (p : Queue)
    → check_peer out p ≡ (p, some peer_gone)
    → write out typ payload p ≡ some (p, some peer_gone)
unfolding write
write-gone out typ payload p e =
    let after : Queue × Option Err → Option (Queue × Option Err) = λ t.
      let (h, r, taken) = take_slot t.0.self out.is_dead t.0.handle t.0.ring in
      let q = record (t.0) { handle = h; ring = r } in
      elim t.1 as (λ _. Option (Queue × Option Err)) [
        | some x ↦ some (t.0, some x)
        | none ↦ elim taken [
          | err x ↦ some (q, some x)
          | ok slot ↦ written slot q (try_write (some slot) typ payload r)
        ]
      ] in
    ap after e

-- A send to a queue without a receiver.
try_send-gone :
    (out : Outside) (typ : ℕ) (payload : List ℕ) (p : Queue)
    → p.ring.consumer ≡ 0
    → p.closing ≡ false
    → try_send out typ payload p ≡ some (p, some peer_gone)
unfolding try_send check_peer
try_send-gone out typ payload p none_left stays =
    let b : (p.ring.consumer == 0) ≡ true = ground (arith, none_left) in
    let e : check_peer out p ≡ (p, some peer_gone) = rw (check_peer, b) refl in
    if_cases (λ o. o ≡ some (p, some peer_gone)) p.closing (λ shut. absurd cc)
      (λ _. ap sent_now (write-gone out typ payload p e))

-- The receiving end's own ring has no receiver any more.
leave_ring-consumer :
    (q : Queue) → q.reader ≡ true → q.ring.consumer ≡ q.self → (leave_ring q).ring.consumer ≡ 0
unfolding leave_ring wake_senders
leave_ring-consumer q reads owns =
    let b : (q.ring.consumer == q.self) ≡ true = ground (arith, owns) in
    rw (reads, b)
      (if_both (λ (p : Queue). p.ring.consumer ≡ 0) (ltb 0 q.ring.send_waiters) refl refl)

leave_ring-self : (q : Queue) → ((leave_ring q).self ≡ q.self) × ((leave_ring q).handle ≡ q.handle)
unfolding leave_ring wake_senders
leave_ring-self q =
    let P : Queue → Type 0 = λ p. (p.self ≡ q.self) × (p.handle ≡ q.handle) in
    if_both P q.reader (if_both P (ltb 0 q.ring.send_waiters) (refl, refl) (refl, refl))
      (refl, refl)

pub close-consumer :
    (errors : List (Option Err)) (q : Queue)
    → q.reader ≡ true
    → q.closing ≡ false
    → q.ring.consumer ≡ q.self
    → (close errors q).0.ring.consumer ≡ 0
unfolding close
close-consumer errors q reads running owns =
    let q' = leave_ring q in
    let r : (close errors q).0.ring ≡ drop_slots q'.self q'.handle.owned q'.ring =
      rw running refl in
    ap (λ (x : Ring). x.consumer) r
    ∙ drop_slots-consumer q'.self q'.handle.owned q'.ring
    ∙ leave_ring-consumer q reads owns

-- After `Close` on the receiving end, which has not closed yet and is the consumer of its ring, none of its claim
-- slots is its own any more, and a send through any handle of the ring that is open gives `ErrPeerGone` and changes
-- nothing. The process has an ID other than 0.
pub close_lem :
    (errors : List (Option Err)) (q : Queue) (out : Outside) (typ : ℕ) (payload : List ℕ)
    (p : Queue)
    → q.reader ≡ true
    → q.closing ≡ false
    → q.ring.consumer ≡ q.self
    → q.self ≢ 0
    → p.ring ≡ (close errors q).0.ring
    → p.closing ≡ false
    → (try_send out typ payload p ≡ some (p, some peer_gone))
      × All (IsLeft q.self (close errors q).0.ring.slots) q.handle.owned
unfolding close
close_lem errors q out typ payload p reads running owns named same stays =
    let q' = leave_ring q in
    let (s, h) = leave_ring-self q in
    let r : (close errors q).0.ring ≡ drop_slots q'.self q'.handle.owned q'.ring =
      rw running refl in
    let dropped_all = drop_slots q'.self q'.handle.owned q'.ring in
    let gone : p.ring.consumer ≡ 0 =
      ap (λ (x : Ring). x.consumer) same ∙ close-consumer errors q reads running owns in
    (
      try_send-gone out typ payload p gone stays,
      subst (λ (x : Ring). All (IsLeft q.self x.slots) q.handle.owned) (sym r)
          (subst (λ (hd : Handle). All (IsLeft q.self dropped_all.slots) hd.owned) h
            (subst (λ n. All (IsLeft n dropped_all.slots) q'.handle.owned) s
              (drop_slots-IsLeft q'.self q'.handle.owned q'.ring (λ e. named (sym s ∙ e))))),
    )
