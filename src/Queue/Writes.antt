-- ===== src/Queue/Writes.antt =====
-- One attempt to write a message does to the queue what it does to the abstract queue.
use go_ipc.Prelude.{
  ℕ, ◌+◌, ◌^◌, ◌≤◌, ◌<◌, ◌≡◌, Bool, false, not, ◌||◌, Option, none, some, List, [], ◌∷◌, ◌++◌,
  append-nil, refl, sym, ◌∙◌, ap, subst, arith, ◌==◌, if_both,
}
use go_ipc.Errors.{Err, Result, ok, err}
use go_ipc.Ring.{Ring, Slot, type_padding}
use go_ipc.Ring.Producer.{try_write}
use go_ipc.Ring.Reader.{Msg}
use go_ipc.Ring.Steps.{IsRing-slots}
use go_ipc.Ring.History.{sent, perform, pending}
use go_ipc.Ring.History.Calls.{sent_lem}
use go_ipc.Ring.Recovery.{acquire_slot, watchable}
use go_ipc.Ring.Recovery.Slots.{Acquired, acquire_slot_lem}
use go_ipc.Ring.Handles.{Handle, acquired, take_slot, put_slot}
use go_ipc.Queue.{Queue, Outside, PeerWatch}
use go_ipc.Queue.Peer.{check_peer, watch_peer}
use go_ipc.Queue.Send.{written, write}
use go_ipc.Queue.View.{IsView, Enqueued, SendRefines, tokens_after}

-- `checkPeer` changes nothing but the watch.
abbrev OnlyWatch : Queue → Queue × Option Err → Type 0
OnlyWatch q p = (w : PeerWatch) × (p.0 ≡ record q { watch = w })

check_peer_lem : (out : Outside) (q : Queue) → OnlyWatch q (check_peer out q)
unfolding check_peer
check_peer_lem out q =
    if_both (OnlyWatch q) (q.ring.consumer == 0) (q.watch, refl)
      (if_both (OnlyWatch q) (q.ring.consumer == 1 || q.ring.consumer == q.self) (q.watch, refl)
        (if_both (OnlyWatch q) (not (watchable q.ring.consumer)) (q.watch, refl)
          (if_both (OnlyWatch q) (q.watch.id == q.ring.consumer) (q.watch, refl)
            ((watch_peer out q.ring.consumer q.watch).0, refl))))

-- `takeSlot` changes nothing of the ring but the slots.
slots_only :
    (h : Handle) (r : Ring) (o : Ring × Result ℕ) (self : ℕ) (dead : ℕ → Bool)
    → Acquired dead self r o
    → (ss : List Slot) × ((acquired h o).1 ≡ record r { slots = ss })
slots_only h r (r', ok i) self dead (ss, e, _) = (ss, e)
slots_only h r (r', err x) self dead (_, e, _, _) = (r.slots, e)

take_slot-slots :
    (self : ℕ) (dead : ℕ → Bool) (h : Handle) (r : Ring)
    → (ss : List Slot) × ((take_slot self dead h r).1 ≡ record r { slots = ss })
unfolding take_slot
take_slot-slots self dead h r = pick h.idle h.owned
  where
    pick :
        (idle owned : List ℕ)
        → (ss : List Slot) × ((take_slot self dead (record { idle = idle; owned = owned }) r).1
            ≡ record r { slots = ss })
    pick [] owned =
        slots_only (record { idle = []; owned = owned }) r (acquire_slot self dead r) self dead
          (acquire_slot_lem dead self r)
    pick (s ∷ rest) owned = (r.slots, refl)

-- What `TryWrite` did, from the history of that one call.
sent-inv :
    (msg : Msg) (o : Option (Ring × Option Err)) {r : Ring} {acc out : List Msg}
    → sent msg o ≡ some (r, acc, out)
    → (e : Option Err) × (o ≡ some (r, e))
      × (out ≡ [])
      × ((l : List Msg) → Enqueued msg l e (l ++ acc))
sent-inv msg none e = cc
sent-inv msg (some (r, none)) e = (none, cc, cc, λ l. ap (λ k. l ++ k) (cc))
sent-inv msg (some (r, some x)) e = (some x, cc, cc, λ l. ap (λ k. l ++ k) (cc) ∙ append-nil l)

module _ (out : Outside) (typ : ℕ) (payload : List ℕ) (ht : typ ≤ type_padding) where
  abbrev Refines : List Msg → Queue → Option (Queue × Option Err) → Type 0
  Refines l q o = SendRefines false (typ, payload) l q.ring.tail q.not_empty o

  abbrev refused :
      (l : List Msg) (q : Queue) (e : Err) → IsView q l → Refines l q (some (q, some e))
  refused l q e v = record {
    queue = q;
    error = some e;
    after = l;
    returned = refl;
    view = v;
    enqueued = refl;
    moved = omega arith;
    tokens = refl;
  }

  still : (n waiters : ℕ) (e : Option Err) → n ≡ tokens_after false n waiters e
  still n waiters none = refl
  still n waiters (some e) = refl

  -- The copy into the ring.
  copied :
      (l : List Msg) (q : Queue) (slot : ℕ)
      → IsView q l
      → q.ring.tail + 2 ^ 32 < 2 ^ 64
      → Refines l q (written slot q (try_write (some slot) typ payload q.ring))
  unfolding perform
  copied l q slot v nowrap =
      let p = sent_lem v.valid v.closed (some slot) typ payload ht v.small nowrap in
      let (e, eq, nothing, enq) =
        sent-inv (typ, payload) (try_write (some slot) typ payload q.ring) p.returned in
      let now : pending p.left ≡ l ++ p.accepted =
        ap (λ k. k ++ pending p.left) (sym nothing) ∙ p.kept ∙ ap (λ k. k ++ p.accepted) v.shows in
      record {
        queue = record q { ring = p.ring; handle = put_slot slot q.handle };
        error = e;
        after = pending p.left;
        returned = ap (written slot q) eq;
        view = record {
          records = p.left;
          valid = p.valid;
          closed = p.closed;
          shows = refl;
          small = omega (arith, p.capacity_kept, v.small);
        };
        enqueued = subst (λ k. Enqueued (typ, payload) l e k) (sym now) (enq l);
        moved = p.moved;
        tokens = still q.not_empty p.ring.recv_waiters e;
      }

  -- `write` behind the check of the peer, with what `takeSlot` gave.
  abbrev write_with : Queue → Option Err → Handle → Ring → Result ℕ → Option (Queue × Option Err)
  write_with q peer_end h r taken = elim peer_end [
    | some e ↦ some (q, some e)
    | none ↦ elim taken [
      | err e ↦ some (record q { handle = h; ring = r }, some e)
      | ok slot ↦
          written slot (record q { handle = h; ring = r }) (try_write (some slot) typ payload r)
    ]
  ]

  with_slots :
      (l : List Msg) (q : Queue) (h : Handle) (ss : List Slot)
      → IsView q l
      → IsView (record q { handle = h; ring = record (q.ring) { slots = ss } }) l
  with_slots l q h ss v = record {
    records = v.records;
    valid = IsRing-slots v.valid ss;
    closed = v.closed;
    shows = v.shows;
    small = v.small;
  }

  write_with_lem :
      (l : List Msg) (q : Queue) (peer_end : Option Err) (h : Handle) (ss : List Slot)
      (taken : Result ℕ)
      → IsView q l
      → q.ring.tail + 2 ^ 32 < 2 ^ 64
      → Refines l q (write_with q peer_end h (record (q.ring) { slots = ss }) taken)
  write_with_lem l q (some e) h ss taken v nowrap = refused l q e v
  write_with_lem l q none h ss (err e) v nowrap =
      refused l (record q { handle = h; ring = record (q.ring) { slots = ss } }) e
        (with_slots l q h ss v)
  write_with_lem l q none h ss (ok slot) v nowrap =
      copied l (record q { handle = h; ring = record (q.ring) { slots = ss } }) slot
        (with_slots l q h ss v) nowrap

  pub write_lem :
      (l : List Msg) (q : Queue)
      → IsView q l
      → q.ring.tail + 2 ^ 32 < 2 ^ 64
      → Refines l q (write out typ payload q)
  unfolding write
  write_lem l q v nowrap =
      let (w, e) = check_peer_lem out q in
      let q1 = record q { watch = w } in
      let v1 : IsView q1 l = record {
        records = v.records;
        valid = v.valid;
        closed = v.closed;
        shows = v.shows;
        small = v.small;
      } in
      let (ss, s) = take_slot-slots q1.self out.is_dead q1.handle q1.ring in
      let t = take_slot q1.self out.is_dead q1.handle q1.ring in
      let end = (check_peer out q).1 in
      subst
        (λ (p : Queue).
          let t = take_slot p.self out.is_dead p.handle p.ring in
          Refines l q (write_with p end t.0 t.1 t.2))
        (sym e)
        (subst (λ (r : Ring). Refines l q (write_with q1 end t.0 r t.2)) (sym s)
          (write_with_lem l q1 end t.0 ss t.2 v1 nowrap))
