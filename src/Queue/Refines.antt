-- ===== src/Queue/Refines.antt =====
-- The operations of a queue do what those of the abstract queue do.
use go_ipc.Prelude.{
  ℕ, ◌+◌, ◌^◌, ◌≤◌, ◌<◌, ◌≡◌, Bool, true, false, Option, none, some, List, refl, sym, subst, arith,
  ltb, if◌then◌else◌, if_both,
}
use go_ipc.Errors.{Err, closed}
use go_ipc.Ring.{type_padding}
use go_ipc.Ring.Reader.{Msg}
use go_ipc.Queue.{Queue, Outside, wake_receiver}
use go_ipc.Queue.Send.{sent_now, try_send}
use go_ipc.Queue.View.{IsView, Enqueued, SendRefines, tokens_after}
use go_ipc.Queue.Writes.{write_lem}

module _ (out : Outside) (typ : ℕ) (payload : List ℕ) (ht : typ ≤ type_padding) where
  -- The signal after a send that went through.
  abbrev woken : Bool → Queue → Queue
  woken b q = if b then record q { not_empty = q.not_empty + 1 } else q

  wake-IsView : (b : Bool) (l : List Msg) (q : Queue) → IsView q l → IsView (woken b q) l
  wake-IsView true l q v = record {
    records = v.records;
    valid = v.valid;
    closed = v.closed;
    shows = v.shows;
    small = v.small;
  }
  wake-IsView false l q v = v

  wake_done :
      (b : Bool) (l after : List Msg) (tail n : ℕ) (q : Queue)
      → IsView q after
      → Enqueued (typ, payload) l none after
      → q.ring.tail ≤ tail + 2 ^ 32
      → q.not_empty ≡ n
      → ltb 0 q.ring.recv_waiters ≡ b
      → SendRefines true (typ, payload) l tail n (some (woken b q, none))
  wake_done true l after tail n q v enq m t e = record {
    queue = record q { not_empty = q.not_empty + 1 };
    error = none;
    after = after;
    returned = refl;
    view = wake-IsView true after q v;
    enqueued = enq;
    moved = m;
    tokens = rw e (omega arith);
  }
  wake_done false l after tail n q v enq m t e = record {
    queue = q;
    error = none;
    after = after;
    returned = refl;
    view = v;
    enqueued = enq;
    moved = m;
    tokens = rw e t;
  }

  sent_now_lem :
      (l : List Msg) (tail n : ℕ) (q : Queue) (e : Option Err) (after : List Msg)
      → IsView q after
      → Enqueued (typ, payload) l e after
      → q.ring.tail ≤ tail + 2 ^ 32
      → q.not_empty ≡ tokens_after false n q.ring.recv_waiters e
      → SendRefines true (typ, payload) l tail n (sent_now (some (q, e)))
  unfolding wake_receiver
  sent_now_lem l tail n q none after v enq m t =
      wake_done (ltb 0 q.ring.recv_waiters) l after tail n q v enq m t refl
  sent_now_lem l tail n q (some x) after v enq m t = record {
    queue = q;
    error = some x;
    after = after;
    returned = refl;
    view = v;
    enqueued = enq;
    moved = m;
    tokens = t;
  }

  -- `TrySend` returns, and either puts the message behind those that the queue holds, and signals the
  -- receiver if one is parked, or gives an error and leaves the messages as they are and signals nobody.
  -- No claim is open in the queue, its capacity is at most 2 ^ 31 and its tail not yet near 2 ^ 64.
  pub try_send_refines :
      (l : List Msg) (q : Queue)
      → IsView q l
      → q.ring.tail + 2 ^ 32 < 2 ^ 64
      → SendRefines true (typ, payload) l q.ring.tail q.not_empty (try_send out typ payload q)
  unfolding try_send
  try_send_refines l q v nowrap =
      let r = write_lem out typ payload ht l q v nowrap in
      if_both (SendRefines true (typ, payload) l q.ring.tail q.not_empty) q.closing
        (record {
          queue = q;
          error = some closed;
          after = l;
          returned = refl;
          view = v;
          enqueued = refl;
          moved = omega arith;
          tokens = refl;
        })
        (subst (λ o. SendRefines true (typ, payload) l q.ring.tail q.not_empty (sent_now o))
          (sym r.returned)
          (sent_now_lem l q.ring.tail q.not_empty r.queue r.error r.after r.view r.enqueued r.moved
            r.tokens))
