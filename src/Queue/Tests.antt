-- ===== src/Queue/Tests.antt =====
-- Tests of the queue model: its theorems at a queue over a ring of 4096 bytes.
use go_ipc.Prelude.{◌≤◌, ◌<◌, ◌≡◌, All, true, false, none, some, [], ◌∷◌, refl, arith}
use go_ipc.Ring.{fresh_ring}
use go_ipc.Ring.Records.{IsRing}
use go_ipc.Ring.Layout.Sizes.{fresh_ring-IsRing}
use go_ipc.Queue.{Queue, Outside}
use go_ipc.Queue.Send.{try_send}
use go_ipc.Queue.Receive.{try_recv}
use go_ipc.Errors.{peer_gone}
use go_ipc.Queue.Closing.{close}
use go_ipc.Queue.Ends.{IsLeft, close_lem}
use go_ipc.Queue.Wakeup.{
  Wakeup, state, message, commits, behind, attempt, waiting, Reached, started, claimed, settled,
  sender, sees_nobody, sees_waiter, receiver, misses, announces, waits, step, none_more, IsWoken,
  wake_up-IsWoken,
}
use go_ipc.Queue.View.{IsView, SendRefines, RecvRefines}
use go_ipc.Queue.Refines.{try_send_refines}
use go_ipc.Queue.Drains.{try_recv_refines}

abbrev small_queue : Queue
small_queue = record {
  ring = record (fresh_ring 4096 0) { recv_waiters = 1; consumer = 5 };
  handle = record { idle = []; owned = [] };
  self = 5;
  reader = true;
  closing = false;
  watch = record { id = 0; gone = false; failed = none; armed = false };
  producers = record { watched = []; stopped = false; failed = none };
  not_empty = 0;
  not_full = 0;
  told = 0;
}

abbrev alive : Outside
alive = record { is_dead = λ id. false; on_exit = λ id. none; receiver_unlinked = false }

base : IsRing (fresh_ring 4096 0) []
base = fresh_ring-IsRing 4096 0 (omega arith) refl (omega arith)

small_queue-IsView : IsView small_queue []
small_queue-IsView = record {
  records = [];
  valid = record {
    large = base.large;
    whole = base.whole;
    small = base.small;
    head_aligned = base.head_aligned;
    chain = base.chain;
    room = base.room;
    cached = base.cached;
    fits = base.fits;
    clean = base.clean;
  };
  closed = tt;
  shows = refl;
  small = omega arith;
}

try_send_refines_example :
    SendRefines true (7, 1 ∷ 2 ∷ []) [] 0 0 (try_send alive 7 (1 ∷ 2 ∷ []) small_queue)
try_send_refines_example =
    try_send_refines alive 7 (1 ∷ 2 ∷ []) (omega arith) [] small_queue small_queue-IsView
      (omega arith)

one_sent : SendRefines true (7, 1 ∷ 2 ∷ []) [] 0 0 (try_send alive 7 (1 ∷ 2 ∷ []) small_queue)
one_sent =
    try_send_refines alive 7 (1 ∷ 2 ∷ []) (omega arith) [] small_queue small_queue-IsView
      (omega arith)

try_recv_refines_example :
    RecvRefines one_sent.after one_sent.queue.ring.tail (try_recv 1 alive none one_sent.queue)
try_recv_refines_example = try_recv_refines alive 0 none one_sent.after one_sent.queue one_sent.view

-- The second of two claims is committed, which the receiver cannot read, and waits. Then the first is.
late_message : Reached (state (message ∷ message ∷ []) 1 0 1 0 waiting)
unfolding attempt
late_message =
    let open_ones = claimed (claimed started) in
    let blocked = sender (settled open_ones (behind commits)) sees_nobody in
    let waits_there = receiver (receiver (receiver blocked (misses refl)) announces) (waits refl) in
    settled waits_there commits

abbrev signaled_next : Wakeup
signaled_next = state (message ∷ message ∷ []) 1 0 0 1 waiting

readable_now : (attempt (message ∷ message ∷ [])).1 ≡ true
unfolding attempt
readable_now = refl

wake_up-IsWoken_example : (1 ≤ 2) × (0 < 1) × IsWoken signaled_next
wake_up-IsWoken_example =
    wake_up-IsWoken {s = signaled_next} late_message readable_now (step sees_waiter none_more)

abbrev receiving_end : Queue
receiving_end = record small_queue {
  ring = record (small_queue.ring) { slots = record { owner = 5; at = 64; size = 16 } ∷ [] };
  handle = record { idle = []; owned = 0 ∷ [] };
}

abbrev other_end : Queue
other_end = record small_queue { ring = (close [] receiving_end).0.ring; self = 9; reader = false }

close_lem_example :
    (try_send alive 7 (1 ∷ []) other_end ≡ some (other_end, some peer_gone))
    × All (IsLeft 5 (close [] receiving_end).0.ring.slots) (0 ∷ [])
close_lem_example =
    close_lem [] receiving_end alive 7 (1 ∷ []) other_end refl refl refl (omega arith) refl refl
