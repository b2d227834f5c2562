-- ===== src/Queue/Closing.antt =====
-- `Queue.Close` of queue.go, once no operation is inside (the gate is modelled on its own). `errors` are those of the
-- closes of the two events and the segment and of the release of the lock, in that order.
use go_ipc.Prelude.{ℕ, true, false, Option, none, some, List, [], ◌∷◌, ◌==◌, if◌then◌else◌}
use go_ipc.Errors.{Err, closed}
use go_ipc.Ring.{Ring}
use go_ipc.Ring.Recovery.{drop_slot}
use go_ipc.Queue.{Queue, PeerWatch, ProducerWatch, wake_senders}
use go_ipc.Queue.Peer.{no_proc}

-- `peerWatch.stop` and `producerWatch.stop`.
abbrev pub stop_peer : PeerWatch → PeerWatch
stop_peer w = record w { armed = false }

abbrev pub stop_producers : ProducerWatch → ProducerWatch
stop_producers w = record w { watched = []; stopped = true }

-- The receiving end goes first.
unfoldable pub leave_ring : Queue → Queue
unfolding wake_senders
leave_ring q =
    let consumer = if q.ring.consumer == q.self then no_proc else q.ring.consumer in
    if q.reader
    then wake_senders (record q { ring = record (q.ring) { consumer = consumer } })
    else q

unfoldable pub drop_slots : ℕ → List ℕ → Ring → Ring
drop_slots self [] r = r
drop_slots self (i ∷ is) r = drop_slots self is (drop_slot self i r)

abbrev pub first_error : List (Option Err) → Option Err
first_error [] = none
first_error (none ∷ es) = first_error es
first_error (some e ∷ es) = some e

-- `Close`.
unfoldable pub close : List (Option Err) → Queue → Queue × Option Err
unfolding leave_ring drop_slots
close errors q =
    let q' = leave_ring q in
    if q.closing then (q, some closed) else (
      record q' {
        closing = true;
        watch = stop_peer q'.watch;
        producers = stop_producers q'.producers;
        ring = drop_slots q'.self q'.handle.owned q'.ring;
        handle = record { idle = []; owned = [] };
      },
      first_error errors,
    )
