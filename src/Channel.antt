-- ===== src/Channel.antt =====
-- channel.go: a channel is two queues, one in each direction. The operations not given here are those of the queue
-- they call. `tx` and `rx` are as `createQueue` and `openQueue` make them.
pub mod Closed
mod Tests
use go_ipc.Prelude.{
  ℕ, ◌+◌, Bool, true, false, not, ◌||◌, Option, none, some, List, [], ◌∷◌, ◌==◌, if◌then◌else◌,
}
use go_ipc.Errors.{Err, Result, ok, err, in_use}
use go_ipc.Ring.Reader.{Msg}
use go_ipc.Queue.{Queue, Outside, wake_senders}
use go_ipc.Queue.Peer.{pending_proc, check_peer}
use go_ipc.Queue.Send.{try_send}
use go_ipc.Queue.Receive.{try_recv}
use go_ipc.Queue.Closing
use go_ipc.Queue.Closing.{first_error}

pub record Channel : Type 0 where
  pub tx : Queue
  pub rx : Queue
  pub owner : Bool

-- `notEmpty.Signal`, which does nothing once the handle has closed its events.
abbrev pub signal : Queue → Queue
signal q = if q.closing then q else record q { not_empty = q.not_empty + 1 }

-- `OpenChannel` behind the opens of the queues: this process takes the direction that has no reader yet.
unfoldable pub open_channel : Queue → Queue → Result Channel
unfolding wake_senders
open_channel tx rx =
    let taken = record rx { ring = record (rx.ring) { consumer = rx.self }; reader = true } in
    if rx.ring.consumer == pending_proc
    then ok (record { tx = signal tx; rx = wake_senders taken; owner = false })
    else err in_use

-- `Channel.TrySendTyped`.
abbrev pub sent_on : Channel → Option (Queue × Option Err) → Option (Channel × Option Err)
sent_on c none = none
sent_on c (some (q, e)) = some (record c { tx = q }, e)

unfoldable pub send : Outside → ℕ → List ℕ → Channel → Option (Channel × Option Err)
send out typ payload c = sent_on c (try_send out typ payload c.tx)

-- `Channel.TryRecv`: `newChannel` makes `peerErr` of a queue that receives the check of the peer of the other.
abbrev pub received_on : Channel → Option (Queue × Result Msg) → Option (Channel × Result Msg)
received_on c none = none
received_on c (some (q, r)) = some (record c { rx = q }, r)

unfoldable pub recv : ℕ → Outside → Channel → Option (Channel × Result Msg)
recv fuel out c =
    let (tx, ended) = check_peer out c.tx in
    let c' = if c.rx.closing || not c.rx.reader then c else record c { tx = tx } in
    received_on c' (try_recv fuel out ended c.rx)

-- `Channel.Close`: the receiving end first, then a signal to a peer that waits, and the sending end.
unfoldable pub close : (rx_errors tx_errors : List (Option Err)) → Channel → Channel × Option Err
close rx_errors tx_errors c =
    let (rx, e1) = Closing.close rx_errors c.rx in
    let (tx, e2) = Closing.close tx_errors (signal c.tx) in
    (record c { rx = rx; tx = tx }, first_error (e1 ∷ e2 ∷ []))
