-- ===== src/Queue.antt =====
-- queue.go and queue_peer.go: a named queue over a ring, as one process holds it. The fields of the Go struct
-- that are locks, names and mappings are left out: each operation here is one that has them.
pub mod Peer
pub mod Park
pub mod Send
pub mod Receive
pub mod View
pub mod Writes
pub mod Refines
pub mod Drains
pub mod Closing
pub mod Ends
pub mod Rounds
pub mod Wakeup
mod Tests
use go_ipc.Prelude.{ℕ, ◌+◌, ◌^◌, Bool, Option, none, some, List, [], ltb, if◌then◌else◌}
use go_ipc.Errors.{Err, other}
use go_ipc.Ring.{Ring}
use go_ipc.Ring.Handles.{Handle}

-- `peerWatch`: the receiver that is watched, whether it is gone, why the watch failed, and whether a kernel
-- wait runs for it.
pub record PeerWatch : Type 0 where
  pub id : ℕ
  pub gone : Bool
  pub failed : Option Err
  pub armed : Bool

-- `producerWatch`: the producers that are watched.
pub record ProducerWatch : Type 0 where
  pub watched : List ℕ
  pub stopped : Bool
  pub failed : Option Err

-- `Queue`. `not_empty` and `not_full` count the tokens that were signaled on the two events, `told` how often
-- the callbacks of `onPeerGone` ran.
pub record Queue : Type 0 where
  pub ring : Ring
  pub handle : Handle
  pub self : ℕ
  pub reader : Bool
  pub closing : Bool
  pub watch : PeerWatch
  pub producers : ProducerWatch
  pub not_empty : ℕ
  pub not_full : ℕ
  pub told : ℕ

-- What a queue asks of the system: `isDead`, the error of `onExit`, and `receiverUnlinked`.
pub record Outside : Type 0 where
  pub is_dead : ℕ → Bool
  pub on_exit : ℕ → Option Err
  pub receiver_unlinked : Bool

-- `fs.ErrNotExist`.
abbrev pub not_exist : Err
not_exist = other 2

-- `wakeReceiver`: a system call only when a receiver is parked.
unfoldable pub wake_receiver : Queue → Queue
wake_receiver q = if ltb 0 q.ring.recv_waiters then record q { not_empty = q.not_empty + 1 } else q

-- `wakeSenders`.
unfoldable pub wake_senders : Queue → Queue
wake_senders q =
    if ltb 0 q.ring.send_waiters
    then record q { not_full = q.not_full + q.ring.send_waiters }
    else q
