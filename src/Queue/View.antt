-- ===== src/Queue/View.antt =====
-- The abstract queue: a list of messages, and what sending and receiving do to it.
use go_ipc.Prelude.{
  ℕ, ◌+◌, ◌^◌, ◌≤◌, ◌≡◌, ◌⊎◌, Bool, true, ltb, if◌then◌else◌, Option, none, some, List, [], ◌∷◌,
  ◌++◌, All,
}
use go_ipc.Errors.{Err, Result, ok, err, closed, not_consumer}
use go_ipc.Ring.Reader.{Msg}
use go_ipc.Ring.Records.{Record, IsRing}
use go_ipc.Ring.History.{pending, IsClosed}
use go_ipc.Queue.{Queue}

-- The queue holds the messages `l`, and no claim is open in it.
pub record IsView (q : Queue) (l : List Msg) : Type 0 where
  pub records : List Record
  pub valid : IsRing q.ring records
  pub closed : All IsClosed records
  pub shows : pending records ≡ l
  pub small : q.ring.capacity ≤ 2 ^ 31

-- A message is put at the end, or refused.
abbrev pub Enqueued : Msg → List Msg → Option Err → List Msg → Type 0
Enqueued msg l none l' = l' ≡ l ++ (msg ∷ [])
Enqueued msg l (some e) l' = l' ≡ l

-- The first message is taken, or there is an error. Only a handle that may not receive gives one beside a message.
abbrev pub Dequeued : List Msg → Result Msg → List Msg → Type 0
Dequeued l (ok m) l' = l ≡ m ∷ l'
Dequeued l (err e) l' = (l' ≡ l) × ((e ≡ closed) ⊎ ((e ≡ not_consumer) ⊎ (l ≡ [])))

-- The tokens of an event that had `n`, after a call that wakes, when it does not fail, the party of which
-- `waiters` are parked.
abbrev pub tokens_after : (wakes : Bool) (n waiters : ℕ) → Option Err → ℕ
tokens_after true n waiters none = if ltb 0 waiters then n + 1 else n
tokens_after wakes n waiters e = n

-- What a send of `msg` gives on a queue that holds `l`, with its tail at `tail` and `n` tokens for the receiver.
pub record SendRefines (wakes : Bool) (msg : Msg) (l : List Msg) (tail n : ℕ)
    (o : Option (Queue × Option Err)) : Type 0 where
  pub queue : Queue
  pub error : Option Err
  pub after : List Msg
  pub returned : o ≡ some (queue, error)
  pub view : IsView queue after
  pub enqueued : Enqueued msg l error after
  pub moved : queue.ring.tail ≤ tail + 2 ^ 32
  pub tokens : queue.not_empty ≡ tokens_after wakes n queue.ring.recv_waiters error

-- What a receive gives on a queue that holds `l`.
pub record RecvRefines (l : List Msg) (tail : ℕ) (o : Option (Queue × Result Msg)) : Type 0 where
  pub queue : Queue
  pub result : Result Msg
  pub after : List Msg
  pub returned : o ≡ some (queue, result)
  pub view : IsView queue after
  pub dequeued : Dequeued l result after
  pub still : queue.ring.tail ≡ tail
