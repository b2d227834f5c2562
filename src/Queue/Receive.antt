-- ===== src/Queue/Receive.antt =====
-- The receiving operations of queue.go. `ended` is what `peerErr` says before the read: the end of the peer of a
-- channel, and none for a queue of its own.
use go_ipc.Prelude.{
  ℕ, zero, suc, ◌+◌, ◌-◌, Bool, true, false, not, Option, none, some, List, [], ◌∷◌, ◌==◌,
  if◌then◌else◌,
}
use go_ipc.Errors.{Err, Result, ok, err, empty, closed, not_consumer, corrupt}
use go_ipc.Ring.{Ring}
use go_ipc.Ring.Reader.{Msg, read}
use go_ipc.Ring.Recovery.{leave, watch, disagree, reclaimable, unstall}
use go_ipc.Queue.{Queue, Outside, wake_senders}
use go_ipc.Queue.Peer.{watch_producer}
use go_ipc.Queue.Park.{park}

-- `Queue.unstall` with the watch it may start: whether a claim was reclaimed, or an error.
unfoldable pub unstall_queue : Outside → Queue → Queue × Bool × Option Err
unstall_queue out q =
    let (r, v, done) = unstall out.is_dead q.self q.ring in
    let q' = record q { ring = r } in
    elim v [
      | leave ↦ (q', false, none)
      | watch owner ↦
          let (w, e) = watch_producer out owner q.producers in
          (record q' { producers = w }, false, e)
      | disagree ↦ (q', false, some corrupt)
      | reclaimable end dead ↦ (q', done, none)
    ]

-- Freed space is announced, also where only padding was passed.
unfoldable pub after_read : Queue → Ring → Queue
unfolding wake_senders
after_read q r =
    let q' = record q { ring = r } in if r.head == q.ring.head then q' else wake_senders q'

-- The loop of `receive`: what `fn` got and the error; the count that Go returns is the length of the list.
unfoldable pub receive :
    ℕ → Outside → Option Err → ℕ → Queue → Option (Queue × List Msg × Option Err)
receive zero out ended limit q = none
receive (suc fuel) out ended limit q = elim (read limit q.ring) [
  | none ↦ none
  | some (r, msgs, e) ↦
      let q1 = after_read q r in
      let (q2, reclaimed, e2) = unstall_queue out q1 in
      let again = receive fuel out ended limit q2 in
      elim e [
        | some x ↦ some (q1, msgs, some x)
        | none ↦ elim msgs [
          | m ∷ ms ↦ some (q1, m ∷ ms, none)
          | [] ↦ elim e2 [
            | some x ↦ some (q2, [], some x)
            | none ↦
                if reclaimed
                then again
                else some (q2, [], elim ended [ some x ↦ some x | none ↦ some empty ])
          ]
        ]
      ]
]

-- `recvOne`; where the payload lies is left out.
abbrev pub one_of : Option (Queue × List Msg × Option Err) → Option (Queue × Result Msg)
one_of none = none
one_of (some (q, msgs, some e)) = some (q, err e)
one_of (some (q, [], none)) = some (q, ok (0, []))
one_of (some (q, m ∷ ms, none)) = some (q, ok m)

unfoldable pub recv_one : ℕ → Outside → Option Err → Queue → Option (Queue × Result Msg)
recv_one fuel out ended q = one_of (receive fuel out ended 1 q)

unfoldable pub try_recv : ℕ → Outside → Option Err → Queue → Option (Queue × Result Msg)
try_recv fuel out ended q =
    let got = recv_one fuel out ended q in
    if q.closing
    then some (q, err closed)
    else if not q.reader
    then some (q, err not_consumer)
    else got

abbrev pub is_empty : Err → Bool
is_empty empty = true
is_empty e = false

-- `waiters.Add` on `recvWaiters`.
abbrev pub receiver_in : Queue → Queue
receiver_in q = record q { ring = record (q.ring) { recv_waiters = q.ring.recv_waiters + 1 } }

abbrev pub receiver_out : Queue → Queue
receiver_out q = record q { ring = record (q.ring) { recv_waiters = q.ring.recv_waiters - 1 } }

-- `RecvInto`, whose `ended` is asked in each attempt; `Recv` is the same. `rounds` is a bound on those of
-- `park`, `fuel` on those of each `receive`.
unfoldable pub recv_into :
    (Queue → Queue × Option Err)
    → Outside
    → (Queue → Option Err)
    → ℕ
    → ℕ
    → Queue
    → Option (Queue × Result Msg)
recv_into wait out ended rounds fuel q =
    let done =
      park is_empty (λ p. recv_one fuel out (ended p) p) wait receiver_in receiver_out rounds q in
    if q.closing
    then some (q, err closed)
    else if not q.reader
    then some (q, err not_consumer)
    else done

-- What `park` attempts in `ReadBatch`. What `fn` got before an error is left out.
abbrev pub batch_of : Option (Queue × List Msg × Option Err) → Option (Queue × Result (List Msg))
batch_of none = none
batch_of (some (q, msgs, some e)) = some (q, err e)
batch_of (some (q, msgs, none)) = some (q, ok msgs)

unfoldable pub read_batch :
    (Queue → Queue × Option Err)
    → Outside
    → (Queue → Option Err)
    → ℕ
    → ℕ
    → ℕ
    → Queue
    → Option (Queue × Result (List Msg))
read_batch wait out ended rounds fuel limit q =
    let done =
      park is_empty (λ p. batch_of (receive fuel out (ended p) limit p)) wait receiver_in
        receiver_out rounds q in
    if q.closing
    then some (q, err closed)
    else if not q.reader
    then some (q, err not_consumer)
    else done
