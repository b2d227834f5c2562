-- ===== src/Queue/Send.antt =====
-- The sending operations of queue.go.
use go_ipc.Prelude.{ℕ, ◌+◌, ◌-◌, ◌&&◌, Bool, true, false, Option, none, some, List, if◌then◌else◌}
use go_ipc.Errors.{Err, Result, ok, err, full, closed, peer_gone}
use go_ipc.Ring.{Ring, Claim}
use go_ipc.Ring.Producer.{try_claim, try_write, commit, abort}
use go_ipc.Ring.Handles.{Handle, take_slot, put_slot}
use go_ipc.Queue.{Queue, Outside, wake_receiver}
use go_ipc.Queue.Peer.{check_peer, saw_peer_gone}
use go_ipc.Queue.Park.{park}

-- After the ring's operation the slot is idle again.
abbrev pub written : ℕ → Queue → Option (Ring × Option Err) → Option (Queue × Option Err)
written slot q none = none
written slot q (some (r, e)) = some (record q { ring = r; handle = put_slot slot q.handle }, e)

-- `Queue.write`.
unfoldable pub write : Outside → ℕ → List ℕ → Queue → Option (Queue × Option Err)
write out typ payload q =
    let (q1, gone) = check_peer out q in
    let (h, r, taken) = take_slot q1.self out.is_dead q1.handle q1.ring in
    let q2 = record q1 { handle = h; ring = r } in
    elim gone [
      | some e ↦ some (q1, some e)
      | none ↦ elim taken [
        | err e ↦ some (q2, some e)
        | ok slot ↦ written slot q2 (try_write (some slot) typ payload r)
      ]
    ]

-- A claim that failed gives its slot back.
abbrev pub claimed : ℕ → Queue → Option (Ring × Result Claim) → Option (Queue × Result Claim)
claimed slot q none = none
claimed slot q (some (r, ok c)) = some (record q { ring = r }, ok c)
claimed slot q (some (r, err e)) =
    some (record q { ring = r; handle = put_slot slot q.handle }, err e)

-- `Queue.claim`.
unfoldable pub claim : Outside → ℕ → ℕ → Queue → Option (Queue × Result Claim)
claim out typ length q =
    let (q1, gone) = check_peer out q in
    let (h, r, taken) = take_slot q1.self out.is_dead q1.handle q1.ring in
    let q2 = record q1 { handle = h; ring = r } in
    elim gone [
      | some e ↦ some (q1, err e)
      | none ↦ elim taken [
        | err e ↦ some (q2, err e)
        | ok slot ↦ claimed slot q2 (try_claim (some slot) typ length r)
      ]
    ]

-- `TrySendTyped`; `TrySend` is this with type 0.
abbrev pub sent_now : Option (Queue × Option Err) → Option (Queue × Option Err)
sent_now none = none
sent_now (some (q, some e)) = some (q, some e)
sent_now (some (q, none)) = some (wake_receiver q, none)

unfoldable pub try_send : Outside → ℕ → List ℕ → Queue → Option (Queue × Option Err)
try_send out typ payload q =
    let sent = sent_now (write out typ payload q) in
    if q.closing then some (q, some closed) else sent

abbrev pub is_full : Err → Bool
is_full full = true
is_full e = false

-- A full ring with no name behind it has no receiver left to drain it.
abbrev pub unless_unlinked : Outside → Err → Err
unless_unlinked out e = if is_full e && out.receiver_unlinked then peer_gone else e

-- What `park` attempts in `SendTyped` and in `Claim`.
abbrev pub attempted : Outside → Option (Queue × Option Err) → Option (Queue × Result (Unit {0}))
attempted out none = none
attempted out (some (q, none)) = some (q, ok tt)
attempted out (some (q, some e)) = some (q, err (unless_unlinked out e))

abbrev pub attempted_claim : Outside → Option (Queue × Result Claim) → Option (Queue × Result Claim)
attempted_claim out none = none
attempted_claim out (some (q, ok c)) = some (q, ok c)
attempted_claim out (some (q, err e)) = some (q, err (unless_unlinked out e))

-- `waiters.Add` on `sendWaiters`.
abbrev pub sender_in : Queue → Queue
sender_in q = record q { ring = record (q.ring) { send_waiters = q.ring.send_waiters + 1 } }

abbrev pub sender_out : Queue → Queue
sender_out q = record q { ring = record (q.ring) { send_waiters = q.ring.send_waiters - 1 } }

abbrev pub sent : Option (Queue × Result (Unit {0})) → Option (Queue × Option Err)
sent none = none
sent (some (q, ok u)) = some (wake_receiver q, none)
sent (some (q, err e)) = let (q', e') = saw_peer_gone e q in some (q', some e')

-- `SendTyped`; `fuel` is a bound on the rounds of `park`.
unfoldable pub send_typed :
    (Queue → Queue × Option Err) → Outside → ℕ → ℕ → List ℕ → Queue → Option (Queue × Option Err)
send_typed wait out fuel typ payload q =
    let done = sent (
      park is_full (λ p. attempted out (write out typ payload p)) wait sender_in sender_out fuel
        q) in
    if q.closing then some (q, some closed) else done

abbrev pub got_claim : Option (Queue × Result Claim) → Option (Queue × Result Claim)
got_claim none = none
got_claim (some (q, ok c)) = some (q, ok c)
got_claim (some (q, err e)) = let (q', e') = saw_peer_gone e q in some (q', err e')

-- `Queue.Claim`.
unfoldable pub claim_typed :
    (Queue → Queue × Option Err) → Outside → ℕ → ℕ → ℕ → Queue → Option (Queue × Result Claim)
claim_typed wait out fuel typ length q =
    let done = got_claim (
      park is_full (λ p. attempted_claim out (claim out typ length p)) wait sender_in sender_out
        fuel q) in
    if q.closing then some (q, err closed) else done

-- The slot of a claim that a queue made.
abbrev slot_back : Option ℕ → Handle → Handle
slot_back none h = h
slot_back (some slot) h = put_slot slot h

-- `Queue.Commit` and `Queue.Abort`.
unfoldable pub commit_claim : Claim → Queue → Queue
unfolding wake_receiver commit put_slot
commit_claim c q =
    if q.closing
    then q
    else wake_receiver (record q { ring = commit c q.ring; handle = slot_back c.slot q.handle })

unfoldable pub abort_claim : Claim → Queue → Queue
unfolding wake_receiver abort put_slot
abort_claim c q =
    if q.closing
    then q
    else wake_receiver (record q { ring = abort c q.ring; handle = slot_back c.slot q.handle })
