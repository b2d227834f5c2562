-- ===== src/Queue/Peer.antt =====
-- queue_peer.go: how a sender learns that the receiver is gone, and how the receiver watches producers.
use go_ipc.Prelude.{
  ℕ, ◌+◌, Bool, true, false, not, ◌||◌, Option, none, some, List, [], ◌∷◌, ◌==◌, if◌then◌else◌,
}
use go_ipc.Errors.{Err, peer_gone, other}
use go_ipc.Ring.Recovery.{watchable}
use go_ipc.Queue.{PeerWatch, ProducerWatch, Queue, Outside, wake_senders}

abbrev pub no_proc : ℕ
no_proc = 0

abbrev pub pending_proc : ℕ
pending_proc = 1

-- `peerWatch.state`; the wrapping of the error of a failed watch is left out.
unfoldable pub watch_state : PeerWatch → Option Err
watch_state w =
    if not w.gone then none else elim w.failed [ some e ↦ some e | none ↦ some peer_gone ]

unfoldable pub watch_peer : Outside → ℕ → PeerWatch → PeerWatch × Option Err
unfolding watch_state
watch_peer out id w =
    let w' = record w { failed = none; armed = false; gone = out.is_dead id; id = id } in
    if w.id == id
    then (w, watch_state w)
    else if out.is_dead id
    then (w', some peer_gone)
    else elim (out.on_exit id) [
      | some e ↦ (record w' { id = 0 }, some e)
      | none ↦ (record w' { armed = true }, none)
    ]

unfoldable pub check_peer : Outside → Queue → Queue × Option Err
unfolding watch_state watch_peer
check_peer out q =
    let id = q.ring.consumer in
    let (w, e) = watch_peer out id q.watch in
    if id == no_proc
    then (q, some peer_gone)
    else if id == pending_proc || id == q.self
    then (q, none)
    else if not (watchable id)
    then (q, none)
    else if q.watch.id == id
    then (q, watch_state q.watch)
    else (record q { watch = w }, e)

-- `sawPeerGone`.
unfoldable pub saw_peer_gone : Err → Queue → Queue × Err
saw_peer_gone peer_gone q = (record q { watch = record (q.watch) { gone = true } }, peer_gone)
saw_peer_gone (other n) q =
    if n == 2
    then (record q { watch = record (q.watch) { gone = true } }, peer_gone)
    else (q, other n)
saw_peer_gone e q = (q, e)

-- `peerExited`: the kernel says that process `id` is gone, or that the wait on it failed.
unfoldable pub peer_exited : ℕ → Option Err → Queue → Queue
unfolding wake_senders
peer_exited id e q =
    let failed : Option Err = elim e [ some x ↦ some x | none ↦ q.watch.failed ] in
    let q' =
      wake_senders (record q { watch = record (q.watch) { failed = failed; gone = true } }) in
    if q.closing then q else if not (q.watch.id == id) then q else record q' { told = q'.told + 1 }

unfoldable pub is_watched : ℕ → List ℕ → Bool
is_watched id [] = false
is_watched id (w ∷ ws) = let rest = is_watched id ws in w == id || rest

unfoldable pub watch_producer : Outside → ℕ → ProducerWatch → ProducerWatch × Option Err
unfolding is_watched
watch_producer out id w = if w.stopped then (w, none) else elim w.failed [
  | some e ↦ (w, some e)
  | none ↦ if is_watched id w.watched then (w, none) else elim (out.on_exit id) [
    | some e ↦ (w, some e)
    | none ↦ (record w { watched = id ∷ w.watched }, none)
  ]
]

-- `delete(q.producers.cancels, id)`.
unfoldable pub unwatch : ℕ → List ℕ → List ℕ
unwatch id [] = []
unwatch id (w ∷ ws) = let rest = unwatch id ws in if w == id then rest else w ∷ rest

unfoldable pub producer_exited : ℕ → Option Err → Queue → Queue
unfolding unwatch
producer_exited id e q =
    let failed : Option Err = elim (q.producers.failed) [ some x ↦ some x | none ↦ e ] in
    let w = record (q.producers) { watched = unwatch id q.producers.watched; failed = failed } in
    if q.closing then q else record q { producers = w; not_empty = q.not_empty + 1 }
