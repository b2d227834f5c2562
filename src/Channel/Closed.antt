-- ===== src/Channel/Closed.antt =====
-- What a channel receives once its peer has closed.
use go_ipc.Prelude.{
  ℕ, suc, ◌≤◌, ◌≡◌, true, false, not, ◌||◌, Option, none, some, List, [], ◌∷◌, ◌++◌, length, ◌==◌,
  if◌then◌else◌, if_cases, refl, sym, ◌∙◌, ap, subst, arith,
}
use go_ipc.Errors.{Err, Result, ok, err, peer_gone}
use go_ipc.Ring.{Ring}
use go_ipc.Ring.Reader.{Msg}
use go_ipc.Ring.Reading.{ready}
use go_ipc.Ring.History.{pending}
use go_ipc.Ring.History.Calls.{ready-pending}
use go_ipc.Queue.{Queue, Outside}
use go_ipc.Queue.Peer.{check_peer}
use go_ipc.Queue.Receive.{one_of, recv_one, try_recv}
use go_ipc.Queue.View.{IsView}
use go_ipc.Queue.Drains.{why, end_of-some, ready-none, ready-one, receive_lem}
use go_ipc.Queue.Ends.{close-consumer}
use go_ipc.Channel.{Channel, received_on, recv, close}

-- What a receiver gets of the messages `l`, and what it leaves.
abbrev pub first_of : Err → List Msg → Result Msg
first_of e [] = err e
first_of e (m ∷ l) = ok m

abbrev pub rest_of : List Msg → List Msg
rest_of [] = []
rest_of (m ∷ l) = l

exact :
    (l : List Msg) (p : Queue) (msgs l' : List Msg) (e : Err)
    → IsView p l'
    → l ≡ msgs ++ l'
    → (msgs ≡ [] → l' ≡ [])
    → length msgs ≤ 1
    → (one_of (some (p, msgs, elim msgs [ [] ↦ some e | _ ∷ _ ↦ none ])) ≡ some (p, first_of e l))
      × IsView p (rest_of l)
exact l p [] l' e v split drained one =
    let none_left : l ≡ [] = split ∙ drained refl in
    (
      ap (λ k. some (p, first_of e k)) (sym none_left),
      subst (IsView p) (drained refl ∙ ap rest_of (sym none_left)) v,
    )
exact l p (m ∷ []) l' e v split drained one =
    (ap (λ k. some (p, first_of e k)) (sym split), subst (IsView p) (ap rest_of (sym split)) v)
exact l p (m ∷ m2 ∷ ms) l' e v split drained one = absurd (omega (arith, one))

try_recv-open :
    (out : Outside) (fuel : ℕ) (ended : Option Err) (l : List Msg) (q : Queue)
    → IsView q l
    → q.closing ≡ false
    → q.reader ≡ true
    → (p : Queue) × (try_recv (suc fuel) out ended q ≡ some (p, first_of (why out ended) l))
      × IsView p (rest_of l)
unfolding try_recv recv_one
try_recv-open out fuel ended l q v running reads =
    let (p, e, v', t) = receive_lem out fuel 0 ended l q v in
    let (same, k) = ready-pending 1 v.records v.closed in
    let taken = (ready 1 v.records).0 in
    let (g, w) =
      exact l p taken (pending (ready 1 v.records).1) (why out ended) v' (sym (same ∙ v.shows))
        (λ none_ready. ap pending (ready-none 0 v.records v.closed none_ready))
        (ready-one v.records) in
    (
      p,
      if_cases (λ o. o ≡ some (p, first_of (why out ended) l)) q.closing (λ c. absurd cc)
          (λ _.
            if_cases (λ o. o ≡ some (p, first_of (why out ended) l)) (not q.reader)
              (λ c. let f : not q.reader ≡ false = ap not reads in absurd cc)
              (λ _.
                ap one_of e
                ∙ ap (λ x. one_of (some (p, taken, elim taken [ [] ↦ x | _ ∷ _ ↦ none ])))
                    (end_of-some out ended)
                ∙ g)),
      w,
    )

-- After the peer has closed its channel, `TryRecv` still gives the messages that are left, the first one first, and
-- once there is none it gives `ErrPeerGone`. The peer was open and the consumer of the direction it received on; this
-- side is open, and no claim is open in what it receives.
pub recv-close :
    (rx_errors tx_errors : List (Option Err)) (peer c : Channel) (out : Outside) (fuel : ℕ)
    (l : List Msg)
    → peer.rx.reader ≡ true
    → peer.rx.closing ≡ false
    → peer.rx.ring.consumer ≡ peer.rx.self
    → c.tx.ring ≡ (close rx_errors tx_errors peer).0.rx.ring
    → IsView c.rx l
    → c.rx.closing ≡ false
    → c.rx.reader ≡ true
    → (c' : Channel) × (recv (suc fuel) out c ≡ some (c', first_of peer_gone l))
      × IsView c'.rx (rest_of l)
unfolding recv close check_peer
recv-close rx_errors tx_errors peer c out fuel l reads running owns same v here mine =
    let gone : c.tx.ring.consumer ≡ 0 =
      ap (λ (x : Ring). x.consumer) same ∙ close-consumer rx_errors peer.rx reads running owns in
    let b : (c.tx.ring.consumer == 0) ≡ true = ground (arith, gone) in
    let e : check_peer out c.tx ≡ (c.tx, some peer_gone) = rw (check_peer, b) refl in
    let (p, got, w) = try_recv-open out fuel (some peer_gone) l c.rx v here mine in
    let left : Queue → Channel =
      λ tx. if c.rx.closing || not c.rx.reader then c else record c { tx = tx } in
    let after : Queue × Option Err → Option (Channel × Result Msg) =
      λ t. received_on (left t.0) (try_recv (suc fuel) out t.1 c.rx) in
    (record (left c.tx) { rx = p }, ap after e ∙ ap (received_on (left c.tx)) got, w)
