-- ===== src/Queue/Drains.antt =====
-- The receiving operations of a queue do what those of the abstract queue do.
use go_ipc.Prelude.{
  ℕ, suc, ◌^◌, ◌≤◌, ◌≡◌, ◌⊎◌, inl, inr, Bool, true, false, not, Option, none, some, List, [], ◌∷◌,
  ◌++◌, All, length, refl, sym, ◌∙◌, ap, subst, arith, ltb, ◌==◌, if◌then◌else◌, if_both,
}
use go_ipc.Errors.{Err, ok, err, empty, closed, not_consumer, corrupt}
use go_ipc.Ring.{Ring}
use go_ipc.Ring.Reader.{Msg}
use go_ipc.Ring.Records.{Record, blank, claimed, filled, message, padding, IsRing, Chain}
use go_ipc.Memory.Laws.{tape}
use go_ipc.Ring.Reading.{ready}
use go_ipc.Ring.Reading.Whole.{read_lem}
use go_ipc.Ring.History.{pending, IsClosed}
use go_ipc.Ring.History.Calls.{ready-pending}
use go_ipc.Ring.Recovery.{Verdict, leave, watch, disagree, reclaimable, stalled, unstall}
use go_ipc.Queue.{Queue, Outside, wake_senders}
use go_ipc.Queue.Peer.{watch_producer}
use go_ipc.Queue.Receive.{after_read, unstall_queue, receive, one_of, recv_one, try_recv}
use go_ipc.Queue.View.{IsView, RecvRefines}

-- Where no message is ready and no claim is open, nothing is left.
pub ready-none :
    (n : ℕ) (xs : List Record)
    → All IsClosed xs
    → (ready (suc n) xs).0 ≡ []
    → (ready (suc n) xs).1 ≡ []
unfolding ready
ready-none n [] h e = refl
ready-none n (blank size ∷ xs) h e = absurd h.0
ready-none n (claimed len typ ∷ xs) h e = absurd h.0
ready-none n (filled typ payload ∷ xs) h e = absurd h.0
ready-none n (message typ payload ∷ xs) h e = cc
ready-none n (padding len ∷ xs) h e = ready-none n xs h.1 e

stalled-drained : (r : Ring) → r.head ≡ r.tail → stalled r ≡ none
unfolding stalled
stalled-drained r e = let b : (r.head == r.tail) ≡ true = ground (arith, e) in rw b refl

unstall-drained :
    (dead : ℕ → Bool) (self : ℕ) (r : Ring)
    → r.head ≡ r.tail
    → unstall dead self r ≡ (r, leave, false)
unfolding unstall
unstall-drained dead self r e = rw (stalled-drained r e, unstall) refl

module _ (out : Outside) where
  -- What `unstall` does with a verdict.
  abbrev settled : Queue → Ring × Verdict × Bool → Queue × Bool × Option Err
  settled q t =
      let q' = record q { ring = t.0 } in
      elim (t.1) [
        | leave ↦ (q', false, none)
        | watch owner ↦
            let (w, e) = watch_producer out owner q.producers in
            (record q' { producers = w }, false, e)
        | disagree ↦ (q', false, some corrupt)
        | reclaimable end dead ↦ (q', t.2, none)
      ]

  unstall_queue-drained :
      (q : Queue) → q.ring.head ≡ q.ring.tail → unstall_queue out q ≡ (q, false, none)
  unfolding unstall_queue
  unstall_queue-drained q e = ap (settled q) (unstall-drained out.is_dead q.self q.ring e)

  after_read-ring : (q : Queue) (r : Ring) → (after_read q r).ring ≡ r
  unfolding after_read wake_senders
  after_read-ring q r =
      if_both (λ (p : Queue). p.ring ≡ r) (r.head == q.ring.head) refl
        (if_both (λ (p : Queue). p.ring ≡ r) (ltb 0 r.send_waiters) refl refl)

  IsView-of :
      (p : Queue) (r : Ring) (xs : List Record)
      → p.ring ≡ r
      → IsRing r xs
      → All IsClosed xs
      → r.capacity ≤ 2 ^ 31
      → IsView p (pending xs)
  IsView-of p r xs e v h small = record {
    records = xs;
    valid = subst (λ (x : Ring). IsRing x xs) (sym e) v;
    closed = h;
    shows = refl;
    small = subst (λ (x : Ring). x.capacity ≤ 2 ^ 31) (sym e) small;
  }

  abbrev pub end_of : Option Err → Option Err
  end_of ended = elim ended [ some x ↦ some x | none ↦ some empty ]

  -- The end of a round, from what was read.
  abbrev round_end :
      (Queue → Option (Queue × List Msg × Option Err))
      → Option Err
      → Queue × Bool × Option Err
      → Option (Queue × List Msg × Option Err)
  round_end again ended t = elim (t.2) [
    | some x ↦ some (t.0, [], some x)
    | none ↦ if t.1 then again (t.0) else some (t.0, [], end_of ended)
  ]

  abbrev pub why : Option Err → Err
  why ended = elim ended [ some x ↦ x | none ↦ empty ]

  pub end_of-some : (ended : Option Err) → end_of ended ≡ some (why ended)
  end_of-some none = refl
  end_of-some (some x) = refl

  settle :
      (again : Queue → Option (Queue × List Msg × Option Err)) (ended : Option Err)
      (msgs : List Msg) (q : Queue)
      → (msgs ≡ [] → q.ring.head ≡ q.ring.tail)
      → elim msgs as (λ _. Option (Queue × List Msg × Option Err)) [
        | m ∷ ms ↦ some (q, m ∷ ms, none)
        | [] ↦ round_end again ended (unstall_queue out q)
      ]
        ≡ some (q, msgs, elim msgs [ [] ↦ end_of ended | _ ∷ _ ↦ none ])
  settle again ended [] q h = ap (round_end again ended) (unstall_queue-drained q (h refl))
  settle again ended (m ∷ ms) q h = refl

  -- What `receive` gives with room for `limit` messages, one at least.
  pub receive_lem :
      (fuel n : ℕ) (ended : Option Err) (l : List Msg) (q : Queue) (v : IsView q l)
      → let (msgs, rest) = ready (suc n) v.records in
        (p : Queue) × (receive (suc fuel) out ended (suc n) q
          ≡ some (p, msgs, elim msgs [ [] ↦ end_of ended | _ ∷ _ ↦ none ]))
        × IsView p (pending rest)
        × (p.ring.tail ≡ q.ring.tail)
  unfolding receive
  receive_lem fuel n ended l q v =
      let (r, e, v', tl, cp) = read_lem v.valid (suc n) in
      let (same, k) = ready-pending (suc n) v.records v.closed in
      let q1 = after_read q r in
      let at = after_read-ring q r in
      let drained : (ready (suc n) v.records).0 ≡ [] → r.head ≡ r.tail = λ none_ready.
        subst (λ xs. Chain r.capacity (tape r.capacity r.bytes) r.head xs r.tail)
          (ready-none n v.records v.closed none_ready) v'.chain in
      (
        q1,
        rw (e, receive)
            (settle (receive fuel out ended (suc n)) ended (ready (suc n) v.records).0 q1
              (λ none_ready. subst (λ (x : Ring). x.head ≡ x.tail) (sym at) (drained none_ready))),
        IsView-of q1 r (ready (suc n) v.records).1 at v' k (omega (arith, cp, v.small)),
        ap (λ (x : Ring). x.tail) at ∙ tl,
      )

  abbrev refused_recv :
      (l : List Msg) (q : Queue) (e : Err)
      → (e ≡ closed) ⊎ ((e ≡ not_consumer) ⊎ (l ≡ []))
      → IsView q l
      → RecvRefines l q.ring.tail (some (q, err e))
  refused_recv l q e none_left v = record {
    queue = q;
    result = err e;
    after = l;
    returned = refl;
    view = v;
    dequeued = (refl, none_left);
    still = refl;
  }

  received_one :
      (l : List Msg) (tail : ℕ) (p : Queue) (msgs l' : List Msg)
      → IsView p l'
      → l ≡ msgs ++ l'
      → (msgs ≡ [] → l' ≡ [])
      → length msgs ≤ 1
      → p.ring.tail ≡ tail
      → (e : Err)
      → RecvRefines l tail (one_of (some (p, msgs, elim msgs [ [] ↦ some e | _ ∷ _ ↦ none ])))
  received_one l tail p [] l' v split drained one t e = record {
    queue = p;
    result = err e;
    after = l';
    returned = refl;
    view = v;
    dequeued = (sym split, inr (inr (split ∙ drained refl)));
    still = t;
  }
  received_one l tail p (m ∷ []) l' v split drained one t e = record {
    queue = p;
    result = ok m;
    after = l';
    returned = refl;
    view = v;
    dequeued = split;
    still = t;
  }
  received_one l tail p (m ∷ m2 ∷ ms) l' v split drained one t e = absurd (omega (arith, one))

ready-zero : (ys : List Record) → ready 0 ys ≡ ([], ys)
unfolding ready
ready-zero [] = refl
ready-zero (y ∷ ys) = refl

pub ready-one : (xs : List Record) → length ((ready 1 xs).0) ≤ 1
unfolding ready
ready-one [] = omega arith
ready-one (blank size ∷ xs) = omega arith
ready-one (claimed len typ ∷ xs) = omega arith
ready-one (filled typ payload ∷ xs) = omega arith
ready-one (message typ payload ∷ xs) = rw (ready-zero xs) (omega arith)
ready-one (padding len ∷ xs) = ready-one xs

-- `TryRecv` returns, and either takes the first message that the queue holds, or gives an error and leaves the
-- messages as they are; beside a message the only errors are `ErrClosed` and `ErrNotConsumer`. No claim is open in
-- the queue and its capacity is at most 2 ^ 31.
pub try_recv_refines :
    (out : Outside) (fuel : ℕ) (ended : Option Err) (l : List Msg) (q : Queue)
    → IsView q l
    → RecvRefines l q.ring.tail (try_recv (suc fuel) out ended q)
unfolding try_recv recv_one
try_recv_refines out fuel ended l q v =
    let (p, e, v', t) = receive_lem out fuel 0 ended l q v in
    let (same, k) = ready-pending 1 v.records v.closed in
    let taken = (ready 1 v.records).0 in
    let got =
      received_one out l q.ring.tail p taken (pending (ready 1 v.records).1) v'
        (sym (same ∙ v.shows))
        (λ none_ready. ap pending (ready-none 0 v.records v.closed none_ready))
        (ready-one v.records) t (why out ended) in
    if_both (RecvRefines l q.ring.tail) q.closing (refused_recv out l q closed (inl refl) v) (
      if_both (RecvRefines l q.ring.tail) (not q.reader)
        (refused_recv out l q not_consumer (inr (inl refl)) v)
        (subst (λ o. RecvRefines l q.ring.tail (one_of o)) (sym e)
          (subst
            (λ x.
              RecvRefines l q.ring.tail
                (one_of (some (p, taken, elim taken [ [] ↦ x | _ ∷ _ ↦ none ]))))
            (sym (end_of-some out ended)) got)))
