-- ===== src/Ring/History/Order.antt =====
-- A history loses no message, repeats none and keeps their order.
use go_ipc.Prelude.{
  ◌+◌, ◌*◌, ◌^◌, ◌≤◌, ◌<◌, ◌≡◌, Option, none, some, List, [], ◌∷◌, ◌++◌, append-nil, append_assoc,
  refl, sym, ◌∙◌, ap, arith, length, All,
}
use go_ipc.Ring.{Ring, type_padding}
use go_ipc.Ring.Reader.{Msg}
use go_ipc.Ring.Records.{Record, IsRing}
use go_ipc.Ring.History.{Call, send, receive, perform, perform_all, pending, IsClosed, joined}
use go_ipc.Ring.History.Calls.{Performed, received_lem, sent_lem}

-- The types of a history are those of a uint32.
abbrev pub IsCall : Call → Type 0
IsCall (send slot typ payload) = typ ≤ type_padding
IsCall (receive limit) = Unit

module _ {r : Ring} {xs : List Record} (v : IsRing r xs) (h : All IsClosed xs)
    (small : r.capacity ≤ 2 ^ 31) where
  perform_lem :
      (c : Call) → IsCall c → r.tail + 2 ^ 32 < 2 ^ 64 → Performed r xs (2 ^ 32) (perform c r)
  perform_lem (send slot typ payload) le nowrap = sent_lem v h slot typ payload le small nowrap
  perform_lem (receive limit) le nowrap = received_lem v h limit

-- Two orders of messages joined: what the first call and the later ones did.
joined_kept :
    (a b out out' left mid before : List Msg)
    → out ++ mid ≡ before ++ a
    → out' ++ left ≡ mid ++ b
    → (out ++ out') ++ left ≡ before ++ (a ++ b)
joined_kept a b out out' left mid before e e' =
    append_assoc out out' left
    ∙ ap (λ l. out ++ l) e'
    ∙ sym (append_assoc out mid b)
    ∙ ap (λ l. l ++ b) e
    ∙ append_assoc before a b

perform_all-cons :
    (c : Call) (cs : List Call) (r r1 : Ring) {r2 : Ring} (a : List Msg) {a' : List Msg}
    (out : List Msg) {out' : List Msg}
    → perform c r ≡ some (r1, a, out)
    → perform_all cs r1 ≡ some (r2, a', out')
    → perform_all (c ∷ cs) r ≡ some (r2, a ++ a', out ++ out')
unfolding perform_all
perform_all-cons c cs r r1 a out e e' =
    ap
      (λ o. elim o as (λ _. Option (Ring × List Msg × List Msg)) [
        | none ↦ none
        | some (r', acc, out') ↦ joined acc out' (perform_all cs r')
      ])
      e
    ∙ ap (joined a out) e'

-- Whatever `TryWrite` and `Read` calls are made on a ring without an open claim: each returns, the ring
-- stays well formed, and the messages that the reads delivered, followed by those still pending, are
-- the messages pending before, followed by those that the writes accepted. None is lost, none
-- repeated, and their order is kept. The capacity is at most 2 ^ 31 and the calls cannot bring the
-- cursors to 2 ^ 64.
pub perform_all_lem :
    (cs : List Call) {r : Ring} {xs : List Record}
    → IsRing r xs
    → All IsClosed xs
    → All IsCall cs
    → r.capacity ≤ 2 ^ 31
    → r.tail + length cs * 2 ^ 32 < 2 ^ 64
    → Performed r xs (length cs * 2 ^ 32) (perform_all cs r)
unfolding perform_all
perform_all_lem [] {r} {xs} v h k small nowrap = record {
  ring = r;
  left = xs;
  accepted = [];
  delivered = [];
  returned = refl;
  valid = v;
  closed = h;
  kept = sym (append-nil (pending xs));
  capacity_kept = refl;
  moved = omega arith;
}
perform_all_lem (c ∷ cs) {r} {xs} v h k small nowrap =
    let p = perform_lem v h small c k.0 (omega arith) in
    let q =
      perform_all_lem cs p.valid p.closed k.1 (omega (arith, p.capacity_kept))
        (omega (arith, p.moved)) in
    record {
      ring = q.ring;
      left = q.left;
      accepted = p.accepted ++ q.accepted;
      delivered = p.delivered ++ q.delivered;
      returned = perform_all-cons c cs r p.ring p.accepted p.delivered p.returned q.returned;
      valid = q.valid;
      closed = q.closed;
      kept =
          joined_kept p.accepted q.accepted p.delivered q.delivered (pending q.left)
            (pending p.left) (pending xs) p.kept q.kept;
      capacity_kept = q.capacity_kept ∙ p.capacity_kept;
      moved = omega (arith, p.moved, q.moved);
    }
