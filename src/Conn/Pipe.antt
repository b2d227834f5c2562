-- ===== src/Conn/Pipe.antt =====
-- `Read` on a channel that gives its messages in the order in which they were sent.
use go_ipc.Prelude.{
  ℕ, zero, suc, ◌+◌, ◌≤◌, ◌<◌, ◌≡◌, ◌⊎◌, inl, inr, Bool, true, false, Bool-cases, Option, none,
  some, List, [], ◌∷◌, ◌++◌, append-nil, append_assoc, take, drop, length, take-append-drop,
  length-take, take-pos, refl, sym, ◌∙◌, ap, arith, ◌==◌, if◌then◌else◌,
}
use go_ipc.Errors.{ok, err, peer_gone}
use go_ipc.Conn.{
  Channel, Conn, ConnErr, end_of_file, failed, type_stream_data, type_stream_eof, translate,
  receive_round, read, hand_out, write, write_loop, close_write, message_of, deadline_exceeded,
}
use go_ipc.Conn.Stream.{Sent, as_data, joined}

-- What a channel promises: the messages come in order, and then the peer is gone.
abbrev pub pipe : ℕ → Channel Sent
pipe limit = record {
  max_message_size = limit;
  begin_read = λ q. (q, none);
  begin_write = λ q. (q, none);
  recv_into = λ q. elim q [ [] ↦ ([], err peer_gone, false) | m ∷ ms ↦ (ms, ok m, false) ];
  send_typed = λ typ p q. (q ++ ((typ, p) ∷ []), none, false);
  try_send_typed = λ typ p q. q ++ ((typ, p) ∷ []);
  cancel_base = λ q. q;
  close = λ q. (q, none);
}

-- The bytes of the messages up to the end-of-stream message, and how the stream ends.
abbrev pub stream : Sent → List ℕ
stream [] = []
stream ((typ, p) ∷ ms) = if typ == type_stream_eof then [] else p ++ stream ms

abbrev pub ends : Sent → ConnErr
ends [] = failed peer_gone
ends ((typ, p) ∷ ms) = if typ == type_stream_eof then end_of_file else ends ms

-- What a reader still gets, and how it ends.
abbrev pub remaining : Conn → Sent → List ℕ
remaining c q = c.pending ++ (if c.eof then [] else stream q)

abbrev pub ending : Conn → Sent → ConnErr
ending c q = if c.eof then end_of_file else ends q

-- What `Read` gave: bytes from the front of the stream, or the end of it.
pub record ReadOut (limit size : ℕ) (c : Conn) (q : Sent)
    (o : Option (Conn × Sent × (List ℕ × Option ConnErr))) : Type 0 where
  pub after : Conn
  pub left : Sent
  pub out : List ℕ
  pub error : Option ConnErr
  pub returned : o ≡ some (after, left, (out, error))
  pub kept : remaining c q ≡ out ++ remaining after left
  pub progress :
      ((error ≡ none) × (0 < length out) × (length out ≤ size))
      ⊎ ((error ≡ some (ending c q)) × (out ≡ []) × (remaining c q ≡ []))

module _ (limit size : ℕ) (pos : 0 < size) where
  from_pending :
      (x : ℕ) (xs : List ℕ) (eof sent once : Bool) (q : Sent)
      → let c : Conn = record { pending = x ∷ xs; eof = eof; eof_sent = sent; once_done = once } in
        ReadOut limit size c q (some (hand_out (pipe limit) size c q))
  from_pending x xs eof sent once q = record {
    after = record { pending = drop size (x ∷ xs); eof = eof; eof_sent = sent; once_done = once };
    left = q;
    out = take size (x ∷ xs);
    error = none;
    returned = refl;
    kept =
        ap (λ l. l ++ (if eof then [] else stream q)) (sym (take-append-drop size (x ∷ xs)))
        ∙ append_assoc (take size (x ∷ xs)) (drop size (x ∷ xs)) (if eof then [] else stream q);
    progress = inl (refl, take-pos size x xs pos, (length-take size (x ∷ xs)).0);
  }

  read_loop_lem :
      (fuel : ℕ) (pending : List ℕ) (eof sent once : Bool) (q : Sent)
      → length q + 1 < fuel
      → let c : Conn = record { pending = pending; eof = eof; eof_sent = sent; once_done = once } in
        ReadOut limit size c q (read (pipe limit) fuel size c q)
  unfolding read receive_round translate
  read_loop_lem zero pending eof sent once q h = absurd (omega arith)
  read_loop_lem (suc fuel) (x ∷ xs) eof sent once q h = from_pending x xs eof sent once q
  read_loop_lem (suc fuel) [] true sent once q h = record {
    after = record { pending = []; eof = true; eof_sent = sent; once_done = once };
    left = q;
    out = [];
    error = some end_of_file;
    returned = refl;
    kept = refl;
    progress = inr (refl, refl, refl);
  }
  read_loop_lem (suc fuel) [] false sent once [] h = record {
    after = record { pending = []; eof = false; eof_sent = sent; once_done = once };
    left = [];
    out = [];
    error = some (failed peer_gone);
    returned = refl;
    kept = refl;
    progress = inr (refl, refl, refl);
  }
  read_loop_lem (suc fuel) [] false sent once ((typ, p) ∷ ms) h =
      elim (Bool-cases (typ == type_stream_eof)) [
        | inl last ↦ record {
          after = record { pending = []; eof = true; eof_sent = sent; once_done = once };
          left = ms;
          out = [];
          error = some end_of_file;
          returned = rw last refl;
          kept = rw last refl;
          progress = rw last (inr (refl, refl, refl));
        }
        | inr more ↦
            let r = read_loop_lem fuel p false sent once ms (omega arith) in
            record {
              after = r.after;
              left = r.left;
              out = r.out;
              error = r.error;
              returned = rw more r.returned;
              kept = rw more r.kept;
              progress = rw more r.progress;
            }
      ]

  -- `Read` with a buffer that is not empty, on a channel that gives its messages in order: it returns
  -- bytes from the front of what is left of the stream, at least one and at most the buffer's size, or,
  -- when nothing is left, how the stream ends. Nothing is lost and nothing repeated. The rounds are at
  -- most the messages in the channel and two.
  pub conn_read_lem :
      (c : Conn) (q : Sent) → ReadOut limit size c q (read (pipe limit) (length q + 2) size c q)
  conn_read_lem c q =
      read_loop_lem (length q + 2) c.pending c.eof c.eof_sent c.once_done q (omega arith)

as_data-append : (cs : List (List ℕ)) (q : Sent) → stream (as_data cs ++ q) ≡ joined cs ++ stream q
as_data-append [] q = refl
as_data-append (c ∷ cs) q =
    ap (λ l. c ++ l) (as_data-append cs q) ∙ sym (append_assoc c (joined cs) (stream q))

as_data-ends : (cs : List (List ℕ)) (q : Sent) → ends (as_data cs ++ q) ≡ ends q
as_data-ends [] q = refl
as_data-ends (c ∷ cs) q = as_data-ends cs q

module _ (limit : ℕ) (pos : 0 < limit) where
  write_pipe :
      (fuel before : ℕ) (p : List ℕ) (q : Sent)
      → length p < fuel
      → (chunks : List (List ℕ)) × (write_loop (pipe limit) fuel before p q
          ≡ some (q ++ as_data chunks, before + length p, none))
        × (joined chunks ≡ p)
  unfolding write_loop translate
  write_pipe zero before p q h = absurd (omega arith)
  write_pipe (suc fuel) before [] q h =
      let e : before + 0 ≡ before = omega arith in ([], rw (append-nil q, e) refl, refl)
  write_pipe (suc fuel) before (x ∷ xs) q h =
      let chunk = take limit (x ∷ xs) in
      let (_, b) = length-take limit (x ∷ xs) in
      let nonempty = take-pos limit x xs pos in
      let (cs, r, j) =
        write_pipe fuel (before + length chunk) (drop limit (x ∷ xs))
          (q ++ ((type_stream_data, chunk) ∷ [])) (omega (arith, b, nonempty, h)) in
      let n : before + length chunk + length (drop limit (x ∷ xs)) ≡ before + length (x ∷ xs) =
        omega (arith, b) in
      (
        chunk ∷ cs,
        r ∙ rw (append_assoc q ((type_stream_data, chunk) ∷ []) (as_data cs), n) refl,
        ap (λ l. chunk ++ l) j ∙ take-append-drop limit (x ∷ xs),
      )

  -- On a channel that gives its messages in order, what `Write` and then `CloseWrite` send is a stream
  -- of exactly the bytes written that ends with end of file, and both succeed.
  pub write-close_write :
      (p : List ℕ) (c : Conn)
      → c.eof_sent ≡ false
      → (q : Sent) × (write (pipe limit) p c [] ≡ some (q, length p, none))
        × (let (c', q', e) = close_write (pipe limit) c q in
            (stream q' ≡ p) × (ends q' ≡ end_of_file) × (c'.eof_sent ≡ true) × (e ≡ none))
  unfolding write close_write translate
  write-close_write p c open_end =
      let (cs, r, j) = write_pipe (length p + 1) 0 p [] (omega arith) in
      (
        as_data cs,
        rw open_end (r ∙ (let e : 0 + length p ≡ length p = omega arith in rw e refl)),
        rw open_end (
          as_data-append cs ((type_stream_eof, []) ∷ []) ∙ append-nil (joined cs) ∙ j,
          as_data-ends cs ((type_stream_eof, []) ∷ []),
          refl,
          refl,
        ),
      )

round_late :
    {W : Type 0} (ch : Channel W) (c : Conn) (w w2 : W) (m : ℕ × List ℕ)
    → (ch.begin_read w).1 ≡ none
    → ch.recv_into (ch.begin_read w).0 ≡ (w2, ok m, true)
    → receive_round ch c w ≡ (w2, ok m, some deadline_exceeded)
unfolding receive_round translate
round_late ch c w w2 m b g = rw (b, g, receive_round) refl

-- A message that arrives as the read deadline passes is lost: `Read` has taken it from the channel,
-- reports the deadline, and does not keep it.
pub read_late_lem :
    {W : Type 0} (ch : Channel W) (fuel size : ℕ) (sent once : Bool) (w w2 : W) (typ : ℕ)
    (msg : List ℕ)
    → (ch.begin_read w).1 ≡ none
    → ch.recv_into (ch.begin_read w).0 ≡ (w2, ok (typ, msg), true)
    → let c : Conn = record { pending = []; eof = false; eof_sent = sent; once_done = once } in
      read ch (suc fuel) size c w ≡ some (c, w2, ([], some deadline_exceeded))
unfolding read
read_late_lem {W} ch fuel size sent once w w2 typ msg b g =
    let c : Conn = record { pending = []; eof = false; eof_sent = sent; once_done = once } in
    ap
      (λ t. elim t.2 as (λ _. Option (Conn × W × (List ℕ × Option ConnErr))) [
        | some x ↦ some (c, t.0, ([], some x))
        | none ↦
            if (message_of t.1).0 == type_stream_eof
            then some (record c { eof = true }, t.0, ([], some end_of_file))
            else read ch fuel size (record c { pending = (message_of t.1).1 }) t.0
      ])
      (round_late ch c w w2 (typ, msg) b g)
