-- ===== src/Conn/Stream.antt =====
-- What `Write` puts into a channel, and what `Read` makes of it.
use go_ipc.Prelude.{
  ℕ, zero, suc, ◌+◌, ◌≤◌, ◌<◌, ◌≡◌, ◌⊎◌, inl, inr, Bool, true, false, Option, none, some, List, [],
  ◌∷◌, ◌++◌, append-nil, append_assoc, take, drop, length, length-append, take-append-drop,
  length-take, take-pos, All, refl, sym, ◌∙◌, ap, arith,
}
use go_ipc.Errors.{Err}
use go_ipc.Conn.{
  Channel, Conn, ConnErr, deadline_exceeded, type_stream_data, translate, translate_err, write_loop,
  write,
}

abbrev pub Sent : Type 0
Sent = List (ℕ × List ℕ)

-- A channel that also keeps the messages that were sent.
abbrev pub logged : {W : Type 0} → Channel W → Channel (W × Sent)
logged ch = record {
  max_message_size = ch.max_message_size;
  begin_read = λ s. let (w, e) = ch.begin_read s.0 in ((w, s.1), e);
  begin_write = λ s. let (w, e) = ch.begin_write s.0 in ((w, s.1), e);
  recv_into = λ s. let (w, got, late) = ch.recv_into s.0 in ((w, s.1), got, late);
  send_typed = λ typ p s.
      let (w, e, late) = ch.send_typed typ p s.0 in
      ((w, elim e [ none ↦ s.1 ++ ((typ, p) ∷ []) | some x ↦ s.1 ]), e, late);
  try_send_typed = λ typ p s. (ch.try_send_typed typ p s.0, s.1);
  cancel_base = λ s. (ch.cancel_base s.0, s.1);
  close = λ s. let (w, e) = ch.close s.0 in ((w, s.1), e);
}

abbrev pub joined : List (List ℕ) → List ℕ
joined [] = []
joined (c ∷ cs) = c ++ joined cs

abbrev pub as_data : List (List ℕ) → Sent
as_data [] = []
as_data (c ∷ cs) = (type_stream_data, c) ∷ as_data cs

-- The count is that of all chunks but the last.
pub record LeavesLast (count : ℕ) (chunks : List (List ℕ)) : Type 0 where
  pub others : List (List ℕ)
  pub last : List ℕ
  pub split : chunks ≡ others ++ (last ∷ [])
  pub counts : count ≡ length (joined others)

module _ {W : Type 0} (ch : Channel W) where
  -- What `Write` returned, and the chunks that it sent.
  pub record Written (before : ℕ) (p : List ℕ) (log : Sent)
      (o : Option ((W × Sent) × ℕ × Option ConnErr)) : Type 0 where
    pub world : W
    pub chunks : List (List ℕ)
    pub count : ℕ
    pub error : Option ConnErr
    pub returned : o ≡ some ((world, log ++ as_data chunks), before + count, error)
    pub rest : List ℕ
    pub whole : p ≡ joined chunks ++ rest
    pub small : All (λ c. (0 < length c) × (length c ≤ ch.max_message_size)) chunks
    pub counted :
        (count ≡ length (joined chunks))
        ⊎ ((error ≡ some deadline_exceeded) × LeavesLast count chunks)
    pub complete : error ≡ none → (count ≡ length p) × (joined chunks ≡ p)

  -- The end of the loop at an error.
  gave_up :
      (before : ℕ) (p : List ℕ) (log : Sent) (w : W) (x : ConnErr)
      → Written before p log (some ((w, log), before, some x))
  gave_up before p log w x = record {
    world = w;
    chunks = [];
    count = 0;
    error = some x;
    returned = let e : before + 0 ≡ before = omega arith in rw (append-nil log, e) refl;
    rest = p;
    whole = refl;
    small = tt;
    counted = inl refl;
    complete = λ e. cc;
  }

  module _ (before : ℕ) (p : List ℕ) (log : Sent) (chunk : List ℕ) (tail : List ℕ)
      (e : p ≡ chunk ++ tail)
      (fit : (0 < length chunk) × (length chunk ≤ ch.max_message_size)) where
    -- A chunk is sent, and the loop goes on.
    sent_more :
        (o : Option ((W × Sent) × ℕ × Option ConnErr))
        → Written (before + length chunk) tail (log ++ ((type_stream_data, chunk) ∷ [])) o
        → Written before p log o
    sent_more o r = record {
      world = r.world;
      chunks = chunk ∷ r.chunks;
      count = length chunk + r.count;
      error = r.error;
      returned =
          r.returned
          ∙ (let a : before + length chunk + r.count ≡ before + (length chunk + r.count) =
                omega arith in
              rw (append_assoc log ((type_stream_data, chunk) ∷ []) (as_data r.chunks), a) refl);
      rest = r.rest;
      whole = e ∙ ap (λ l. chunk ++ l) r.whole ∙ sym (append_assoc chunk (joined r.chunks) r.rest);
      small = (fit, r.small);
      counted = elim r.counted [
        | inl same ↦ inl (omega (arith, length-append chunk (joined r.chunks)))
        | inr (late, h) ↦ inr (
          late,
          record {
            others = chunk ∷ h.others;
            last = h.last;
            split = ap (λ cs. chunk ∷ cs) h.split;
            counts = omega (arith, h.counts, length-append chunk (joined h.others));
          },
        )
      ];
      complete = λ done.
          let (a, b) = r.complete done in
          (
            omega (arith, length-append chunk tail, ap (length {A = ℕ}) e),
            ap (λ l. chunk ++ l) b ∙ sym e,
          );
    }

    -- The chunk is sent, but the deadline passes before the loop counts it.
    sent_late :
        (w : W)
        → Written before p log
            (some ((w, log ++ ((type_stream_data, chunk) ∷ [])), before, some deadline_exceeded))
    sent_late w = record {
      world = w;
      chunks = chunk ∷ [];
      count = 0;
      error = some deadline_exceeded;
      returned = let a : before + 0 ≡ before = omega arith in rw a refl;
      rest = tail;
      whole = e ∙ ap (λ l. l ++ tail) (sym (append-nil chunk));
      small = (fit, tt);
      counted = inr (refl, record { others = []; last = chunk; split = refl; counts = refl });
      complete = λ no. cc;
    }

    round_end :
        (stopped : Option ConnErr) (w1 w2 : W) (sent : Option Err) (late : Bool)
        (later : Option ((W × Sent) × ℕ × Option ConnErr))
        → (sent ≡ none
            → Written (before + length chunk) tail (log ++ ((type_stream_data, chunk) ∷ [])) later)
        → Written before p log (elim stopped [
          | some x ↦ some ((w1, log), before, some x)
          | none ↦ elim (translate late sent) [
            | some x ↦ some (
              (w2, elim sent [ none ↦ log ++ ((type_stream_data, chunk) ∷ []) | some y ↦ log ]),
              before,
              some x,
            )
            | none ↦ later
          ]
        ])
    unfolding translate
    round_end (some x) w1 w2 sent late later h = gave_up before p log w1 x
    round_end none w1 w2 none true later h = sent_late w2
    round_end none w1 w2 none false later h = sent_more later (h refl)
    round_end none w1 w2 (some y) true later h = gave_up before p log w2 deadline_exceeded
    round_end none w1 w2 (some y) false later h = gave_up before p log w2 (translate_err y)

  write_loop_lem :
      (fuel before : ℕ) (p : List ℕ) (w : W) (log : Sent)
      → 0 < ch.max_message_size
      → length p < fuel
      → Written before p log (write_loop (logged ch) fuel before p (w, log))
  unfolding write_loop
  write_loop_lem zero before p w log pos h = absurd (omega arith)
  write_loop_lem (suc fuel) before [] w log pos h = record {
    world = w;
    chunks = [];
    count = 0;
    error = none;
    returned = let e : before + 0 ≡ before = omega arith in rw (append-nil log, e) refl;
    rest = [];
    whole = refl;
    small = tt;
    counted = inl refl;
    complete = λ e. (refl, refl);
  }
  write_loop_lem (suc fuel) before (x ∷ xs) w log pos h =
      let limit = ch.max_message_size in
      let chunk = take limit (x ∷ xs) in
      let (a, b) = length-take limit (x ∷ xs) in
      let nonempty = take-pos limit x xs pos in
      let s = ch.send_typed type_stream_data chunk (ch.begin_write w).0 in
      round_end before (x ∷ xs) log chunk (drop limit (x ∷ xs))
        (sym (take-append-drop limit (x ∷ xs))) (nonempty, a) (ch.begin_write w).1
        (ch.begin_write w).0 s.0 s.1 s.2 _
        (λ done. rw done (
          write_loop_lem fuel (before + length chunk) (drop limit (x ∷ xs)) s.0
            (log ++ ((type_stream_data, chunk) ∷ [])) pos (omega (arith, b, nonempty, h))))

  -- `Write` on any channel, with any errors and deadlines: it returns, and what it sent are consecutive
  -- chunks of its input from the start, none of them empty or longer than a message. The count it
  -- returns is their length, except that a deadline which passes as a chunk is sent ends the call and leaves
  -- that last chunk, and no other, out of the count. Without an error all of the input was sent.
  pub conn_write_lem :
      (p : List ℕ) (c : Conn) (w : W) (log : Sent)
      → 0 < ch.max_message_size
      → c.eof_sent ≡ false
      → Written 0 p log (write (logged ch) p c (w, log))
  unfolding write
  conn_write_lem p c w log pos open_end =
      rw open_end (write_loop_lem (length p + 1) 0 p w log pos (omega arith))
