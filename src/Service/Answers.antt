-- ===== src/Service/Answers.antt =====
-- What `Client.Call` returns is what the handler gave for that call.
use go_ipc.Prelude.{
  ℕ, ◌+◌, ◌%◌, ◌^◌, ◌≤◌, ◌<◌, ◌≡◌, inl, inr, Bool-cases, Bool, ◌&&◌, true, false, Option, none,
  some, List, [], ◌∷◌, ◌++◌, map, All, ltb, leb, ◌==◌, if◌then◌else◌, length, refl, ap, ◌∙◌, arith,
}
use go_ipc.Errors.{Err, Result, ok, err, peer_gone}
use go_ipc.Ring.Reader.{Msg}
use go_ipc.Service.{
  service_reserved_min, type_service_error, service_seq_size, get_uint, frame, Answer, reply,
  failed, Complaint, reserved_reply, reply_to, answer,
}
use go_ipc.Service.Frame.{frame_lem}
use go_ipc.Service.Client.{
  Client, Outcome, replied, call_error, refused, outcome_of, await, begin, call, Exchange, Event,
  reply_error, joined, perform_all,
}
use go_ipc.Service.Calls.{IsNumbered, IsExchange, answer-IsNumbered, perform_all-IsExchange}

-- Replies to earlier calls are passed over.
await-skips :
    (n seq : ℕ) (old : List Msg) (arrivals : List (Result Msg))
    → n < seq
    → seq < 2 ^ 64
    → All (IsNumbered n) old
    → await seq (map ok old ++ arrivals) ≡ await seq arrivals
unfolding await
await-skips n seq [] arrivals lt small h = refl
await-skips n seq ((typ, msg) ∷ old) arrivals lt small h =
    let m = h.0 in
    let (l, g, d) = frame_lem m.number m.rest (omega (arith, m.bound, lt, small)) in
    let long : ltb (length msg) service_seq_size ≡ false = ground (arith, ap length m.framed ∙ l) in
    let less : ltb (get_uint service_seq_size msg) seq ≡ true =
      ground (arith, ap (get_uint service_seq_size) m.framed ∙ g, m.bound, lt) in
    rw (long, less) (await-skips n seq old arrivals lt small h.1)

-- The reply to the call itself ends it.
await-frame :
    (seq typ : ℕ) (payload : List ℕ) (arrivals : List (Result Msg))
    → seq < 2 ^ 64
    → await seq (ok (typ, frame seq payload) ∷ arrivals) ≡ some (outcome_of typ payload, arrivals)
unfolding await
await-frame seq typ payload arrivals small =
    let (l, g, d) = frame_lem seq payload small in
    let long : ltb (length (frame seq payload)) service_seq_size ≡ false = ground (arith, l) in
    let here : ltb seq seq ≡ false = ground arith in rw (long, g, here, d) refl

module _ (text_of : Complaint → List ℕ) where
  -- What a client is told of an answer.
  unfoldable pub told : Answer → Outcome
  told (failed text) = call_error text
  told (reply typ payload) =
      if leb service_reserved_min typ
      then call_error (text_of (reserved_reply typ))
      else replied typ payload

  await-reply_to :
      (seq : ℕ) (a : Answer) (arrivals : List (Result Msg))
      → seq < 2 ^ 64
      → await seq (ok (reply_to text_of seq a) ∷ arrivals) ≡ some (told a, arrivals)
  unfolding reply_to told outcome_of
  await-reply_to seq (failed text) arrivals small =
      await-frame seq type_service_error text arrivals small
  await-reply_to seq (reply typ payload) arrivals small =
      elim (Bool-cases (leb service_reserved_min typ)) [
        | inl high ↦
            rw high
              (await-frame seq type_service_error (text_of (reserved_reply typ)) arrivals small)
        | inr low ↦
            let plain : (typ == type_service_error) ≡ false = ground (arith, low) in
            let e : outcome_of typ payload ≡ replied typ payload = rw (plain, low) refl in
            rw low (await-frame seq typ payload arrivals small ∙ ap (λ o. some (o, arrivals)) e)
      ]

  -- The answer to a request that `Call` sent.
  answer-frame :
      (handler : ℕ → List ℕ → Answer) (seq typ : ℕ) (payload : List ℕ)
      → seq < 2 ^ 64
      → typ < service_reserved_min
      → answer text_of handler (typ, frame seq payload) ≡ reply_to text_of seq (handler typ payload)
  unfolding answer
  answer-frame handler seq typ payload small low =
      let (l, g, d) = frame_lem seq payload small in
      let long : ltb (length (frame seq payload)) service_seq_size ≡ false = ground (arith, l) in
      let open_type : leb service_reserved_min typ ≡ false = ground (arith, low) in
      rw (long, open_type, g, d) refl

  begin-sent :
      (typ : ℕ) (payload : List ℕ) (c : Client)
      → typ < service_reserved_min
      → length payload + service_seq_size ≤ c.max_message_size
      → c.seq + 1 < 2 ^ 64
      → begin (λ m. none) typ payload c ≡ (record c { seq = c.seq + 1 }, ok (c.seq + 1))
  unfolding begin
  begin-sent typ payload c low fits small =
      let open_type : leb service_reserved_min typ ≡ false = ground (arith, low) in
      let room : ltb c.max_message_size (length payload + service_seq_size) ≡ false =
        ground (arith, fits) in
      let e : (c.seq + 1) % 2 ^ 64 ≡ c.seq + 1 = omega (arith, small) in
      rw (open_type, room, e) refl

  module _ (handler : ℕ → List ℕ → Answer) (limit : ℕ) (faults : Msg → Option Err) where
    -- What `serve` makes of requests: the replies up to the first that is not sent. Then the session is closed, and
    -- the client finds its peer gone.
    abbrev pub answered : List Msg → List (Result Msg)
    answered [] = []
    answered (m ∷ ms) =
        let r = answer text_of handler m in
        let later = answered ms in
        elim (reply_error limit (faults r) r) [ none ↦ ok r ∷ later | some e ↦ err peer_gone ∷ [] ]

    -- Every reply is sent.
    abbrev pub all_sent : List Msg → Bool
    all_sent [] = true
    all_sent (m ∷ ms) =
        let r = answer text_of handler m in
        let later = all_sent ms in
        elim (reply_error limit (faults r) r) [ none ↦ later | some e ↦ false ]

    -- The outcome of a call, by whether its reply is sent.
    abbrev pub outcome_if : Bool → Answer → Outcome
    outcome_if sent a = if sent then told a else refused peer_gone

    await-answered :
        (n typ : ℕ) (payload : List ℕ) (ms : List Msg)
        → n + 1 < 2 ^ 64
        → typ < service_reserved_min
        → All (IsNumbered n) ms
        → let all = ms ++ ((typ, frame (n + 1) payload) ∷ []) in
          await (n + 1) (answered all) ≡ some (outcome_if (all_sent all) (handler typ payload), [])
    unfolding await
    await-answered n typ payload [] small low h =
        let own : Msg = (typ, frame (n + 1) payload) in
        let r = answer text_of handler own in
        elim (reply_error limit (faults r) r)
          as (λ o.
            await (n + 1) (elim o [ none ↦ ok r ∷ [] | some e ↦ err peer_gone ∷ [] ])
            ≡ some
                (outcome_if (elim o [ none ↦ true | some e ↦ false ]) (handler typ payload), [])) [
                  | none ↦
                      ap (λ (m : Msg). await (n + 1) (ok m ∷ []))
                        (answer-frame handler (n + 1) typ payload small low)
                      ∙ await-reply_to (n + 1) (handler typ payload) [] small
                  | some e ↦ refl
                ]
    await-answered n typ payload (m ∷ ms) small low h =
        let r = answer text_of handler m in
        let all = ms ++ ((typ, frame (n + 1) payload) ∷ []) in
        elim (reply_error limit (faults r) r)
          as (λ o.
            await (n + 1) (elim o [ none ↦ ok r ∷ answered all | some e ↦ err peer_gone ∷ [] ])
            ≡ some (
              outcome_if (elim o [ none ↦ all_sent all | some e ↦ false ]) (handler typ payload),
              [],
            )) [
              | none ↦
                  await-skips n (n + 1) (r ∷ []) (answered all) (omega arith) small
                    (answer-IsNumbered text_of n handler m (omega (arith, small)) h.0, tt)
                  ∙ await-answered n typ payload ms small low h.1
              | some e ↦ refl
            ]

  -- What arrives for a call: the replies on the way, and what `serve` makes of the requests on the way, its own last.
  abbrev pub arrivals_of :
      (ℕ → List ℕ → Answer) → (Msg → Option Err) → Exchange → Msg → List (Result Msg)
  arrivals_of handler faults x own =
      map ok x.replies
      ++ (if x.is_served
          then answered handler x.reply_limit faults (x.requests ++ (own ∷ []))
          else err peer_gone ∷ [])

  -- The session is open, and the replies to all requests on the way are sent, and that to the call itself.
  abbrev pub is_answered : (ℕ → List ℕ → Answer) → (Msg → Option Err) → Exchange → Msg → Bool
  is_answered handler faults x own =
      x.is_served && all_sent handler x.reply_limit faults (x.requests ++ (own ∷ []))

  abbrev after_begin :
      List (Result Msg) → Client × Result ℕ → Client × Option (Outcome × List (Result Msg))
  after_begin arrivals t = elim (t.1) [
    | err e ↦ (t.0, some (refused e, arrivals))
    | ok seq ↦ (t.0, await seq arrivals)
  ]

  await-arrivals :
      (handler : ℕ → List ℕ → Answer) (faults : Msg → Option Err) (x : Exchange) (typ : ℕ)
      (payload : List ℕ)
      → IsExchange x
      → typ < service_reserved_min
      → x.client.seq + 1 < 2 ^ 64
      → let own : Msg = (typ, frame (x.client.seq + 1) payload) in
        await (x.client.seq + 1) (arrivals_of handler faults x own)
        ≡ some (
          if is_answered handler faults x own
              then told (handler typ payload)
              else refused peer_gone,
          [],
        )
  unfolding await
  await-arrivals handler faults x typ payload h low small =
      let n = x.client.seq in
      let all = x.requests ++ ((typ, frame (n + 1) payload) ∷ []) in
      let later = answered handler x.reply_limit faults all in
      await-skips n (n + 1) x.replies (if x.is_served then later else err peer_gone ∷ [])
        (omega arith) small h.1
      ∙ elim x.is_served
          as (λ b.
            await (n + 1) (if b then later else err peer_gone ∷ [])
            ≡ some (
              if b && all_sent handler x.reply_limit faults all
                  then told (handler typ payload)
                  else refused peer_gone,
              [],
            )) [
              | true ↦
                  await-answered handler x.reply_limit faults n typ payload x.requests small low h.0
              | false ↦ refl
            ]

  -- Whatever calls were made, given up, answered and not answered before on a channel, and whatever of them is still
  -- on its way, `Client.Call`, once its request is sent, skips it all and returns what the handler gives for its own
  -- request (the reply, or the text of the handler's error, or that of a reply with a reserved type) when the session
  -- is open and the sends of the replies to the requests on the way and of its own succeed, and `ErrPeerGone` when the
  -- session is closed or one of these sends fails, as that of a reply that is larger than the channel takes. The type
  -- and size of the request are those that `Call` sends, and the calls number fewer than 2 ^ 64.
  pub call-perform_all :
      (es : List Event) (handler : ℕ → List ℕ → Answer) (faults : Msg → Option Err) (limit : ℕ)
      (c : Client) (typ : ℕ) (payload : List ℕ)
      → let x = perform_all text_of es (joined limit c) in
        let own : Msg = (typ, frame (x.client.seq + 1) payload) in
        c.seq + length es + 1 < 2 ^ 64
        → typ < service_reserved_min
        → length payload + service_seq_size ≤ x.client.max_message_size
        → call (λ m. none) (arrivals_of handler faults x own) typ payload x.client ≡ (
          record (x.client) { seq = x.client.seq + 1 },
          some (
            if is_answered handler faults x own
                then told (handler typ payload)
                else refused peer_gone,
            [],
          ),
        )
  unfolding call
  call-perform_all es handler faults limit c typ payload small low fits =
      let (h, up) =
        perform_all-IsExchange text_of es (joined limit c) (omega (arith, small)) (tt, tt) in
      let x = perform_all text_of es (joined limit c) in
      let own : Msg = (typ, frame (x.client.seq + 1) payload) in
      let room : x.client.seq + 1 < 2 ^ 64 = omega (arith, small, up) in
      ap (after_begin (arrivals_of handler faults x own))
        (begin-sent typ payload x.client low fits room)
      ∙ ap (λ o. (record (x.client) { seq = x.client.seq + 1 }, o))
          (await-arrivals handler faults x typ payload h low room)
