-- ===== src/Service/Client.antt =====
-- `Client.Call` of service.go, and the channel between a client and the server, as the messages that are on
-- their way. `send` is what `SendTyped` gives for a message, `arrivals` what `Recv` gives, one after the other.
use go_ipc.Prelude.{
  ℕ, Bool, true, false, ◌+◌, ◌%◌, ◌^◌, Option, none, some, List, [], ◌∷◌, ◌++◌, ltb, leb, ◌==◌,
  if◌then◌else◌, length, drop,
}
use go_ipc.Errors.{Err, Result, ok, err, reserved_type, message_too_large, corrupt}
use go_ipc.Ring.Reader.{Msg}
use go_ipc.Service.{
  service_reserved_min, type_service_error, service_seq_size, get_uint, frame, Answer, Complaint,
  answer,
}

-- `Client`: the name and the channel are left out.
pub record Client : Type 0 where
  pub ordinal : ℕ
  pub max_message_size : ℕ
  pub seq : ℕ

-- What `Call` returns: a reply, a `CallError` with its text, or another error.
pub data Outcome : Type 0 where
  replied : (typ : ℕ) (payload : List ℕ) → Outcome
  call_error : (text : List ℕ) → Outcome
  refused : Err → Outcome

-- The reply to the call itself.
unfoldable pub outcome_of : ℕ → List ℕ → Outcome
outcome_of typ payload =
    if typ == type_service_error
    then call_error payload
    else if leb service_reserved_min typ
    then refused corrupt
    else replied typ payload

-- The loop of `Call`; none is a call that still waits.
unfoldable pub await : ℕ → List (Result Msg) → Option (Outcome × List (Result Msg))
unfolding outcome_of
await seq [] = none
await seq (err e ∷ arrivals) = some (refused e, arrivals)
await seq (ok (typ, msg) ∷ arrivals) =
    let rseq = get_uint service_seq_size msg in
    let again = await seq arrivals in
    if ltb (length msg) service_seq_size
    then some (refused corrupt, arrivals)
    else if ltb rseq seq
    then again
    else if ltb seq rseq
    then some (refused corrupt, arrivals)
    else some (outcome_of typ (drop service_seq_size msg), arrivals)

-- `Call` up to its loop: the number of the call, when its request was sent. `MaxPayloadSize` is the largest
-- message less the sequence number, which is below zero where the message has no room for one.
unfoldable pub begin : (Msg → Option Err) → ℕ → List ℕ → Client → Client × Result ℕ
begin send typ payload c =
    let seq = (c.seq + 1) % 2 ^ 64 in
    let numbered = record c { seq = seq } in
    if leb service_reserved_min typ
    then (c, err reserved_type)
    else if ltb c.max_message_size (length payload + service_seq_size)
    then (c, err message_too_large)
    else elim (send (typ, frame seq payload)) [
      | some e ↦ (numbered, err e)
      | none ↦ (numbered, ok seq)
    ]

-- `Client.Call`.
unfoldable pub call :
    (Msg → Option Err)
    → List (Result Msg)
    → ℕ
    → List ℕ
    → Client
    → Client × Option (Outcome × List (Result Msg))
unfolding begin await
call send arrivals typ payload c =
    let (c', begun) = begin send typ payload c in
    elim begun [ err e ↦ (c', some (refused e, arrivals)) | ok seq ↦ (c', await seq arrivals) ]

-- A client and its channel: `reply_limit` is the largest message that the server may send, `is_served` says that the
-- session is not closed.
pub record Exchange : Type 0 where
  pub client : Client
  pub requests : List Msg
  pub replies : List Msg
  pub reply_limit : ℕ
  pub is_served : Bool

-- What happens on the channel: a call begins, and its send may fail; the server answers the oldest request, and the
-- send of the reply may fail, which a reply that is too large does; the client takes the oldest reply. A call that was
-- given up leaves what is on its way.
pub data Event : Type 0 where
  begins : (send_error : Option Err) (typ : ℕ) (payload : List ℕ) → Event
  serves : (handler : ℕ → List ℕ → Answer) (fault : Option Err) → Event
  takes : Event

abbrev pub sent_request : ℕ → List ℕ → List Msg → Client × Result ℕ → Exchange → Exchange
sent_request typ payload requests (c, ok seq) x = record x {
  client = c;
  requests = requests ++ ((typ, frame seq payload) ∷ []);
}
sent_request typ payload requests (c, err e) x = record x { client = c }

-- What `SendTyped` gives for a reply: `fault` is any error but the one of its size.
abbrev pub reply_error : ℕ → Option Err → Msg → Option Err
reply_error limit fault m = if ltb limit (length m.1) then some message_too_large else fault

-- A round of the loop of `serve`, with the reply: an error of its send closes the session.
abbrev pub served : Msg → List Msg → Option Err → Exchange → Exchange
served r rest (some e) x = record x { requests = rest; is_served = false }
served r rest none x = record x { requests = rest; replies = x.replies ++ (r ∷ []) }

abbrev pub perform : (Complaint → List ℕ) → Event → Exchange → Exchange
perform text_of (begins send_error typ payload) x =
    sent_request typ payload x.requests (begin (λ m. send_error) typ payload x.client) x
perform text_of (serves handler fault) x = elim x.requests [
  | [] ↦ x
  | m ∷ rest ↦
      let r = answer text_of handler m in
      if x.is_served then served r rest (reply_error x.reply_limit fault r) x else x
]
perform text_of takes x = elim x.replies [ [] ↦ x | m ∷ rest ↦ record x { replies = rest } ]

-- A channel that nothing is on yet.
abbrev pub joined : ℕ → Client → Exchange
joined limit c = record {
  client = c;
  requests = [];
  replies = [];
  reply_limit = limit;
  is_served = true;
}

abbrev pub perform_all : (Complaint → List ℕ) → List Event → Exchange → Exchange
perform_all text_of [] x = x
perform_all text_of (e ∷ es) x = perform_all text_of es (perform text_of e x)
