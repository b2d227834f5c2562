-- ===== src/Service/Tests.antt =====
-- Tests of the service model: its theorems at a small service and client.
use go_ipc.Prelude.{
  ℕ, ◌+◌, ◌<◌, ◌≡◌, true, false, Option, none, some, List, [], ◌∷◌, ◌==◌, refl, arith,
}
use go_ipc.Errors.{Result, ok, err, peer_gone, closed}
use go_ipc.Ring.Reader.{Msg}
use go_ipc.Service.{
  Answer, reply, failed, Complaint, frame, type_service_knock, put_uint, get_uint, reply_to, answer,
}
use go_ipc.Service.Client.{
  Client, refused, await, Event, begins, serves, begin, call, joined, perform_all,
}
use go_ipc.Service.Answers.{told, arrivals_of, call-perform_all}
use go_ipc.Service.Typed.{Codec, Texts, decoded, typed_handler, call_typed}
use go_ipc.Service.Sessions.{Network, close}
use go_ipc.Service.Members.{Below, member}
use go_ipc.Service.Ordinals.{lifetime, close-lifetime}

abbrev text_of : Complaint → List ℕ
text_of c = 105 ∷ 112 ∷ 99 ∷ []

abbrev echo : ℕ → List ℕ → Answer
echo typ payload = reply typ payload

abbrev refuse : ℕ → List ℕ → Answer
refuse typ payload = failed (110 ∷ 111 ∷ [])

abbrev one_client : Client
one_client = record { ordinal = 0; max_message_size = 64; seq = 0 }

-- A call that was given up before it was served, and one given up after.
abbrev before : List Event
before =
    begins none 4 (9 ∷ [])
    ∷ serves refuse none
    ∷ begins (some closed) 4 []
    ∷ begins none 5 (8 ∷ [])
    ∷ []

call-perform_all_example :
    let x = perform_all text_of before (joined 64 one_client) in
    call
      (λ m. none)
      (arrivals_of text_of echo (λ m. none) x (7, frame (x.client.seq + 1) (1 ∷ 2 ∷ [])))
      7
      (1 ∷ 2 ∷ [])
      x.client
    ≡ (record (x.client) { seq = x.client.seq + 1 }, some (told text_of (echo 7 (1 ∷ 2 ∷ [])), []))
unfolding begin answer reply_to frame put_uint get_uint
call-perform_all_example =
    call-perform_all text_of before echo (λ m. none) 64 one_client 7 (1 ∷ 2 ∷ []) (omega arith)
      (omega arith) (omega arith)

-- The reply has ten bytes with its number, and the channel takes eight.
large_reply_gone :
    call
      (λ m. none)
      (arrivals_of text_of echo (λ m. none) (joined 8 one_client) (7, frame 1 (1 ∷ 2 ∷ [])))
      7
      (1 ∷ 2 ∷ [])
      one_client
    ≡ (record one_client { seq = 1 }, some (refused peer_gone, []))
unfolding call begin await answer reply_to frame put_uint get_uint
large_reply_gone = refl

-- Every client opens; the hello to the second fails.
abbrev network : Network
network = record {
  opens = λ id. none;
  sends = λ i m. elim (i == 1) [ true ↦ some peer_gone | false ↦ none ];
}

abbrev digits : List ℕ
digits = 48 ∷ 49 ∷ 50 ∷ 51 ∷ 52 ∷ 53 ∷ 54 ∷ 55 ∷ 97 ∷ 98 ∷ 99 ∷ 100 ∷ 101 ∷ 102 ∷ 65 ∷ 66 ∷ []

abbrev received : List (ℕ × List (Result Msg))
received = (0, ok (7, frame 1 (1 ∷ [])) ∷ err peer_gone ∷ []) ∷ []

close-lifetime_example :
    let s =
      lifetime text_of echo network
        (digits ∷ digits ∷ [])
        (ok (type_service_knock, digits) ∷ err closed ∷ [])
        received in
    Below s.next s.sessions × ((i : ℕ) → i < s.next → member i (close none none s).0.closed ≡ true)
close-lifetime_example =
    close-lifetime text_of echo network (digits ∷ digits ∷ [])
      (ok (type_service_knock, digits) ∷ err closed ∷ []) received none none

-- A message that is a number of one byte, of type 3.
abbrev byte_codec : Codec ℕ
byte_codec = record {
  type_id = λ m. 3;
  marshal = λ m. ok (m ∷ []);
  unmarshal = λ typ bytes. elim bytes [ [] ↦ err closed | b ∷ rest ↦ ok b ];
  known = λ typ. typ == 3;
}

abbrev texts : Texts
texts = record { of_error = λ e. []; no_message = λ typ. []; no_reply = [] }

abbrev next_byte : ℕ → Result (Option ℕ)
next_byte m = ok (some (m + 1))

next_byte_called :
    call_typed byte_codec
      (λ typ bytes. told text_of (typed_handler byte_codec texts next_byte typ bytes))
      4
      3
    ≡ decoded 5
unfolding call_typed typed_handler told
next_byte_called = refl
