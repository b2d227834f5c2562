-- ===== src/Service/Sessions.antt =====
-- The sessions of `Service` in service.go: who is adopted, forgotten and closed. A session is its ordinal; `closed`
-- are the ordinals whose channel was closed, `gone` those whose end the handler heard of.
use go_ipc.Prelude.{
  ℕ, ◌+◌, Bool, true, false, ◌&&◌, ◌||◌, Option, none, some, List, [], ◌∷◌, ◌++◌, leb, ◌==◌,
  if◌then◌else◌, length,
}
use go_ipc.Errors.{Err, Result, ok, err, closed, other}
use go_ipc.Ring.Reader.{Msg}
use go_ipc.Service.{
  type_service_knock, type_service_hello, service_seq_size, put_uint, Answer, Complaint, answer,
}
use go_ipc.Queue.Park.{is_peer_gone}

pub record Service : Type 0 where
  pub next : ℕ
  pub sessions : List ℕ
  pub failure : Option Err
  pub cancelled : Bool
  pub closing : Bool
  pub closed : List ℕ
  pub gone : List ℕ

-- What the service asks of the channels: `OpenChannel` of a client, and `SendTyped` on the channel of a session.
pub record Network : Type 0 where
  pub opens : List ℕ → Option Err
  pub sends : ℕ → Msg → Option Err

abbrev pub is_hex : ℕ → Bool
is_hex b = leb 48 b && leb b 57 || leb 97 b && leb b 102 || leb 65 b && leb b 70

abbrev pub all_hex : List ℕ → Bool
all_hex [] = true
all_hex (b ∷ bs) = is_hex b && all_hex bs

-- `parseIncarnation`, which gives its argument back: `hex.DecodeString` takes an even number of hex digits.
abbrev pub parse_incarnation : List ℕ → Bool
parse_incarnation content = (length content == 16) && all_hex content

abbrev pub remove : ℕ → List ℕ → List ℕ
remove i [] = []
remove i (x ∷ xs) = let rest = remove i xs in if x == i then rest else x ∷ rest

-- `forget`.
unfoldable pub forget : ℕ → Service → Service
forget i s = record s { sessions = remove i s.sessions; closed = i ∷ s.closed }

-- `adopt`.
unfoldable pub adopt : Network → List ℕ → Service → Service
unfolding forget put_uint
adopt net id s = elim (net.opens id) [
  | some e ↦ s
  | none ↦
      let i = s.next in
      let s' = record s { next = i + 1; sessions = i ∷ s.sessions } in
      elim (net.sends i (type_service_hello, put_uint service_seq_size i)) [
        | some e ↦ forget i s'
        | none ↦ s'
      ]
]

-- `context.Canceled`.
abbrev pub canceled : Err
canceled = other 1

abbrev pub is_own_end : Err → Bool
is_own_end closed = true
is_own_end (other n) = n == 1
is_own_end e = false

-- `stop`.
unfoldable pub stop : Err → Service → Service
stop e s = record s {
  cancelled = true;
  failure = elim s.failure [ some f ↦ some f | none ↦ if is_own_end e then none else some e ];
}

-- `run`, over what `RecvInto` gives one after the other.
unfoldable pub run : Network → List (Result Msg) → Service → Service
unfolding adopt stop
run net [] s = s
run net (err e ∷ knocks) s = stop e s
run net (ok (typ, payload) ∷ knocks) s =
    run net knocks
      (if (typ == type_service_knock) && parse_incarnation payload then adopt net payload s else s)

-- `Serve`, behind the creation of the queue, and without the goroutine of `run`: the clients that the scan found
-- are adopted.
unfoldable pub start : Network → List (List ℕ) → Service → Service
unfolding adopt
start net [] s = s
start net (id ∷ ids) s = start net ids (adopt net id s)

module _ (text_of : Complaint → List ℕ) (handler : ℕ → List ℕ → Answer) (net : Network) where
  -- `serve`, over what `RecvInto` gives on the channel of the session, with the replies that were sent.
  unfoldable pub serve : ℕ → List (Result Msg) → Service → Service × List Msg
  unfolding forget answer
  serve i [] s = (s, [])
  serve i (err e ∷ arrivals) s =
      if is_peer_gone e
      then (forget i (record s { closed = i ∷ s.closed; gone = i ∷ s.gone }), [])
      else (forget i s, [])
  serve i (ok m ∷ arrivals) s =
      let r = answer text_of handler m in
      let (s', sent) = serve i arrivals s in
      elim (net.sends i r) [ some e ↦ (forget i s, []) | none ↦ (s', r ∷ sent) ]

-- `Close`, with the errors of the close and the unlink of the service's queue. `run` has returned by then.
unfoldable pub close : (close_error unlink_error : Option Err) → Service → Service × Option Err
close close_error unlink_error s = if s.closing then (s, none) else (
  record s { closing = true; cancelled = true; closed = s.sessions ++ s.closed },
  elim close_error [ some e ↦ some e | none ↦ unlink_error ],
)
