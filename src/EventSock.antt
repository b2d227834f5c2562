-- ===== src/EventSock.antt =====
-- event_sock.go: the server of a socket event, which hands tokens to the clients that wait, oldest
-- first. A client is a number, for its `net.Conn`; `given` and `canceled` are the clients that a `T` or an `X`
-- was written to, in order. Whether a write to a client succeeds is a parameter.
pub mod Tokens
mod Tests
use go_ipc.Prelude.{
  ℕ, zero, suc, ◌+◌, ◌-◌, Bool, true, false, List, [], ◌∷◌, ◌++◌, ◌==◌, if◌then◌else◌,
}

pub record Server : Type 0 where
  pub tokens : ℕ
  pub waiting : List ℕ
  pub clients : List ℕ
  pub closed : Bool
  pub given : List ℕ
  pub canceled : List ℕ

abbrev pub new_server : Server
new_server = record {
  tokens = 0;
  waiting = [];
  clients = [];
  closed = false;
  given = [];
  canceled = [];
}

-- `remove`: the first place of the client among those that wait, and whether there is one.
unfoldable pub remove : ℕ → List ℕ → List ℕ × Bool
remove c [] = ([], false)
remove c (w ∷ ws) =
    let (rest, found) = remove c ws in if w == c then (ws, true) else (w ∷ rest, found)

-- `delete(s.clients, conn)`.
unfoldable pub forget : ℕ → List ℕ → List ℕ
forget c [] = []
forget c (w ∷ ws) = let rest = forget c ws in if w == c then rest else w ∷ rest

-- The loop that hands out tokens: what is left of them, who still waits, and who got one.
unfoldable pub hand_tokens : (ℕ → Bool) → ℕ → List ℕ → ℕ × List ℕ × List ℕ
hand_tokens alive tokens [] = (tokens, [], [])
hand_tokens alive zero (w ∷ ws) = (zero, w ∷ ws, [])
hand_tokens alive (suc n) (w ∷ ws) =
    let (t, rest, got) = hand_tokens alive n ws in
    let skipped = hand_tokens alive (suc n) ws in if alive w then (t, rest, w ∷ got) else skipped

unfoldable pub hand_out : (ℕ → Bool) → Server → Server
hand_out alive s =
    let (t, rest, got) = hand_tokens alive s.tokens s.waiting in
    record s { tokens = t; waiting = rest; given = s.given ++ got }

-- What the server reads from a client: `W`, `C`, `S` with its count, any other byte, the end, or an `S` and
-- then the end.
pub data Request : Type 0 where
  wait cancel unknown hang_up cut_signal : Request
  signal : (n : ℕ) → Request

-- One round of `client`.
unfoldable pub client : (ℕ → Bool) → ℕ → Request → Server → Server
client alive c wait s = hand_out alive (record s { waiting = s.waiting ++ (c ∷ []) })
client alive c cancel s =
    let (rest, found) = remove c s.waiting in
    hand_out alive
      (record s { waiting = rest; canceled = if found then s.canceled ++ (c ∷ []) else s.canceled })
client alive c (signal n) s = hand_out alive (record s { tokens = s.tokens + n })
client alive c unknown s = hand_out alive s
client alive c hang_up s = record s {
  waiting = (remove c s.waiting).0;
  clients = forget c s.clients;
}
client alive c cut_signal s = s

-- `serve`, for one connection.
unfoldable pub accept : ℕ → Server → Server
accept c s = if s.closed then s else record s { clients = c ∷ s.clients }

unfoldable pub shutdown : Server → Server
shutdown s = record s { closed = true; clients = []; waiting = [] }
