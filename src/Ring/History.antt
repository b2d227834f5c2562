-- ===== src/Ring/History.antt =====
-- A history of a ring of ring.go: `TryWrite` and `Read` calls one after the other, and what they did.
pub mod Calls
pub mod Order
use go_ipc.Prelude.{ℕ, Option, none, some, Bool, true, false, List, [], ◌∷◌, ◌++◌, ◌≡◌, All}
use go_ipc.Errors.{Err}
use go_ipc.Ring.{Ring}
use go_ipc.Ring.Producer.{try_write}
use go_ipc.Ring.Reader.{Msg, read}
use go_ipc.Ring.Records.{Record, blank, claimed, filled, message, padding}

pub data Call : Type 0 where
  send : (slot : Option ℕ) (typ : ℕ) (payload : List ℕ) → Call
  receive : (limit : ℕ) → Call

-- The ring after it, the messages accepted by it, and those that it delivered.
abbrev pub sent : Msg → Option (Ring × Option Err) → Option (Ring × List Msg × List Msg)
sent msg none = none
sent msg (some (r, none)) = some (r, msg ∷ [], [])
sent msg (some (r, some e)) = some (r, [], [])

abbrev pub delivered : Option (Ring × List Msg × Option Err) → Option (Ring × List Msg × List Msg)
delivered none = none
delivered (some (r, out, e)) = some (r, [], out)

unfoldable pub perform : Call → Ring → Option (Ring × List Msg × List Msg)
perform (send slot typ payload) r = sent (typ, payload) (try_write slot typ payload r)
perform (receive limit) r = delivered (read limit r)

abbrev pub joined :
    List Msg → List Msg → Option (Ring × List Msg × List Msg) → Option (Ring × List Msg × List Msg)
joined acc out none = none
joined acc out (some (r, acc', out')) = some (r, acc ++ acc', out ++ out')

unfoldable pub perform_all : List Call → Ring → Option (Ring × List Msg × List Msg)
perform_all [] r = some (r, [], [])
perform_all (c ∷ cs) r = elim (perform c r) [
  | none ↦ none
  | some (r', acc, out) ↦ joined acc out (perform_all cs r')
]

-- The messages that are committed in a ring and not read yet.
abbrev pub pending : List Record → List Msg
pending [] = []
pending (blank size ∷ xs) = pending xs
pending (claimed len typ ∷ xs) = pending xs
pending (filled typ payload ∷ xs) = pending xs
pending (message typ payload ∷ xs) = (typ, payload) ∷ pending xs
pending (padding len ∷ xs) = pending xs

-- No claim is open: every record is a message or padding.
abbrev pub IsClosed : Record → Type 0
IsClosed (blank size) = ⊥
IsClosed (claimed len typ) = ⊥
IsClosed (filled typ payload) = ⊥
IsClosed (message typ payload) = Unit
IsClosed (padding len) = Unit
