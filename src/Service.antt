-- ===== src/Service.antt =====
-- service.go: a server answers the calls of its clients over a channel each. This file has the constants, the
-- frame of a payload, and what the server does with one request; the children have the rest.
pub mod Frame
pub mod Client
pub mod Calls
pub mod Answers
pub mod Sessions
pub mod Members
pub mod Ordinals
pub mod Typed
mod Tests
use go_ipc.Prelude.{
  ℕ, zero, suc, ◌+◌, ◌*◌, ◌/◌, ◌%◌, Bool, Option, none, some, List, [], ◌∷◌, ◌++◌, ltb, leb,
  if◌then◌else◌, length, take, drop,
}
use go_ipc.Ring.Reader.{Msg}

abbrev pub service_reserved_min : ℕ
service_reserved_min = 0xFFFFFFF0

abbrev pub type_service_knock : ℕ
type_service_knock = 0xFFFFFFF0

abbrev pub type_service_hello : ℕ
type_service_hello = 0xFFFFFFF1

abbrev pub type_service_error : ℕ
type_service_error = 0xFFFFFFF2

abbrev pub service_seq_size : ℕ
service_seq_size = 8

-- `binary.LittleEndian`, for a number of `n` bytes.
unfoldable pub put_uint : ℕ → ℕ → List ℕ
put_uint zero x = []
put_uint (suc n) x = (x % 256) ∷ put_uint n (x / 256)

unfoldable pub get_uint : ℕ → List ℕ → ℕ
get_uint zero bytes = 0
get_uint (suc n) [] = 0
get_uint (suc n) (b ∷ bytes) = b + 256 * get_uint n bytes

-- `frame`: the payload behind its sequence number.
unfoldable pub frame : ℕ → List ℕ → List ℕ
frame seq payload = put_uint service_seq_size seq ++ payload

-- What a handler gives: a reply, or the text of an error.
pub data Answer : Type 0 where
  reply : (typ : ℕ) (payload : List ℕ) → Answer
  failed : (text : List ℕ) → Answer

-- The errors of the service itself, whose texts `fmt.Sprintf` makes.
pub data Complaint : Type 0 where
  short_request : Complaint
  reserved_request reserved_reply : (typ : ℕ) → Complaint

module _ (text_of : Complaint → List ℕ) where
  -- What is sent for the answer of the handler.
  unfoldable pub reply_to : ℕ → Answer → Msg
  reply_to seq (failed text) = (type_service_error, frame seq text)
  reply_to seq (reply typ payload) =
      if leb service_reserved_min typ
      then (type_service_error, frame seq (text_of (reserved_reply typ)))
      else (typ, frame seq payload)

  -- `Service.answer`: the reply that is sent.
  unfoldable pub answer : (ℕ → List ℕ → Answer) → Msg → Msg
  unfolding reply_to
  answer handler (typ, msg) =
      let seq = get_uint service_seq_size msg in
      if ltb (length msg) service_seq_size
      then (type_service_error, frame 0 (text_of short_request))
      else if leb service_reserved_min typ
      then (type_service_error, frame seq (text_of (reserved_request typ)))
      else reply_to seq (handler typ (drop service_seq_size msg))
