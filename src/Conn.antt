-- ===== src/Conn.antt =====
-- conn.go: a byte stream over a channel of messages. The channel, the deadlines' contexts and the locks
-- are parameters: an operation of the channel takes the state `W` of the world to the next one, and
-- says whether the deadline of its context had passed when `translate` looks.
pub mod Stream
pub mod Pipe
mod Tests
use go_ipc.Prelude.{
  ℕ, zero, suc, ◌+◌, ◌-◌, Bool, true, false, Option, none, some, List, [], ◌∷◌, take, drop, length,
  ltb, ◌==◌, if◌then◌else◌,
}
use go_ipc.Errors.{Err, Result, ok, err, closed, other}

abbrev pub type_stream_data : ℕ
type_stream_data = 0

abbrev pub type_stream_eof : ℕ
type_stream_eof = 1

-- `context.Canceled`.
abbrev pub canceled : Err
canceled = other 0

-- The errors of a `net.Conn`: `io.EOF`, `os.ErrDeadlineExceeded`, `net.ErrClosed`, and all others.
pub data ConnErr : Type 0 where
  end_of_file : ConnErr
  deadline_exceeded : ConnErr
  conn_closed : ConnErr
  failed : Err → ConnErr

-- What a `Conn` asks of its `Channel` and of its deadlines. `begin_read` and `begin_write` give the
-- error of `deadline.begin`.
pub record Channel (W : Type 0) : Type 0 where
  pub max_message_size : ℕ
  pub begin_read : W → W × Option ConnErr
  pub begin_write : W → W × Option ConnErr
  pub recv_into : W → W × Result (ℕ × List ℕ) × Bool
  pub send_typed : ℕ → List ℕ → W → W × Option Err × Bool
  pub try_send_typed : ℕ → List ℕ → W → W
  pub cancel_base : W → W
  pub close : W → W × Option Err

pub record Conn : Type 0 where
  pub pending : List ℕ
  pub eof : Bool
  pub eof_sent : Bool
  pub once_done : Bool

-- The cases of `translate` on the error itself.
abbrev pub translate_err : Err → ConnErr
translate_err closed = conn_closed
translate_err (other zero) = conn_closed
translate_err e = failed e

-- `translate`: the deadline is asked first, also where there is no error.
unfoldable pub translate : Bool → Option Err → Option ConnErr
translate true e = some deadline_exceeded
translate false none = none
translate false (some e) = some (translate_err e)

abbrev error_of : Result (ℕ × List ℕ) → Option Err
error_of (ok msg) = none
error_of (err e) = some e

abbrev pub message_of : Result (ℕ × List ℕ) → ℕ × List ℕ
message_of (ok msg) = msg
message_of (err e) = (0, [])

module _ {W : Type 0} (ch : Channel W) where
  -- The copy to the caller's buffer of `size` bytes.
  abbrev pub hand_out : ℕ → Conn → W → Conn × W × (List ℕ × Option ConnErr)
  hand_out size c w = (record c { pending = drop size c.pending }, w, (take size c.pending, none))

  -- One round of the loop of `Read`: an answer, or the message that was received.
  unfoldable pub receive_round : Conn → W → W × Result (ℕ × List ℕ) × Option ConnErr
  receive_round c w =
      let (w1, stopped) = ch.begin_read w in
      let (w2, got, expired) = ch.recv_into w1 in
      elim stopped [
        | some e ↦ (w1, ok (0, []), some e)
        | none ↦ (w2, got, translate expired (error_of got))
      ]

  -- `Read` with a buffer of `size` bytes: the bytes copied and the error. Empty messages keep the loop
  -- going; `none` means that the fuel ran out.
  unfoldable pub read : ℕ → ℕ → Conn → W → Option (Conn × W × (List ℕ × Option ConnErr))
  read zero size c w = none
  read (suc fuel) size c w =
      let (w', got, e) = receive_round c w in
      let (typ, msg) = message_of got in
      let later = read fuel size (record c { pending = msg }) w' in
      elim c.pending [
        | _ ∷ _ ↦ some (hand_out size c w)
        | [] ↦ if c.eof then some (c, w, ([], some end_of_file)) else elim e [
          | some x ↦ some (c, w', ([], some x))
          | none ↦
              if typ == type_stream_eof
              then some (record c { eof = true }, w', ([], some end_of_file))
              else later
        ]
      ]

  -- The loop of `Write` on the bytes that are left; `written` counts those before.
  unfoldable pub write_loop : ℕ → ℕ → List ℕ → W → Option (W × ℕ × Option ConnErr)
  write_loop zero written left w = none
  write_loop (suc fuel) written left w =
      let limit = ch.max_message_size in
      let chunk = take limit left in
      let (w1, stopped) = ch.begin_write w in
      let (w2, e, expired) = ch.send_typed type_stream_data chunk w1 in
      let later = write_loop fuel (written + length chunk) (drop limit left) w2 in
      elim left [
        | [] ↦ some (w, written, none)
        | _ ∷ _ ↦ elim stopped [
          | some x ↦ some (w1, written, some x)
          | none ↦ elim (translate expired e) [ some x ↦ some (w2, written, some x) | none ↦ later ]
        ]
      ]

  unfoldable pub write : List ℕ → Conn → W → Option (W × ℕ × Option ConnErr)
  write p c w =
      let run = write_loop (length p + 1) 0 p w in
      if c.eof_sent then some (w, 0, some conn_closed) else run

  unfoldable pub close_write : Conn → W → Conn × W × Option ConnErr
  close_write c w =
      let (w1, stopped) = ch.begin_write w in
      let (w2, e, expired) = ch.send_typed type_stream_eof [] w1 in
      if c.eof_sent then (c, w, some conn_closed) else elim stopped [
        | some x ↦ (c, w1, some x)
        | none ↦ elim (translate expired e) [
          | some x ↦ (c, w2, some x)
          | none ↦ (record c { eof_sent = true }, w2, none)
        ]
      ]

  -- `Close`; what the attempt to send the end-of-stream message gives is ignored.
  unfoldable pub close_conn : Conn → W → Conn × W × Option Err
  close_conn c w =
      let told = if c.eof_sent then w else ch.try_send_typed type_stream_eof [] w in
      let (w', e) = ch.close (ch.cancel_base told) in
      if c.once_done then (c, w, none) else (record c { eof_sent = true; once_done = true }, w', e)
