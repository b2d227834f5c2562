-- ===== src/Conn/Tests.antt =====
-- Tests of the stream model.
use go_ipc.Prelude.{ℕ, true, false, none, some, List, [], ◌∷◌, ◌≡◌, refl, arith}
use go_ipc.Errors.{ok}
use go_ipc.Conn.{
  Channel, Conn, end_of_file, deadline_exceeded, read, write, write_loop, translate, close_write,
}
use go_ipc.Conn.Stream.{Sent, logged, Written, conn_write_lem}
use go_ipc.Conn.Pipe.{pipe, stream, ends, ReadOut, conn_read_lem, write-close_write, read_late_lem}

abbrev fresh_conn : Conn
fresh_conn = record { pending = []; eof = false; eof_sent = false; once_done = false }

abbrev five : List ℕ
five = 1 ∷ 2 ∷ 3 ∷ 4 ∷ 5 ∷ []

-- Two messages of two bytes are five bytes short of one, which is the third.
write_test :
    write (pipe 2) five fresh_conn []
    ≡ some ((0, 1 ∷ 2 ∷ []) ∷ (0, 3 ∷ 4 ∷ []) ∷ (0, 5 ∷ []) ∷ [], 5, none)
unfolding write write_loop translate
write_test = refl

conn_write_lem_example :
    Written (pipe 2) 0 five [] (write (logged (pipe 2)) five fresh_conn ([], []))
conn_write_lem_example = conn_write_lem (pipe 2) five fresh_conn [] [] (omega arith) refl

conn_read_lem_example :
    ReadOut 2 3 fresh_conn ((0, five) ∷ []) (read (pipe 2) 3 3 fresh_conn ((0, five) ∷ []))
conn_read_lem_example = conn_read_lem 2 3 (omega arith) fresh_conn ((0, five) ∷ [])

write-close_write_example :
    (q : Sent) × (write (pipe 2) five fresh_conn [] ≡ some (q, 5, none))
    × (let (c', q', e) = close_write (pipe 2) fresh_conn q in
        (stream q' ≡ five) × (ends q' ≡ end_of_file) × (c'.eof_sent ≡ true) × (e ≡ none))
write-close_write_example = write-close_write 2 (omega arith) five fresh_conn refl

-- A channel with a message, of which the deadline passes as it arrives.
abbrev late_pipe : Channel Sent
late_pipe = record (pipe 2) { recv_into = λ q. ([], ok (0, five), true) }

read_late_lem_example :
    read late_pipe 1 3 fresh_conn ((0, five) ∷ [])
    ≡ some (fresh_conn, [], ([], some deadline_exceeded))
read_late_lem_example = read_late_lem late_pipe 0 3 false false ((0, five) ∷ []) [] 0 five refl refl
