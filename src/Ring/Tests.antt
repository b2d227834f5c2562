-- ===== src/Ring/Tests.antt =====
-- Tests of the ring model: its theorems at a ring of 4096 bytes.
use go_ipc.Prelude.{
  ℕ, ◌+◌, ◌*◌, ◌%◌, ◌^◌, ◌≤◌, ◌<◌, ◌≡◌, ◌≢◌, Bool, true, false, none, some, List, [], ◌∷◌, ◌++◌,
  refl, arith, length,
}
use go_ipc.Memory.{load32}
use go_ipc.Errors.{ok, corrupt}
use go_ipc.Ring.{Ring, Claim, fresh_ring, header_size, max_message_size}
use go_ipc.Ring.Layout.{Segment, init_ring, attach_ring}
use go_ipc.Ring.Layout.Sizes.{fresh_ring-IsRing, init_ring_lem}
use go_ipc.Ring.Producer.{try_claim, try_write, commit, write_header}
use go_ipc.Ring.Reader.{read}
use go_ipc.Ring.Records.{claimed, message, padding, IsRing}
use go_ipc.Ring.Replace.{at_end}
use go_ipc.Ring.Steps.{IsRing-extend, write_header_lem, index_after, payload_at, commit_lem}
use go_ipc.Ring.Claims.{need, pads}
use go_ipc.Ring.Claims.Passes.{Fits}
use go_ipc.Ring.Publish.{IsValidClaim, try_write-room}
use go_ipc.Ring.Reading.{ready}
use go_ipc.Ring.Reading.Whole.{read_lem}
use go_ipc.Ring.Reading.Total.{read_total}
use go_ipc.Ring.Recovery.{Stall, reclaim, acquire_slot, unstall}
use go_ipc.Ring.Recovery.Reclaim.{reclaim_lem}
use go_ipc.Ring.Recovery.Slots.{Acquired, acquire_slot_lem}
use go_ipc.Ring.Recovery.Verdicts.{Unstalled, unstall_lem}
use go_ipc.Ring.History.{Call, send, receive, perform_all}
use go_ipc.Ring.History.Calls.{Performed}
use go_ipc.Ring.History.Order.{perform_all_lem}
use go_ipc.Ring.Overflow.{overflow_corrupts}

abbrev small_ring : Ring
small_ring = fresh_ring 4096 0

small_ring-IsRing : IsRing small_ring []
small_ring-IsRing = fresh_ring-IsRing 4096 0 (omega arith) refl (omega arith)

abbrev calls : List Call
calls = send none 7 (1 ∷ 2 ∷ 3 ∷ []) ∷ receive 4 ∷ []

perform_all_lem_example : Performed small_ring [] (2 * 2 ^ 32) (perform_all calls small_ring)
perform_all_lem_example =
    perform_all_lem calls small_ring-IsRing tt (omega arith, (tt, tt)) (omega arith) (omega arith)

abbrev payload : List ℕ
payload = 1 ∷ 2 ∷ 3 ∷ 4 ∷ 5 ∷ []

payload-IsValidClaim : IsValidClaim small_ring 7 (length payload)
unfolding max_message_size
payload-IsValidClaim = record { typed = omega arith; sized = omega arith; aligns = omega arith }

payload-Fits : Fits small_ring (8 + length payload)
payload-Fits = record { room = omega arith; no_wrap = omega arith }

try_write-room_example :
    (ring : Ring) × (try_write none 7 payload small_ring ≡ some (ring, none))
    × IsRing ring (([] ++ pads small_ring 13) ++ message 7 payload ∷ [])
    × (ring.head ≡ 0)
    × (ring.capacity ≡ 4096)
    × (ring.tail ≡ 0 + need small_ring 13)
try_write-room_example =
    try_write-room none 7 payload small_ring-IsRing payload-IsValidClaim payload-Fits

-- A claim of five bytes is open.
abbrev claimed_ring : Ring
claimed_ring = record small_ring { tail = 16; bytes = write_header 0 7 13 (λ _. 0) }

claimed_ring-IsRing : IsRing claimed_ring (claimed 13 7 ∷ [])
unfolding at_end
claimed_ring-IsRing =
    write_header_lem [] [] 16 13 7
      (IsRing-extend small_ring-IsRing 16 (omega arith) refl (omega arith) (omega arith)
        (omega arith) (omega arith))
      refl (omega arith) (omega arith) (omega arith) (omega arith)

abbrev sent_ring : Ring
sent_ring =
    commit (record { index = index_after claimed_ring []; total = 13; slot = none }) claimed_ring

sent_ring-IsRing : IsRing sent_ring (message 7 (payload_at claimed_ring [] 13) ∷ [])
sent_ring-IsRing = commit_lem [] [] 13 7 claimed_ring-IsRing none

read_lem_example :
    let xs = message 7 (payload_at claimed_ring [] 13) ∷ [] in
    (ring : Ring) × (read 4 sent_ring ≡ some (ring, (ready 4 xs).0, none))
    × IsRing ring (ready 4 xs).1
    × (ring.tail ≡ sent_ring.tail)
    × (ring.capacity ≡ sent_ring.capacity)
read_lem_example = read_lem sent_ring-IsRing 4

read_total_example : read 4 claimed_ring ≢ none
read_total_example = read_total 4 claimed_ring (omega arith) (omega arith) (omega arith)

reclaim_lem_example :
    let st : Stall = record {
      at = 0;
      length = load32 claimed_ring.bytes (claimed_ring.head % claimed_ring.capacity);
      slots = [];
    } in
    (reclaim st 16 [] claimed_ring).1 ≡ true
    × IsRing (reclaim st 16 [] claimed_ring).0 (padding 16 ∷ [])
reclaim_lem_example =
    reclaim_lem (claimed 13 7) [] claimed_ring-IsRing 16 [] [] (omega arith) (omega arith) refl

abbrev nobody : ℕ → Bool
nobody id = false

acquire_slot_lem_example : Acquired nobody 9 small_ring (acquire_slot 9 nobody small_ring)
acquire_slot_lem_example = acquire_slot_lem nobody 9 small_ring

unstall_lem_example : Unstalled nobody 9 claimed_ring (unstall nobody 9 claimed_ring)
unstall_lem_example = unstall_lem nobody 9 claimed_ring

abbrev segment : Segment
segment = record {
  size = header_size + 5000;
  address = 4096;
  magic = 0;
  version = 0;
  ring = fresh_ring 0 0;
}

init_ring_lem_example :
    (made : Segment) × (init_ring segment 5 ≡ ok made)
    × (attach_ring made ≡ ok made.ring)
    × IsRing made.ring []
    × (made.ring.consumer ≡ 5)
    × (header_size + made.ring.capacity ≤ segment.size)
    × (segment.size < header_size + 2 * made.ring.capacity)
init_ring_lem_example = init_ring_lem segment 5 (omega arith) (omega arith) refl

overflow_corrupts_example :
    (ring : Ring) × (c : Claim) × (try_claim none 7 2147483639 (fresh_ring (2 ^ 32) 0)
      ≡ some (ring, ok c))
    × (read 1 (commit c ring) ≡ some (commit c ring, [], some corrupt))
overflow_corrupts_example =
    overflow_corrupts 0 7 2147483639 1 (omega arith) (omega arith) (omega arith) (omega arith)
