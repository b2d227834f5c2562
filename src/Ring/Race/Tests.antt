-- ===== src/Ring/Race/Tests.antt =====
-- Two producers and the reader on a ring of 4096 bytes: the second loses the compare-and-swap, and
-- the reader comes while it still writes.
use go_ipc.Prelude.{ℕ, ◌+◌, ◌≤◌, ◌≡◌, ◌≢◌, ◌⊎◌, true, List, [], ◌∷◌, ◌++◌, refl, arith}
use go_ipc.Memory.{load32, store32, slice, copy_bytes, clear_bytes, overlay}
use go_ipc.Ring.Consume.{clear_record}
use go_ipc.Ring.{release, Ring, fresh_ring, max_message_size, align}
use go_ipc.Ring.Producer.{has_room, write_header, fill, commit}
use go_ipc.Ring.Reader.{Msg}
use go_ipc.Ring.Records.{Record, IsRing}
use go_ipc.Ring.Layout.Sizes.{fresh_ring-IsRing}
use go_ipc.Ring.Race.{
  Phase, Reader, broken, World, update, Stamped, need_of, Move, asks, loads, sees_room, swaps,
  loses, heads, fills, commits, Turn, starts, takes, produces, reads, Reach, begin, later, start,
}
use go_ipc.Ring.Race.Sits.{stamped}
use go_ipc.Ring.Race.Invariant.{front, Ordered}
use go_ipc.Ring.Race.Ranges.{Writes}
use go_ipc.Ring.Race.Safety.{Reach-exact, Reach-Ordered, Reach-intact, Reach-apart}
use mathlib.Core.List.{Perm}

abbrev small_ring : Ring
small_ring = fresh_ring 4096 0

small_ring-IsRing : IsRing small_ring []
small_ring-IsRing = fresh_ring-IsRing 4096 0 (omega arith) refl (omega arith)

abbrev first : Msg
first = (7, 1 ∷ 2 ∷ 3 ∷ [])

abbrev second : Msg
second = (9, 4 ∷ [])

room : (m : Msg) → need_of 4096 0 m ≡ 16 → has_room 0 0 4096 (need_of 4096 0 m) ≡ true
unfolding has_room
room m e = rw e refl

-- A world that is reached, by its steps.
record Run : Type 0 where
  at : World
  reach : Reach small_ring at

abbrev nobody : Run
nobody = record { at = start small_ring; reach = begin }

produce :
    (i : ℕ) (run : Run) {r : Ring} {p : Phase} {out : List Stamped}
    → Move run.at.ring (run.at.phases i) r p out
    → Run
produce i run mv = record { at = _; reach = later run.reach (produces i mv) }

read_on :
    (run : Run) {r : Ring} {rd : Reader} {out : List Stamped}
    → Turn run.at.ring run.at.reader r rd out
    → Run
read_on run t = record { at = _; reach = later run.reach (reads t) }

-- Both load the tail, the first swaps it, the second loses.
swapped : Run
unfolding update align produce max_message_size
swapped =
    let a = produce 0 nobody (asks {m = first} (omega arith) refl refl) in
    let b = produce 1 a (asks {m = second} (omega arith) refl refl) in
    let c = produce 0 b loads in
    let d = produce 1 c loads in
    let e = produce 0 d (sees_room (room first refl)) in
    let f = produce 1 e (sees_room (room second refl)) in
    let g = produce 0 f (swaps refl (omega arith)) in produce 1 g (loses refl)

-- The second takes the range behind, while the first writes its header.
sharing : Run
unfolding swapped update align produce has_room
sharing =
    let a = produce 1 swapped loads in
    let b = produce 0 a heads in
    let c = produce 1 b (sees_room refl) in produce 1 c (swaps refl (omega arith))

committed : Run
unfolding sharing swapped update align produce has_room
committed = produce 0 (produce 0 sharing fills) commits

delivered : Run
unfolding committed sharing swapped update align produce read_on has_room write_header fill commit
    clear_record load32 store32 slice copy_bytes clear_bytes overlay release
delivered =
    let a = read_on committed (starts {limit = 8} (omega arith)) in
    read_on a (takes refl refl refl refl refl refl)

abbrev raced : World
raced = delivered.at

-- The message of the first producer is delivered, while the second still owns its range.
raced_delivers : raced.delivered ≡ (0, first) ∷ []
unfolding delivered committed sharing swapped update align produce read_on has_room write_header
    fill commit clear_record load32 store32 slice copy_bytes clear_bytes overlay release
raced_delivers = refl

Reach-exact_example :
    (xs : List Record) × IsRing (record raced.ring { head = front raced }) xs
    × Perm (raced.delivered ++ stamped (front raced) xs) raced.sent
Reach-exact_example = Reach-exact small_ring-IsRing (omega arith) delivered.reach

Reach-Ordered_example : Ordered (front raced) raced.delivered
Reach-Ordered_example = Reach-Ordered small_ring-IsRing (omega arith) delivered.reach

Reach-intact_example : raced.reader ≢ broken
Reach-intact_example = Reach-intact small_ring-IsRing (omega arith) delivered.reach

abbrev shared : World
shared = sharing.at

first-Writes : Writes shared.ring.capacity (shared.phases 0) 0 16
unfolding sharing swapped produce update align
first-Writes = (refl, refl)

second-Writes : Writes shared.ring.capacity (shared.phases 1) 16 16
unfolding sharing swapped produce update align
second-Writes = (refl, refl)

Reach-apart_example :
    (0 + 16 ≤ shared.ring.capacity)
    × (16 + 16 ≤ shared.ring.capacity)
    × ((0 + 16 ≤ 16) ⊎ (16 + 16 ≤ 0))
Reach-apart_example =
    Reach-apart small_ring-IsRing (omega arith) sharing.reach 0 1 0 16 16 16 first-Writes
      second-Writes (omega arith)
