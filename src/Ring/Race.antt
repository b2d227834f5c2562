-- ===== src/Ring/Race.antt =====
-- `tryClaim`, `Commit`, `Abort` and `Read` of ring.go as interleaved steps of many producers and one
-- reader on one ring. A step is an atomic operation on the shared header, or the plain writes of a
-- process between two of them: the header of a record (its type, then its length, which alone a
-- reader tests), the payload, the clearing of a record. The claims are anonymous (`TryClaim`):
-- the slots are for the recovery of dead producers, which takes no part here.
pub mod Sits
pub mod Invariant
pub mod Moves
pub mod Producing
pub mod Writing
pub mod Claiming
pub mod Swapping
pub mod Kept
pub mod Turns
pub mod Reads
pub mod Ranges
pub mod Safety
mod Tests
use go_ipc.Prelude.{
  ℕ, ◌+◌, ◌-◌, ◌%◌, ◌^◌, ◌<◌, ◌≡◌, Bool, true, false, not, ◌&&◌, ◌||◌, Option, none, List, [], ◌∷◌,
  ◌++◌, length, ltb, leb, ◌==◌, if◌then◌else◌,
}
use go_ipc.Words.{u64_add, u64_sub, i32_not_positive}
use go_ipc.Memory.{load32, slice}
use go_ipc.Ring.{Ring, Claim, align, load_type, type_padding, record_header_size, max_message_size}
use go_ipc.Ring.Producer.{has_room, write_padding, write_header, fill, commit, abort}
use go_ipc.Ring.Reader.{Msg}
use go_ipc.Ring.Consume.{clear_record}

-- The length of the record of a message, and `aligned`, `toEnd` and `need` of `tryClaim`.
abbrev pub record_len : Msg → ℕ
record_len m = record_header_size + length m.1

abbrev pub aligned : Msg → ℕ
aligned m = align (record_len m)

abbrev pub rest_of_lap : ℕ → ℕ → ℕ
rest_of_lap capacity tail = capacity - tail % capacity

abbrev pub crosses : ℕ → ℕ → Msg → Bool
crosses capacity tail m = ltb (rest_of_lap capacity tail) (aligned m)

abbrev pub need_of : ℕ → ℕ → Msg → ℕ
need_of capacity tail m =
    if crosses capacity tail m then u64_add (aligned m) (rest_of_lap capacity tail) else aligned m

-- Where a producer stands, with what its registers hold. `at` is the cursor of the record and
-- `index` where it lies in the data region.
pub data Phase : Type 0 where
  idle : Phase
  wants : (m : Msg) → Phase
  loaded : (m : Msg) (tail : ℕ) → Phase
  short : (m : Msg) (tail : ℕ) → Phase
  caching : (m : Msg) (tail head : ℕ) → Phase
  roomy : (m : Msg) (tail : ℕ) → Phase
  crossed : (m : Msg) (tail : ℕ) → Phase
  taken : (m : Msg) (at index : ℕ) → Phase
  owns : (m : Msg) (at index : ℕ) → Phase
  written : (m : Msg) (at index : ℕ) → Phase

abbrev pub claim_of : Msg → ℕ → Claim
claim_of m index = record { index = index; total = record_len m; slot = none }

-- A message with the cursor of its record, which no other record of the ring's life has.
abbrev pub Stamped : Type 0
Stamped = ℕ × Msg

-- A step of one producer: the ring and the phase after it, and what it published.
pub data Move (r : Ring) : Phase → Ring → Phase → List Stamped → Type 0 where
  asks :
      {m : Msg}
      → m.0 < 2 ^ 32
      → (m.0 == type_padding) ≡ false
      → (leb (2 ^ 63) (length m.1) || ltb (max_message_size r) (length m.1)) ≡ false
      → Move r idle r (wants m) []
  loads : {m : Msg} → Move r (wants m) r (loaded m r.tail) []
  sees_room :
      {m : Msg} {tail : ℕ}
      → has_room tail r.head_cache r.capacity (need_of r.capacity tail m) ≡ true
      → Move r (loaded m tail) r (roomy m tail) []
  misses :
      {m : Msg} {tail : ℕ}
      → has_room tail r.head_cache r.capacity (need_of r.capacity tail m) ≡ false
      → Move r (loaded m tail) r (short m tail) []
  overtaken : {m : Msg} {tail : ℕ} → tail < r.head → Move r (short m tail) r (wants m) []
  reloads :
      {m : Msg} {tail : ℕ}
      → has_room tail r.head r.capacity (need_of r.capacity tail m) ≡ true
      → Move r (short m tail) r (caching m tail r.head) []
  gives_up :
      {m : Msg} {tail : ℕ}
      → ltb tail r.head ≡ false
      → has_room tail r.head r.capacity (need_of r.capacity tail m) ≡ false
      → Move r (short m tail) r idle []
  caches :
      {m : Msg} {tail head : ℕ}
      → Move r (caching m tail head) (record r { head_cache = head }) (roomy m tail) []
  swaps :
      {m : Msg} {tail : ℕ}
      → (r.tail == tail) ≡ true
      → tail + need_of r.capacity tail m < 2 ^ 64
      → Move r
          (roomy m tail)
          (record r { tail = u64_add tail (need_of r.capacity tail m) })
          (if crosses r.capacity tail m then crossed m tail else taken m tail (tail % r.capacity))
          []
  loses : {m : Msg} {tail : ℕ} → (r.tail == tail) ≡ false → Move r (roomy m tail) r (wants m) []
  pads :
      {m : Msg} {tail : ℕ}
      → Move r
          (crossed m tail)
          (record r {
            bytes = write_padding (tail % r.capacity) (rest_of_lap r.capacity tail) r.bytes;
          })
          (taken m (tail + rest_of_lap r.capacity tail) 0)
          []
  heads :
      {m : Msg} {at index : ℕ}
      → Move r
          (taken m at index)
          (record r { bytes = write_header index m.0 (record_len m) r.bytes })
          (owns m at index)
          []
  fills :
      {m : Msg} {at index : ℕ}
      → Move r (owns m at index) (fill (claim_of m index) m.1 r) (written m at index) []
  commits :
      {m : Msg} {at index : ℕ}
      → Move r (written m at index) (commit (claim_of m index) r) idle ((at, m) ∷ [])
  aborts :
      {m : Msg} {at index : ℕ} → Move r (written m at index) (abort (claim_of m index) r) idle []
  drops : {m : Msg} {at index : ℕ} → Move r (owns m at index) (abort (claim_of m index) r) idle []

-- Where the reader stands: outside of `Read`, in its loop, or out of it with `ErrCorrupt` or by a panic.
pub data Reader : Type 0 where
  resting : Reader
  reading : (limit available consumed count : ℕ) → Reader
  broken : Reader

-- `index` and `length` of a round of the loop, and its test for a corrupt ring.
abbrev pub index_at : Ring → ℕ → ℕ
index_at r consumed = u64_add r.head consumed % r.capacity

abbrev pub length_at : Ring → ℕ → ℕ
length_at r consumed = load32 r.bytes (index_at r consumed)

abbrev pub is_corrupt : Ring → ℕ → ℕ → Bool
is_corrupt r available consumed =
    ltb (length_at r consumed) record_header_size
    || ltb (available - consumed) (align (length_at r consumed))
    || ltb r.capacity (u64_add (index_at r consumed) (align (length_at r consumed)))

-- The sum wrapped, so that the slice that `clear` gets ends before it starts.
abbrev pub overruns : Ring → ℕ → Bool
overruns r consumed = leb (2 ^ 64) (index_at r consumed + align (length_at r consumed))

abbrev pub message_at : Ring → ℕ → Msg
message_at r consumed = (
  load_type r.bytes (index_at r consumed),
  slice r.bytes (index_at r consumed + record_header_size)
      (length_at r consumed - record_header_size),
)

abbrev pub cleared_at : Ring → ℕ → Ring
cleared_at r consumed = record r {
  bytes = clear_record r.bytes (index_at r consumed) (align (length_at r consumed));
}

-- A step of the reader: the ring and the reader after it, and what `fn` got.
pub data Turn (r : Ring) : Reader → Ring → Reader → List Stamped → Type 0 where
  starts : {limit : ℕ} → 0 < limit → Turn r resting r (reading limit (u64_sub r.tail r.head) 0 0) []
  takes :
      {limit available consumed count : ℕ}
      → ltb count limit ≡ true
      → ltb consumed available ≡ true
      → i32_not_positive (length_at r consumed) ≡ false
      → is_corrupt r available consumed ≡ false
      → overruns r consumed ≡ false
      → ((message_at r consumed).0 == type_padding) ≡ false
      → Turn r
          (reading limit available consumed count)
          (cleared_at r consumed)
          (reading limit available (consumed + align (length_at r consumed)) (count + 1))
          ((r.head + consumed, message_at r consumed) ∷ [])
  skips :
      {limit available consumed count : ℕ}
      → ltb count limit ≡ true
      → ltb consumed available ≡ true
      → i32_not_positive (length_at r consumed) ≡ false
      → is_corrupt r available consumed ≡ false
      → overruns r consumed ≡ false
      → ((message_at r consumed).0 == type_padding) ≡ true
      → Turn r
          (reading limit available consumed count)
          (cleared_at r consumed)
          (reading limit available (consumed + align (length_at r consumed)) count)
          []
  breaks :
      {limit available consumed count : ℕ}
      → ltb count limit ≡ true
      → ltb consumed available ≡ true
      → i32_not_positive (length_at r consumed) ≡ false
      → is_corrupt r available consumed ≡ true
      → Turn r (reading limit available consumed count) r broken []
  panics :
      {limit available consumed count : ℕ}
      → ltb count limit ≡ true
      → ltb consumed available ≡ true
      → i32_not_positive (length_at r consumed) ≡ false
      → is_corrupt r available consumed ≡ false
      → overruns r consumed ≡ true
      → Turn r (reading limit available consumed count) r broken []
  returns :
      {limit available consumed count : ℕ}
      → (not (ltb count limit && ltb consumed available) || i32_not_positive (length_at r consumed))
        ≡ true
      → Turn r
          (reading limit available consumed count)
          (record r { head = if ltb 0 consumed then u64_add r.head consumed else r.head })
          resting
          []

-- All processes, with what was published and what was delivered so far, newest first.
pub record World : Type 0 where
  pub ring : Ring
  pub phases : ℕ → Phase
  pub reader : Reader
  pub sent : List Stamped
  pub delivered : List Stamped

unfoldable pub update : (ℕ → Phase) → ℕ → Phase → ℕ → Phase
update f i p j = if j == i then p else f j

pub data Step (w : World) : World → Type 0 where
  produces :
      (i : ℕ) {r : Ring} {p : Phase} {out : List Stamped}
      → Move w.ring (w.phases i) r p out
      → Step w (record w { ring = r; phases = update w.phases i p; sent = out ++ w.sent })
  reads :
      {r : Ring} {rd : Reader} {out : List Stamped}
      → Turn w.ring w.reader r rd out
      → Step w (record w { ring = r; reader = rd; delivered = out ++ w.delivered })

-- A ring that nobody used yet.
abbrev pub start : Ring → World
start r = record { ring = r; phases = λ _. idle; reader = resting; sent = []; delivered = [] }

pub data Reach (r : Ring) : World → Type 0 where
  begin : Reach r (start r)
  later : {w w' : World} → Reach r w → Step w w' → Reach r w'
