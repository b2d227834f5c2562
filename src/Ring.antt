-- ===== src/Ring.antt =====
-- ring.go: the lock-free multi-producer single-consumer ring of variable-length records.
-- A `Ring` here is the shared memory: the fields of `ringHeader` and the bytes of the data region.
-- The atomics are the fields themselves. The capacity is a power of two (`Layout.init_ring` and
-- `Layout.attach_ring` see to it), so that `cursor & mask` is `cursor % capacity`.
-- This file has the constants, the state and the accessors; the children have the operations.
pub mod Layout
mod Tests
pub mod Producer
pub mod Reader
pub mod Recovery
pub mod Handles
pub mod Records
pub mod Replace
pub mod Stores
pub mod Steps
pub mod Claims
pub mod Publish
pub mod Consume
pub mod Reading
pub mod Filling
pub mod Race
pub mod Overflow
pub mod History
pub mod Bounds
use go_ipc.Prelude.{
  ℕ, zero, suc, ◌+◌, ◌-◌, ◌*◌, ◌/◌, ◌%◌, ◌^◌, bit_and, Bool, true, false, not, ◌&&◌, ◌||◌, Option,
  none, some, List, [], ◌∷◌, ◌++◌, ltb, leb, ◌==◌, if◌then◌else◌, length, get_elem?, set, replicate,
}
use go_ipc.Words.{
  u64_add, u64_sub, i32_add, i32_neg, i32_not_positive, i32_of, u64_of_i32, max_int32,
}
use go_ipc.Memory.{Bytes, load32, store32, copy_bytes, clear_bytes, slice}
use go_ipc.Errors.{
  Err, Result, ok, err, full, message_too_large, reserved_type, too_small, unaligned, bad_layout,
  corrupt, empty,
}

abbrev pub ring_magic : ℕ
ring_magic = 0x676F2D6970632D31

abbrev pub ring_version : ℕ
ring_version = 2

abbrev pub record_header_size : ℕ
record_header_size = 8

abbrev pub claim_slots : ℕ
claim_slots = 256

abbrev pub header_size : ℕ
header_size = 4 * 128 + claim_slots * 64

abbrev pub min_capacity : ℕ
min_capacity = 4096

abbrev pub type_padding : ℕ
type_padding = 0xFFFFFFFF

abbrev pub no_intent : ℕ
no_intent = 2 ^ 64 - 1

-- `claimSlot`
pub record Slot : Type 0 where
  pub owner : ℕ
  pub at : ℕ
  pub size : ℕ

pub record Ring : Type 0 where
  pub capacity : ℕ
  pub consumer : ℕ
  pub tail : ℕ
  pub head : ℕ
  pub head_cache : ℕ
  pub recv_waiters : ℕ
  pub send_waiters : ℕ
  pub slots : List Slot
  pub bytes : Bytes

abbrev pub free_slot : Slot
free_slot = record { owner = 0; at = no_intent; size = 0 }

-- The control block after `clear(buf)` and the stores of `initRing`.
abbrev pub fresh_ring : ℕ → ℕ → Ring
fresh_ring capacity consumer = record {
  capacity = capacity;
  consumer = consumer;
  tail = 0;
  head = 0;
  head_cache = 0;
  recv_waiters = 0;
  send_waiters = 0;
  slots = replicate claim_slots free_slot;
  bytes = λ _. 0;
}

abbrev pub ring_size : ℕ → ℕ
ring_size capacity = header_size + capacity

unfoldable pub max_message_size : Ring → ℕ
max_message_size r =
    let limit = r.capacity / 2 - record_header_size in
    if ltb (max_int32 - record_header_size) limit then max_int32 - record_header_size else limit

unfoldable pub buffered : Ring → ℕ
buffered r = u64_sub r.tail r.head

unfoldable pub is_empty : Ring → Bool
is_empty r = r.head == r.tail

-- `uint64((n + 7) &^ 7)` of an int32 `n`: the addition is that of int32.
unfoldable pub align : ℕ → ℕ
align n = u64_of_i32 (i32_add n 7 / 8 * 8)

-- `cursor & mask`.
abbrev pub index_of : Ring → ℕ → ℕ
index_of r cursor = cursor % r.capacity

-- The type field follows the length field.
abbrev pub load_type : Bytes → ℕ → ℕ
load_type m idx = load32 m (idx + 4)

abbrev pub store_type : Bytes → ℕ → ℕ → Bytes
store_type m idx v = store32 m (idx + 4) v

-- A slot of -1, for a claim that no slot attributes, is `none`.
pub record Claim : Type 0 where
  pub index : ℕ
  pub total : ℕ
  pub slot : Option ℕ

abbrev pub set_at : ℕ → Slot → Slot
set_at v s = record s { at = v }

-- `slots[idx].at.Store(v)` and the like, by a function on the slot.
unfoldable pub update_slot : ℕ → (Slot → Slot) → List Slot → List Slot
update_slot i f [] = []
update_slot zero f (s ∷ ss) = f s ∷ ss
update_slot (suc i) f (s ∷ ss) = s ∷ update_slot i f ss

-- `release`: the slot claims nothing any more.
unfoldable pub release : Option ℕ → Ring → Ring
release none r = r
release (some slot) r = record r { slots = update_slot slot (set_at no_intent) r.slots }

-- The range of a claim is written to its slot before the claim takes it.
unfoldable pub store_intent : Option ℕ → ℕ → ℕ → Ring → Ring
store_intent none tail need r = r
store_intent (some slot) tail need r = record r {
  slots = update_slot slot (λ s. record s { at = tail; size = need }) r.slots;
}
