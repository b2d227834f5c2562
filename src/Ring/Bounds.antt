-- ===== src/Ring/Bounds.antt =====
-- `align`, `MaxMessageSize` and `hasRoom` of ring.go as plain arithmetic, and where int32 overflows.
use go_ipc.Prelude.{ℕ, ◌+◌, ◌-◌, ◌*◌, ◌/◌, ◌^◌, ◌≤◌, ◌<◌, ◌≡◌, true, ◌↔◌, arith}
use go_ipc.Words.{max_int32}
use go_ipc.Ring.{Ring, align, max_message_size, min_capacity}
use go_ipc.Ring.Producer.{has_room}

-- The next multiple of eight.
abbrev pub round8 : ℕ → ℕ
round8 n = (n + 7) / 8 * 8

pub align-round8 : (n : ℕ) → n + 7 < 2 ^ 31 → align n ≡ round8 n
unfolding align
align-round8 n h = ground arith

-- From 2 ^ 31 - 7 on, the addition of `align` overflows an int32, and its result is not a size.
pub align_overflow : (n : ℕ) → n < 2 ^ 31 → 2 ^ 31 ≤ n + 7 → align n ≡ 2 ^ 64 - 2 ^ 31
unfolding align
align_overflow n h h' = ground arith

pub max_message_size-le :
    (r : Ring)
    → min_capacity ≤ r.capacity
    → (max_message_size r + 8 ≤ r.capacity / 2) × (max_message_size r + 8 ≤ max_int32)
unfolding max_message_size
max_message_size-le r h = ground arith

-- `hasRoom` is true exactly when the cursors are in order and `need` bytes are free.
pub has_room_iff :
    (tail head cap need : ℕ)
    → tail < 2 ^ 64
    → (has_room tail head cap need ≡ true) ↔ ((head ≤ tail) × (tail + need ≤ head + cap))
unfolding has_room
has_room_iff tail head cap need h = ground arith
