-- ===== src/Ring/Layout.antt =====
-- `initRing` and `AttachRing` of ring.go: a buffer becomes a ring, or is taken for one.
pub mod Sizes
use go_ipc.Prelude.{
  ℕ, zero, suc, ◌+◌, ◌-◌, ◌/◌, ◌%◌, ◌^◌, bit_and, not, ◌||◌, ltb, ◌==◌, if◌then◌else◌,
}
use go_ipc.Words.{u64_add}
use go_ipc.Errors.{Result, ok, err, too_small, unaligned, bad_layout}
use go_ipc.Ring.{Ring, ring_magic, ring_version, header_size, min_capacity, fresh_ring}

-- The caller's buffer: its length, the address of its first byte, and the control block in it.
pub record Segment : Type 0 where
  pub size : ℕ
  pub address : ℕ
  pub magic : ℕ
  pub version : ℕ
  pub ring : Ring

-- `bits.Len64`: the number of binary digits. The fuel is the number itself or more.
unfoldable pub bit_len_loop : ℕ → ℕ → ℕ
bit_len_loop zero n = 0
bit_len_loop (suc fuel) n = let rest = bit_len_loop fuel (n / 2) in if n == 0 then 0 else rest + 1

unfoldable pub bit_len : ℕ → ℕ
bit_len n = bit_len_loop 64 n

unfoldable pub init_ring : Segment → ℕ → Result Segment
unfolding bit_len
init_ring seg consumer =
    if ltb seg.size (header_size + min_capacity)
    then err too_small
    else if not (seg.address % 8 == 0)
    then err unaligned
    else let capacity = 2 ^ (bit_len (seg.size - header_size) - 1) in
      ok (record seg {
        magic = ring_magic;
        version = ring_version;
        ring = fresh_ring capacity consumer;
      })

unfoldable pub attach_ring : Segment → Result Ring
attach_ring seg =
    if ltb seg.size (header_size + min_capacity)
    then err too_small
    else if not (seg.address % 8 == 0)
    then err unaligned
    else if not (seg.magic == ring_magic) || not (seg.version == ring_version)
    then err bad_layout
    else let capacity = seg.ring.capacity in
      if ltb capacity min_capacity
        || not (bit_and capacity (capacity - 1) == 0)
        || ltb seg.size (u64_add header_size capacity)
      then err bad_layout
      else ok seg.ring
