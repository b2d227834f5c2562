-- ===== src/Ring/Overflow.antt =====
-- The largest records, for which the int32 addition of `align` overflows.
use go_ipc.Prelude.{
  ℕ, suc, ◌+◌, ◌-◌, ◌/◌, ◌%◌, ◌^◌, ◌≤◌, ◌<◌, ◌≡◌, none, some, [], arith, true, false, ltb, leb,
  ◌==◌, ◌||◌,
}
use go_ipc.Words.{u64_add, u64_sub, i32_of, i32_not_positive}
use go_ipc.Memory.{load32}
use go_ipc.Memory.Laws.{load32-store32}
use go_ipc.Errors.{ok, corrupt}
use go_ipc.Ring.{Ring, Claim, fresh_ring, type_padding, max_message_size}
use go_ipc.Ring.Producer.{
  try_claim, claim_loop, claim_pass, swap_tail, take_range, has_room, commit, write_header,
  write_padding,
}
use go_ipc.Ring.Reader.{read, read_loop}
use go_ipc.Ring.Bounds.{align_overflow}

-- A committed record of such a length makes `Read` report a corrupt ring.
pub read_overflow :
    (limit l : ℕ) (r : Ring)
    → 0 < limit
    → r.head < 2 ^ 64
    → 0 < u64_sub r.tail r.head
    → u64_sub r.tail r.head < 2 ^ 64 - 2 ^ 31
    → load32 r.bytes (r.head % r.capacity) ≡ l
    → l < 2 ^ 31
    → 2 ^ 31 ≤ l + 7
    → read limit r ≡ some (r, [], some corrupt)
unfolding read read_loop
read_overflow limit l r pos small more short at hl over =
    let e : u64_add r.head 0 ≡ r.head = omega arith in
    let nz : (limit == 0) ≡ false = ground arith in
    let lim : ltb 0 limit ≡ true = ground arith in
    let av : ltb 0 (u64_sub r.tail r.head) ≡ true = ground arith in
    let np : i32_not_positive l ≡ false = ground arith in
    let h8 : ltb l 8 ≡ false = ground arith in
    let big : ltb (u64_sub r.tail r.head - 0) (2 ^ 64 - 2 ^ 31) ≡ true = ground arith in
    let f : u64_sub r.tail r.head / 8 + 2 ≡ suc (u64_sub r.tail r.head / 8 + 1) = omega arith in
    rw (nz, f, e, at, align_overflow l hl over, lim, av, np, h8, big)

abbrev overflow_claim : ℕ → Claim
overflow_claim len = record { index = 0; total = 8 + len; slot = none }

abbrev overflow_ring : ℕ → ℕ → ℕ → Ring
overflow_ring consumer typ len = record (fresh_ring (2 ^ 32) consumer) {
  tail = 2 ^ 31;
  bytes = write_header 0 typ (8 + len) (write_padding 0 (2 ^ 32) (λ _. 0));
}

claim_overflow :
    (consumer typ len : ℕ)
    → typ < type_padding
    → 2 ^ 31 ≤ len + 15
    → len + 8 < 2 ^ 31
    → try_claim none typ len (fresh_ring (2 ^ 32) consumer)
      ≡ some (overflow_ring consumer typ len, ok (overflow_claim len))
unfolding try_claim claim_loop claim_pass swap_tail take_range has_room max_message_size
claim_overflow consumer typ len ht lo hi =
    let t : (typ == type_padding) ≡ false = ground arith in
    let l : (leb (2 ^ 63) len || ltb (2 ^ 31 - 9) len) ≡ false = ground arith in
    let e : i32_of (8 + len) ≡ 8 + len = omega arith in
    rw (t, l, e, align_overflow (8 + len) (omega arith) (omega arith))

-- On a new ring of 4 GiB a claim of one of the seven largest lengths that `MaxMessageSize` allows
-- succeeds, and after its commit every read reports a corrupt ring.
pub overflow_corrupts :
    (consumer typ len limit : ℕ)
    → typ < type_padding
    → 2 ^ 31 ≤ len + 15
    → len + 8 < 2 ^ 31
    → 0 < limit
    → (ring : Ring) × (c : Claim) × (try_claim none typ len (fresh_ring (2 ^ 32) consumer)
        ≡ some (ring, ok c))
      × (read limit (commit c ring) ≡ some (commit c ring, [], some corrupt))
unfolding commit
overflow_corrupts consumer typ len limit ht lo hi pos = (
  overflow_ring consumer typ len,
  overflow_claim len,
  claim_overflow consumer typ len ht lo hi,
  read_overflow limit (8 + len) _ pos (omega arith) (omega arith) (omega arith)
      (load32-store32 _ 0 (8 + len) (omega arith)) (omega arith) (omega arith),
)
