-- ===== src/Ring/Producer.antt =====
-- The producer's side of ring.go: `tryClaim`, `Commit`, `Abort`, `tryWrite`.
use go_ipc.Prelude.{
  ℕ, zero, suc, ◌+◌, ◌-◌, ◌^◌, Bool, false, ◌||◌, Option, none, some, List, ltb, leb, ◌==◌,
  if◌then◌else◌, length,
}
use go_ipc.Words.{u64_add, u64_sub, i32_neg, i32_of}
use go_ipc.Memory.{Bytes, store32, copy_bytes}
use go_ipc.Errors.{Err, Result, ok, err, full, message_too_large, reserved_type}
use go_ipc.Ring.{
  Ring, Claim, record_header_size, type_padding, max_message_size, align, index_of, store_type,
  release, store_intent,
}

unfoldable pub commit : Claim → Ring → Ring
unfolding release
commit c r = release c.slot (record r { bytes = store32 r.bytes c.index c.total })

unfoldable pub abort : Claim → Ring → Ring
unfolding release
abort c r =
    release c.slot
      (record r { bytes = store32 (store_type r.bytes c.index type_padding) c.index c.total })

unfoldable pub has_room : ℕ → ℕ → ℕ → ℕ → Bool
has_room tail head capacity need =
    if ltb tail head || ltb capacity (u64_sub tail head)
    then false
    else leb need (capacity - u64_sub tail head)

-- One pass of the loop of `tryClaim`: start again, or return a claim or an error.
pub data Pass : Type 0 where
  retry : Ring → Pass
  done : Ring → Result Claim → Pass

-- The stores after the compare-and-swap: the padding record over the rest of the lap, if the claim
-- crosses the wrap point, then the header of the claimed record.
unfoldable pub write_padding : ℕ → ℕ → Bytes → Bytes
write_padding index to_end m = store32 (store_type m index type_padding) index (i32_of to_end)

unfoldable pub write_header : ℕ → ℕ → ℕ → Bytes → Bytes
write_header index typ record_len m = store32 (store_type m index typ) index (i32_neg record_len)

module _ (slot : Option ℕ) (typ record_len : ℕ) where
  -- The claim is made: `tail` was the cursor, `need` bytes are taken.
  unfoldable pub take_range : ℕ → ℕ → ℕ → ℕ → ℕ → Ring → Pass
  take_range tail index aligned to_end need r =
      let r' = record r { tail = u64_add tail need } in
      if need == aligned
      then done (record r' { bytes = write_header index typ record_len r'.bytes })
          (ok (record { index = index; total = record_len; slot = slot }))
      else done
          (record r' {
            bytes = write_header 0 typ record_len (write_padding index to_end r'.bytes);
          })
          (ok (record { index = 0; total = record_len; slot = slot }))

  -- `intent`, then the compare-and-swap on `tail`.
  unfoldable pub swap_tail : ℕ → ℕ → ℕ → ℕ → ℕ → Ring → Pass
  unfolding store_intent
  swap_tail tail index aligned to_end need r =
      let r' = store_intent slot tail need r in
      if r'.tail == tail then take_range tail index aligned to_end need r' else retry r'

  -- `tail` and `cached` are what this pass loaded; other producers may have moved on since.
  unfoldable pub claim_pass : ℕ → ℕ → ℕ → Ring → Pass
  claim_pass aligned tail cached r =
      let index = index_of r tail in
      let to_end = r.capacity - index in
      let need = if ltb to_end aligned then u64_add aligned to_end else aligned in
      if has_room tail cached r.capacity need
      then swap_tail tail index aligned to_end need r
      else if ltb tail r.head
      then retry r
      else if has_room tail r.head r.capacity need
      then swap_tail tail index aligned to_end need (record r { head_cache = r.head })
      else done (release slot r) (err full)

  -- The loop, each pass with loads of its own. `none` means that the fuel ran out.
  unfoldable pub claim_loop : ℕ → ℕ → Ring → Option (Ring × Result Claim)
  claim_loop zero aligned r = none
  claim_loop (suc fuel) aligned r = elim (claim_pass aligned r.tail r.head_cache r) [
    | retry r' ↦ claim_loop fuel aligned r'
    | done r' c ↦ some (r', c)
  ]

-- `tryClaim`. `length` is the bit pattern of an int, so that a negative one is at least 2 ^ 63. While
-- nobody else moves the cursors one pass is enough (`Publish.try_claim-room` and the theorem after it).
unfoldable pub try_claim : Option ℕ → ℕ → ℕ → Ring → Option (Ring × Result Claim)
try_claim slot typ length r =
    if typ == type_padding
    then some (r, err reserved_type)
    else if leb (2 ^ 63) length || ltb (max_message_size r) length
    then some (r, err message_too_large)
    else let record_len = i32_of (record_header_size + length) in
      claim_loop slot typ record_len 1 (align record_len) r

-- `copy(c.Bytes, payload)`.
unfoldable pub fill : Claim → List ℕ → Ring → Ring
fill c payload r = record r { bytes = copy_bytes r.bytes (c.index + record_header_size) payload }

unfoldable pub try_write : Option ℕ → ℕ → List ℕ → Ring → Option (Ring × Option Err)
try_write slot typ payload r = elim (try_claim slot typ (length payload) r) [
  | none ↦ none
  | some (r', err e) ↦ some (r', some e)
  | some (r', ok c) ↦ some (commit c (fill c payload r'), none)
]
