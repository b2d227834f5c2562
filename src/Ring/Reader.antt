-- ===== src/Ring/Reader.antt =====
-- The consumer's side of ring.go: `Read` and `TryRecv`.
use go_ipc.Prelude.{
  ℕ, zero, suc, ◌+◌, ◌-◌, ◌/◌, ◌%◌, ◌^◌, not, ◌&&◌, ◌||◌, Option, none, some, List, [], ◌∷◌, ◌++◌,
  ltb, leb, ◌==◌, if◌then◌else◌,
}
use go_ipc.Words.{u64_add, u64_sub, i32_not_positive}
use go_ipc.Memory.{Bytes, load32, store32, clear_bytes, slice}
use go_ipc.Errors.{Err, Result, ok, err, corrupt, empty}
use go_ipc.Ring.{Ring, record_header_size, type_padding, align, load_type}

-- A record as `ReadFunc` gets it: its type and its payload.
abbrev pub Msg : Type 0
Msg = ℕ × List ℕ

-- How the loop of `Read` ends. The bytes are those after the records that were passed on were
-- cleared, `consumed` is how far the reader came. `panicked`: the sum of index and step wrapped, and
-- `clear` is asked for a slice that ends before it starts. `exhausted` is no Go value: the fuel ran out.
pub data ReadEnd : Type 0 where
  stop : Bytes → (consumed : ℕ) → List Msg → ReadEnd
  bad : Bytes → List Msg → ReadEnd
  panicked : ReadEnd
  exhausted : ReadEnd

module _ (limit capacity head available : ℕ) where
  -- `for count < limit && consumed < available`; `out` holds what `fn` got so far.
  unfoldable pub read_loop : ℕ → Bytes → (consumed count : ℕ) → List Msg → ReadEnd
  read_loop zero m consumed count out = exhausted
  read_loop (suc fuel) m consumed count out =
      let index = u64_add head consumed % capacity in
      let len = load32 m index in
      let step = align len in
      let typ = load_type m index in
      let msg : Msg = (typ, slice m (index + record_header_size) (len - record_header_size)) in
      let m' = store32 (clear_bytes m (index + 4) (step - 4)) index 0 in
      let skipped = read_loop fuel m' (consumed + step) count out in
      let passed = read_loop fuel m' (consumed + step) (count + 1) (out ++ (msg ∷ [])) in
      if not (ltb count limit && ltb consumed available)
      then stop m consumed out
      else if i32_not_positive len
      then stop m consumed out
      else if ltb len record_header_size
          || ltb (available - consumed) step
          || ltb capacity (u64_add index step)
      then bad m out
      else if leb (2 ^ 64) (index + step)
      then panicked
      else if typ == type_padding
      then skipped
      else passed

-- The store of `head`, which an error leaves out. A `Read` that panics does not return.
abbrev pub finish_read : Ring → ReadEnd → Option (Ring × List Msg × Option Err)
finish_read r (stop m consumed out) = some (
  record r { bytes = m; head = if ltb 0 consumed then u64_add r.head consumed else r.head },
  out,
  none,
)
finish_read r (bad m out) = some (record r { bytes = m }, out, some corrupt)
finish_read r panicked = none
finish_read r exhausted = none

-- `Read`: the ring after it, what `fn` got, and the error. The count that Go returns is the length
-- of the list. Each round consumes eight bytes or more (`Reading.read_total`).
unfoldable pub read : ℕ → Ring → Option (Ring × List Msg × Option Err)
read limit r =
    let available = u64_sub r.tail r.head in
    let run = read_loop limit r.capacity r.head available (available / 8 + 2) r.bytes 0 0 [] in
    if limit == 0 then some (r, [], none) else finish_read r run

-- `TryRecv`, whose buffer management leaves the copied payload the same.
abbrev pub received : Option (Ring × List Msg × Option Err) → Option (Ring × Result Msg)
received none = none
received (some (r, out, some e)) = some (r, err e)
received (some (r, [], none)) = some (r, err empty)
received (some (r, msg ∷ _, none)) = some (r, ok msg)

unfoldable pub try_recv : Ring → Option (Ring × Result Msg)
try_recv r = received (read 1 r)
