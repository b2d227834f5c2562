-- ===== src/Ring/Reading/Loop.antt =====
-- The loop of `Read` over the records of a ring, by induction on its rounds.
use go_ipc.Prelude.{
  ℕ, zero, suc, ◌+◌, ◌-◌, ◌*◌, ◌%◌, ◌^◌, ◌≤◌, ◌<◌, ◌≡◌, List, [], ◌∷◌, ◌++◌, append-nil,
  append_assoc, true, false, refl, sym, ◌∙◌, ap, arith, length, ◌==◌,
}
use go_ipc.Words.{u64_add, i32_not_positive, i32_neg}
use go_ipc.Memory.{Bytes, load32, slice}
use go_ipc.Memory.Laws.{tape, tape-load32, tape-slice, mod-within}
use go_ipc.Ring.{load_type, type_padding}
use go_ipc.Ring.Reader.{Msg, ReadEnd, stop, read_loop}
use go_ipc.Ring.Bounds.{round8, align-round8}
use go_ipc.Ring.Records.{
  Record, blank, claimed, filled, message, padding, span, Holds-span, Chain-le,
}
use go_ipc.Ring.Consume.{clear_record}
use go_ipc.Ring.Reading.{
  ready, Reading, consume, round_passes, round_skips, round_limit, round_end, round_stalls,
}
use native.Mathlib.Decide.{dec_lt}

-- The loop stopped after it passed on `msgs`, at the records `rest`.
pub record ReadOut (cap head tail : ℕ) (run : ReadEnd) (out : List Msg)
    (left : List Msg × List Record) : Type 0 where
  pub bytes : Bytes
  pub consumed : ℕ
  pub returned : run ≡ stop bytes consumed (out ++ left.0)
  pub state : Reading cap head tail bytes consumed left.1

module _ (limit cap head tail : ℕ) (large : 4096 ≤ cap) (room : tail ≤ head + cap)
    (fits : tail < 2 ^ 64) where
  abbrev pub run_of : ℕ → Bytes → ℕ → ℕ → List Msg → ReadEnd
  run_of fuel m k count out = read_loop limit cap head (tail - head) fuel m k count out

  stopped :
      {run : ReadEnd} {m : Bytes} {k : ℕ} {out : List Msg} {xs : List Record}
      → run ≡ stop m k out
      → Reading cap head tail m k xs
      → ReadOut cap head tail run out ([], xs)
  stopped {m = m} {k = k} {out = out} e s = record {
    bytes = m;
    consumed = k;
    returned = e ∙ ap (stop m k) (sym (append-nil out));
    state = s;
  }

  -- The header at the cursor of the loop, as the loop loads it.
  module _ (m : Bytes) (k : ℕ) (x : Record) (xs : List Record)
      (s : Reading cap head tail m k (x ∷ xs)) where
    bounds : (8 ≤ span x) × (head + k + span x ≤ tail)
    bounds = (
      (Holds-span (tape cap m) (head + k) x s.chain.0).0,
      Chain-le cap (tape cap m) (head + k + span x) tail xs s.chain.2,
    )

    at_cursor : u64_add head k % cap ≡ (head + k) % cap
    at_cursor = ap (λ (c : ℕ). c % cap) (omega (arith, bounds))

    loaded_len : load32 m ((head + k) % cap) ≡ load32 (tape cap m) (head + k)
    loaded_len = tape-load32 cap m (head + k) (omega (arith, bounds, s.chain.1))

    loaded_typ : load_type m ((head + k) % cap) ≡ load32 (tape cap m) (head + k + 4)
    loaded_typ =
        let e = mod-within cap (head + k) 4 (omega (arith, bounds, s.chain.1)) in
        rw (← e) (tape-load32 cap m (head + k + 4) (omega (arith, e, bounds, s.chain.1)))

  -- What the induction gives for the rounds that are left.
  abbrev pub Rounds : ℕ → Type 0
  Rounds fuel =
      (m : Bytes) (k count : ℕ) (out : List Msg) (xs : List Record)
      → Reading cap head tail m k xs
      → tail < 8 * fuel + (head + k)
      → ReadOut cap head tail (run_of fuel m k count out) out (ready (limit - count) xs)

  -- One round over a record, below the limit.
  round_lem :
      (fuel : ℕ)
      → Rounds fuel
      → (m : Bytes) (k count : ℕ) (out : List Msg) (x : Record) (xs : List Record)
      → Reading cap head tail m k (x ∷ xs)
      → tail < 8 * suc fuel + (head + k)
      → count < limit
      → ReadOut cap head tail
          (run_of (suc fuel) m k count out)
          out
          (ready (suc (limit - (count + 1))) (x ∷ xs))
  unfolding ready
  round_lem fuel ih m k count out (blank size) xs s h more =
      let at = at_cursor m k (blank size) xs s in
      let len = loaded_len m k (blank size) xs s ∙ s.chain.0.0 in
      stopped (round_stalls limit cap head tail large room fits fuel m k count out _ 0 at len refl)
        s
  round_lem fuel ih m k count out (claimed len typ) xs s h more =
      let at = at_cursor m k (claimed len typ) xs s in
      let l = loaded_len m k (claimed len typ) xs s ∙ s.chain.0.0 in
      let neg : i32_not_positive (i32_neg len) ≡ true = ground (arith, s.chain) in
      stopped (round_stalls limit cap head tail large room fits fuel m k count out _ _ at l neg) s
  round_lem fuel ih m k count out (filled typ payload) xs s h more =
      let at = at_cursor m k (filled typ payload) xs s in
      let l = loaded_len m k (filled typ payload) xs s ∙ s.chain.0.0 in
      let neg : i32_not_positive (i32_neg (8 + length payload)) ≡ true = ground (arith, s.chain) in
      stopped (round_stalls limit cap head tail large room fits fuel m k count out _ _ at l neg) s
  round_lem fuel ih m k count out (message typ payload) xs s h more =
      let l = 8 + length payload in
      let n = round8 l in
      let i = (head + k) % cap in
      let x = message typ payload in
      let (room_left, inside) = bounds m k x xs s in
      let msg : Msg = (typ, payload) in
      let other : (typ == type_padding) ≡ false = ground (arith, s.chain.0.4) in
      let body : slice m (i + 8) (l - 8) ≡ payload =
        ap (slice m (i + 8)) (let e : l - 8 ≡ length payload = omega arith in e)
        ∙ tape-slice cap m (head + k) 8 (length payload) (omega (arith, s.chain.1))
        ∙ s.chain.0.2 in
      let step =
        round_passes limit cap head tail large room fits m k count l n typ i out
          (at_cursor m k x xs s) (loaded_len m k x xs s ∙ s.chain.0.0)
          (loaded_typ m k x xs s ∙ s.chain.0.1) more (omega arith) (ground (arith, s.chain.0.3))
          (omega arith) (align-round8 l (omega (arith, s.chain.0.3))) (omega arith) s.chain.1 fuel
          other in
      let r =
        ih (clear_record m i n) (k + n) (count + 1) (out ++ msg ∷ []) xs
          (consume limit cap head tail large room fits m k x xs s) (omega arith) in
      record {
        bytes = r.bytes;
        consumed = r.consumed;
        returned =
            step
            ∙ rw body (r.returned ∙ ap (stop r.bytes r.consumed) (append_assoc out (msg ∷ []) _));
        state = r.state;
      }
  round_lem fuel ih m k count out (padding len) xs s h more =
      let n = round8 len in
      let i = (head + k) % cap in
      let x = padding len in
      let (room_left, inside) = bounds m k x xs s in
      let step =
        round_skips limit cap head tail large room fits m k count len n type_padding i out
          (at_cursor m k x xs s) (loaded_len m k x xs s ∙ s.chain.0.0)
          (loaded_typ m k x xs s ∙ s.chain.0.1) more (omega arith) (ground (arith, s.chain.0))
          s.chain.0.2 (align-round8 len s.chain.0.3) (omega arith) s.chain.1 fuel refl in
      let r =
        ih (clear_record m i n) (k + n) count out xs
          (consume limit cap head tail large room fits m k x xs s) (omega arith) in
      let e : suc (limit - (count + 1)) ≡ limit - count = omega arith in
      rw e (record {
        bytes = r.bytes;
        consumed = r.consumed;
        returned = step ∙ r.returned;
        state = r.state;
      })

  pub loop_lem : (fuel : ℕ) → Rounds fuel
  loop_lem zero m k count out xs s h =
      absurd (omega (arith, Chain-le cap (tape cap m) (head + k) tail xs s.chain))
  loop_lem (suc fuel) m k count out [] s h =
      unfold ready in
      stopped
        (round_end limit cap head tail large room fits fuel m k count out (omega (arith, s.chain)))
        s
  loop_lem (suc fuel) m k count out (x ∷ xs) s h = elim (dec_lt count limit) [
    | no p ↦
        let e : limit - count ≡ 0 = omega arith in
        rw e (
          unfold ready in
          stopped (round_limit limit cap head tail large room fits fuel m k count out (omega arith))
            s)
    | yes p ↦
        let e : limit - count ≡ suc (limit - (count + 1)) = omega arith in
        rw e (round_lem fuel (loop_lem fuel) m k count out x xs s h p)
  ]
