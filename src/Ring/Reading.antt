-- ===== src/Ring/Reading.antt =====
-- `Read` on a ring that holds `xs`: which records it passes on, what it leaves, and that it ends.
pub mod Loop
pub mod Whole
pub mod Total
use go_ipc.Prelude.{
  ℕ, zero, suc, ◌+◌, ◌-◌, ◌*◌, ◌/◌, ◌%◌, ◌^◌, ◌≤◌, ◌<◌, ◌≡◌, ◌≢◌, ◌⊎◌, inl, inr, Bool, true, false,
  Bool-cases, ◌&&◌, Option, none, some, List, [], ◌∷◌, ◌++◌, append-nil, append_assoc, refl, sym,
  ◌∙◌, ap, subst, arith, length, ltb, lt→ltb, leb, ◌==◌,
}
use go_ipc.Words.{u64_add, u64_sub, i32_not_positive, i32_neg}
use go_ipc.Memory.{Bytes, load32, store32, clear_bytes, slice}
use go_ipc.Memory.Laws.{tape, tape-load32, tape-slice, mod-within}
use go_ipc.Errors.{Err}
use go_ipc.Ring.{Ring, align, load_type, type_padding}
use go_ipc.Ring.Reader.{Msg, ReadEnd, stop, bad, exhausted, read_loop, finish_read, read}
use go_ipc.Ring.Bounds.{round8, align-round8}
use go_ipc.Ring.Records.{
  Record, blank, claimed, filled, message, padding, span, Holds, Holds-span, Chain, Chain-le,
  Chain-Agree, IsRing,
}
use go_ipc.Ring.Replace.{AgreeBut}
use go_ipc.Ring.Consume.{clear_record, Cleared, clear_record_lem}
use native.Mathlib.Decide.{dec_lt}
use native.Mathlib.Nat.{div-add-mod}

-- What a reader that may take `n` messages gets of the records, and what is left: it skips padding
-- and stops at a record that is not committed.
unfoldable pub ready : ℕ → List Record → List Msg × List Record
ready n [] = ([], [])
ready zero (x ∷ xs) = ([], x ∷ xs)
ready (suc n) (blank size ∷ xs) = ([], blank size ∷ xs)
ready (suc n) (claimed len typ ∷ xs) = ([], claimed len typ ∷ xs)
ready (suc n) (filled typ payload ∷ xs) = ([], filled typ payload ∷ xs)
ready (suc n) (message typ payload ∷ xs) =
    let (out, rest) = ready n xs in ((typ, payload) ∷ out, rest)
ready (suc n) (padding len ∷ xs) = ready (suc n) xs

module _ (cap head tail : ℕ) where
  -- The loop stands at cursor `head + k`: the records behind it are whole, and what it passed is
  -- zero.
  pub record Reading (m : Bytes) (k : ℕ) (xs : List Record) : Type 0 where
    pub chain : Chain cap (tape cap m) (head + k) xs tail
    pub clean : (d : ℕ) → tail ≤ d → d < head + cap → m (d % cap) ≡ 0
    pub cleared : (d : ℕ) → head ≤ d → d < head + k → m (d % cap) ≡ 0

module _ (limit cap head tail : ℕ) (large : 4096 ≤ cap) (room : tail ≤ head + cap)
    (fits : tail < 2 ^ 64) where
  abbrev available : ℕ
  available = tail - head

  -- Consuming a record leaves the rest of the records, and zeros in its place.
  pub consume :
      (m : Bytes) (k : ℕ) (x : Record) (xs : List Record)
      → Reading cap head tail m k (x ∷ xs)
      → Reading cap head tail (clear_record m ((head + k) % cap) (span x)) (k + span x) xs
  consume m k x xs s =
      let c = head + k in
      let n = span x in
      let (h8, _) = Holds-span (tape cap m) c x s.chain.0 in
      let end = Chain-le cap (tape cap m) (c + n) tail xs s.chain.2 in
      let z =
        clear_record_lem cap m head c n (omega arith) (omega arith) h8 s.chain.1 (omega arith) in
      let m' = clear_record m (c % cap) n in
      let e : head + (k + n) ≡ c + n = omega arith in
      record {
        chain = rw e (
            Chain-Agree cap (tape cap m) (tape cap m') (c + n) tail xs
              (λ d p q. z.but d (omega arith) (omega arith) (inr p)) s.chain.2);
        clean = λ d p q. z.but d (omega arith) q (inr (omega arith)) ∙ s.clean d p q;
        cleared = λ d p q. elim (dec_lt d c) [
          | yes b ↦ z.but d p (omega arith) (inl b) ∙ s.cleared d p b
          | no b ↦ z.zeroed d (omega arith) (omega arith)
        ];
      }

  -- One round over a readable record of `l` bytes at index `i`, which is then zeroed.
  module _ (m : Bytes) (k count l n t i : ℕ) (out : List Msg) (at : u64_add head k % cap ≡ i)
      (len : load32 m i ≡ l) (typ : load_type m i ≡ t) (more : count < limit) (rest : k < available)
      (pos : i32_not_positive l ≡ false) (h8 : 8 ≤ l) (step : align l ≡ n) (fit : n ≤ available - k)
      (inside : i + n ≤ cap) where
    limited : ltb count limit ≡ true
    limited = lt→ltb count limit more

    left : ltb k available ≡ true
    left = lt→ltb k available rest

    headed : ltb l 8 ≡ false
    headed = ground arith

    short : ltb (available - k) n ≡ false
    short = ground arith

    unwrapped : i + n < 2 ^ 64
    unwrapped = omega (arith, div-add-mod (u64_add head k) cap, at, rest, fit)

    whole : ltb cap (u64_add i n) ≡ false
    whole = ground (arith, unwrapped)

    sliced : leb (2 ^ 64) (i + n) ≡ false
    sliced = ground (arith, unwrapped)

    round_passes :
        (fuel : ℕ)
        → (t == type_padding) ≡ false
        → read_loop limit cap head available (suc fuel) m k count out
          ≡ read_loop limit cap head available fuel
              (clear_record m i n)
              (k + n)
              (count + 1)
              (out ++ ((t, slice m (i + 8) (l - 8)) ∷ []))
    unfolding read_loop clear_record
    round_passes fuel e =
        rw (at, len, typ, step, limited, left, headed, short, whole, sliced, pos, e)

    round_skips :
        (fuel : ℕ)
        → (t == type_padding) ≡ true
        → read_loop limit cap head available (suc fuel) m k count out
          ≡ read_loop limit cap head available fuel (clear_record m i n) (k + n) count out
    unfolding read_loop clear_record
    round_skips fuel e =
        rw (at, len, typ, step, limited, left, headed, short, whole, sliced, pos, e)

  -- A record that is not committed, or the end of the records, or the limit, ends the loop.
  module _ (fuel : ℕ) (m : Bytes) (k count : ℕ) (out : List Msg) where
    round_limit :
        limit ≤ count → read_loop limit cap head available (suc fuel) m k count out ≡ stop m k out
    unfolding read_loop
    round_limit h = let e : ltb count limit ≡ false = ground arith in rw e

    round_end :
        available ≤ k → read_loop limit cap head available (suc fuel) m k count out ≡ stop m k out
    unfolding read_loop
    round_end h = elim (Bool-cases (ltb count limit)) [
      | inl more ↦ let e : ltb k available ≡ false = ground arith in rw (more, e)
      | inr done ↦ rw done
    ]

    round_stalls :
        (i l : ℕ)
        → u64_add head k % cap ≡ i
        → load32 m i ≡ l
        → i32_not_positive l ≡ true
        → read_loop limit cap head available (suc fuel) m k count out ≡ stop m k out
    unfolding read_loop
    round_stalls i l at len pos = elim (Bool-cases (ltb count limit && ltb k available)) [
      | inl more ↦ rw (more, at, len, pos)
      | inr done ↦ rw done
    ]
