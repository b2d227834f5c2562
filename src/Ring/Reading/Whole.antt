-- ===== src/Ring/Reading/Whole.antt =====
-- `Read` as a whole on a ring that holds `xs`.
use go_ipc.Prelude.{
  ℕ, ◌+◌, ◌-◌, ◌/◌, ◌≤◌, ◌≡◌, none, some, List, [], ◌∷◌, Bool-cases, inl, inr, refl, subst, arith,
  ltb, ◌==◌, if◌then◌else◌,
}
use go_ipc.Words.{u64_add, u64_sub}
use go_ipc.Memory.{Bytes}
use go_ipc.Memory.Laws.{tape}
use go_ipc.Ring.{Ring}
use go_ipc.Ring.Reader.{read_loop, read}
use go_ipc.Ring.Records.{Record, Chain-le, Chain-mod_back, IsRing}
use go_ipc.Ring.Claims.{tail-mod, head-le-tail}
use go_ipc.Ring.Reading.{ready, Reading}
use go_ipc.Ring.Reading.Loop.{ReadOut, loop_lem}
use native.Mathlib.Nat.{mod-eq-sub-mod}
use native.Mathlib.Decide.{dec_lt}

module _ {r : Ring} {xs : List Record} (v : IsRing r xs) where
  open v use {large, whole, small, chain, room, cached, fits, clean}

  pub started : Reading r.capacity r.head r.tail r.bytes 0 xs
  started = record {
    chain = let e : r.head + 0 ≡ r.head = omega arith in rw e chain;
    clean = clean;
    cleared = λ d h k. absurd (omega arith);
  }

  -- The ring after a read that stopped after `k` bytes.
  module _ {m : Bytes} {k : ℕ} {rest : List Record}
      (s : Reading r.capacity r.head r.tail m k rest) where
    end : r.head + k ≤ r.tail
    end = Chain-le r.capacity (tape r.capacity m) (r.head + k) r.tail rest s.chain

    moved : (if ltb 0 k then u64_add r.head k else r.head) ≡ r.head + k
    moved = elim (Bool-cases (ltb 0 k)) [
      | inl some_read ↦ rw some_read (omega (arith, end))
      | inr none_read ↦ rw none_read (ground arith)
    ]

    pub finished : IsRing (record r { bytes = m; head = r.head + k }) rest
    finished = record {
      large = large;
      whole = whole;
      small = small;
      head_aligned =
          Chain-mod_back r.capacity (tape r.capacity m) (r.head + k) r.tail rest s.chain
            (tail-mod v);
      chain = s.chain;
      room = omega arith;
      cached = omega arith;
      fits = fits;
      clean = λ d p q. elim (dec_lt d (r.head + r.capacity)) [
        | yes b ↦ s.clean d p b
        | no b ↦
            let e = mod-eq-sub-mod {n = d} {m = r.capacity} (omega arith) in
            rw e (s.cleared (d - r.capacity) (omega arith) (omega arith))
      ];
    }

  ready-zero : (ys : List Record) → ready 0 ys ≡ ([], ys)
  unfolding ready
  ready-zero [] = refl
  ready-zero (x ∷ ys) = refl

  outcome :
      (limit : ℕ)
      → ReadOut r.capacity r.head r.tail
          (read_loop limit r.capacity r.head
            (r.tail - r.head)
            ((r.tail - r.head) / 8 + 2)
            r.bytes
            0
            0
            [])
          []
          (ready limit xs)
  outcome limit =
      let e : limit - 0 ≡ limit = omega arith in
      subst
        (λ (n : ℕ).
          ReadOut r.capacity r.head r.tail
            (read_loop limit r.capacity r.head (r.tail - r.head) ((r.tail - r.head) / 8 + 2) r.bytes
              0 0 [])
            [] (ready n xs))
        e
        (loop_lem limit r.capacity r.head r.tail large room fits ((r.tail - r.head) / 8 + 2) r.bytes
          0 0 [] xs started (omega arith))

  -- `Read` returns the first messages that are ready, at most `limit`, and no error; the ring then
  -- holds the records that are left.
  pub read_lem :
      (limit : ℕ)
      → (ring : Ring) × (read limit r ≡ some (ring, (ready limit xs).0, none))
        × IsRing ring (ready limit xs).1
        × (ring.tail ≡ r.tail)
        × (ring.capacity ≡ r.capacity)
  unfolding read
  read_lem limit = elim (Bool-cases (limit == 0)) [
    | inl nothing ↦
        let e : limit ≡ 0 = ground arith in rw (e, ready-zero xs) (r, refl, v, refl, refl)
    | inr more ↦
        let sub : u64_sub r.tail r.head ≡ r.tail - r.head = omega (arith, head-le-tail v) in
        let o = outcome limit in
        (
          record r { bytes = o.bytes; head = r.head + o.consumed },
          rw (more, sub, o.returned, moved o.state),
          finished o.state,
          refl,
          refl,
        )
  ]
